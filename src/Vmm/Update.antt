-- ===== src/Vmm/Update.antt =====
-- How the operations that write an entry change the page map.
use optimsoc.Prelude.{
  ℕ, ◌+◌, ◌*◌, ◌/◌, ◌^◌, ◌≡◌, ◌≢◌, ◌<◌, inr, refl, sym, ap, ◌∙◌, ◌&&◌, Bool, true, false, none,
  some, [], ◌∷◌, arith, ◌==◌, if◌then◌else◌, done, replicate, get_elem?-replicate,
}
use native.Mathlib.Decide.{ℕ_discrete}
use optimsoc.Vmm.{Blocks, l2_index_get, peek, set_page, map_page, create_page_table, page_entry}
use optimsoc.Vmm.Entry.{page_entry_lem}
use optimsoc.Vmm.Memory.{Poked, poke_lem, peek-update, peek-update_other}
use optimsoc.Vmm.Pages.{Maps, at_page, IsPage, entry_of, entry_fields, IsPage-if, present_page}

-- Writing a word of the `i`-th page table changes the page map at that pair alone.
pub Maps-poke_page :
    {dir : ℕ} {base : ℕ → ℕ} {page : ℕ → ℕ → ℕ} {mem mem' : Blocks} (i k w : ℕ)
    → Maps dir base page mem
    → i < 256
    → base i ≢ 0
    → IsPage w
    → Poked (base i * 2 ^ 13) k w mem mem'
    → Maps dir base (at_page page i k w) mem'
Maps-poke_page {dir} {base} {page} {mem} {mem'} i k w m h ne valid p = record {
  aligned = m.aligned;
  entry = λ j b. ground (arith, p.word dir j, m.entry j b, m.not_dir i);
  frame = m.frame;
  word = λ j l b c d.
      ground
        (arith, p.word (base j * 2 ^ 13) l, m.word j l b c d, m.word i l h c ne, m.apart j i d);
  no_table = λ j l e. ground (arith, m.no_table j l e, ap base);
  valid = λ j l. IsPage-if ((j == i) && (l == k)) valid (m.valid j l);
  apart = m.apart;
  not_dir = m.not_dir;
}

-- Equal page maps are interchangeable.
pub Maps-resp :
    {dir : ℕ} {base : ℕ → ℕ} {page page' : ℕ → ℕ → ℕ} {mem : Blocks}
    → ((i k : ℕ) → page i k ≡ page' i k)
    → Maps dir base page mem
    → Maps dir base page' mem
Maps-resp {dir} {base} {page} {page'} {mem} same m = record {
  aligned = m.aligned;
  entry = m.entry;
  frame = m.frame;
  word = λ i k b c d. rw (← same i k) (m.word i k b c d);
  no_table = λ i k e. sym (same i k) ∙ m.no_table i k e;
  valid = λ i k. rw (← same i k) (m.valid i k);
  apart = m.apart;
  not_dir = m.not_dir;
}

pub Maps-resp_tables :
    {dir : ℕ} {base base' : ℕ → ℕ} {page : ℕ → ℕ → ℕ} {mem : Blocks}
    → ((i : ℕ) → base i ≡ base' i)
    → Maps dir base page mem
    → Maps dir base' page mem
Maps-resp_tables {dir} {base} {base'} {page} {mem} same m = record {
  aligned = m.aligned;
  entry = λ i b. rw (← same i) (m.entry i b);
  frame = λ i. rw (← same i) (m.frame i);
  word = λ i k b c d. rw (← same i) (m.word i k b c (λ e. d (sym (same i) ∙ e)));
  no_table = λ i k e. m.no_table i k (same i ∙ e);
  valid = m.valid;
  apart = λ i j a e. m.apart i j (λ s. a (sym (same i) ∙ s)) (same i ∙ e ∙ sym (same j));
  not_dir = λ i. rw (← same i) (m.not_dir i);
}

-- The entry of a page table after `optimsoc_vmm_map`, over the one before.
abbrev pub mapped : (old paddr : ℕ) → ℕ
mapped old paddr = if old == 0 then paddr / 2 ^ 13 * 2 ^ 13 + 1472 else old

mapped-IsPage : (paddr : ℕ) → paddr < 2 ^ 32 → IsPage (page_entry paddr)
mapped-IsPage paddr h = rw (page_entry_lem paddr h) (inr (omega arith, omega arith))

at_page-same :
    (page : ℕ → ℕ → ℕ) (i k paddr j l : ℕ)
    → page i k ≢ 0
    → page j l ≡ at_page page i k (mapped (page i k) paddr) j l
at_page-same page i k paddr j l full = ground (
  arith,
  (λ (e : j ≡ i). ap (λ (t : ℕ). page t l) e),
  (λ (e : l ≡ k). ap (λ (t : ℕ). page i t) e),
)

-- `optimsoc_vmm_map` behind a directory entry adds the page, unless the address has one.
module _ {dir : ℕ} {base : ℕ → ℕ} {page : ℕ → ℕ → ℕ} {mem : Blocks} (m : Maps dir base page mem)
    (paddr : ℕ) (hp : paddr < 2 ^ 32) (i : ℕ) (b : i < 256) (ne : base i ≢ 0) where
  map_page_free :
      (vaddr : ℕ)
      → l2_index_get vaddr < 2048
      → page i (l2_index_get vaddr) ≡ 0
      → (mem' : Blocks) × (map_page
            (none ∷ [])
            (entry_of (base i))
            (base i * 2 ^ 13)
            vaddr
            paddr
            mem
          ≡ done (true, mem'))
        × Maps dir base (at_page page i (l2_index_get vaddr) (page_entry paddr)) mem'
  unfolding map_page set_page
  map_page_free vaddr c e =
      let k = l2_index_get vaddr in
      let here = m.word i k b c ne in
      let (mem', run, poked) = poke_lem (base i * 2 ^ 13) k mem (page_entry paddr) here in
      let (present, last, table) = entry_fields (base i) ne (m.frame i) in
      (
        mem',
        rw (last, here, e, run) refl,
        Maps-poke_page i k (page_entry paddr) m b ne (mapped-IsPage paddr hp) poked,
      )

  map_page_taken :
      (vaddr : ℕ)
      → l2_index_get vaddr < 2048
      → page i (l2_index_get vaddr) ≢ 0
      → map_page (none ∷ []) (entry_of (base i)) (base i * 2 ^ 13) vaddr paddr mem
        ≡ done (false, mem)
  unfolding map_page
  map_page_taken vaddr c full =
      let k = l2_index_get vaddr in
      let (present, last, table) = entry_fields (base i) ne (m.frame i) in
      rw (last, m.word i k b c ne, present_page (page i k) full (m.valid i k)) refl

  mapped-free : (k : ℕ) → page i k ≡ 0 → page_entry paddr ≡ mapped (page i k) paddr
  mapped-free k e = ground (arith, page_entry_lem paddr hp)

  -- `optimsoc_vmm_map` behind a directory entry adds the page, unless the address has one.
  pub map_page_lem :
      (vaddr : ℕ)
      → (let k = l2_index_get vaddr in
          k < 2048
          → (mem' : Blocks) × (map_page
                (none ∷ [])
                (entry_of (base i))
                (base i * 2 ^ 13)
                vaddr
                paddr
                mem
              ≡ done (page i k == 0, mem'))
            × Maps dir base (at_page page i k (mapped (page i k) paddr)) mem')
  map_page_lem vaddr c =
      let k = l2_index_get vaddr in
      elim (ℕ_discrete (page i k) 0) [
        | yes e ↦
            let (mem', run, maps) = map_page_free vaddr c e in
            (
              mem',
              run ∙ ap (λ (free : Bool). done (free, mem')) (ground arith),
              Maps-resp (λ j l. ap (λ (w : ℕ). at_page page i k w j l) (mapped-free k e)) maps,
            )
        | no full ↦ (
          mem,
          map_page_taken vaddr c full ∙ ap (λ (free : Bool). done (free, mem)) (ground arith),
          Maps-resp (λ j l. at_page-same page i k paddr j l full) m,
        )
      ]

-- The page frames with a table for the directory entry `i`.
abbrev pub at_table : (base : ℕ → ℕ) (i b : ℕ) → ℕ → ℕ
at_table base i b j = if j == i then b else base j

-- A block of zeros at an address that is not in use.
pub record Cleared (fresh : ℕ) (mem mem' : Blocks) : Type 0 where
  pub word : (b k : ℕ) → b ≢ fresh → peek b k mem' ≡ peek b k mem
  pub zero_word : (k : ℕ) → k < 2048 → peek fresh k mem' ≡ done 0

pub create_page_table_lem :
    (fresh : ℕ) (mem : Blocks) → fresh ≢ 0 → Cleared fresh mem (create_page_table fresh mem)
unfolding create_page_table
create_page_table_lem fresh mem ne = record {
  word = λ b k other. peek-update_other fresh b k mem (some (replicate 2048 0)) other;
  zero_word = λ k h. peek-update fresh k mem (replicate 2048 0) ne (get_elem?-replicate 2048 k 0 h);
}

-- A new table at page frame `fresh` for an entry without one.
pub Maps-new_table :
    {dir : ℕ} {base : ℕ → ℕ} {page : ℕ → ℕ → ℕ} {mem mem1 mem2 : Blocks} (i fresh : ℕ)
    → Maps dir base page mem
    → base i ≡ 0
    → fresh ≢ 0
    → fresh < 2 ^ 19
    → fresh * 2 ^ 13 ≢ dir
    → ((j : ℕ) → base j ≢ fresh)
    → Cleared (fresh * 2 ^ 13) mem mem1
    → Poked dir i (entry_of fresh) mem1 mem2
    → Maps dir (at_table base i fresh) page mem2
Maps-new_table {dir} {base} {page} {mem} {mem1} {mem2} i fresh m e ne h other unused c p = record {
  aligned = m.aligned;
  entry = λ j b. ground (
    arith,
    p.word dir j,
    c.word dir j (λ e. other (sym e)),
    m.entry j b,
    ap base {x = j} {y = i},
  );
  frame = λ j. ground (arith, m.frame j);
  word = λ j k b d n. elim (ℕ_discrete j i) [
    | yes same ↦
        ground (arith, p.word (fresh * 2 ^ 13) k, c.zero_word k d, m.no_table j k, ap base same)
    | no differs ↦ ground (
      arith,
      p.word (base j * 2 ^ 13) k,
      c.word (base j * 2 ^ 13) k,
      m.word j k b d,
      m.not_dir j,
      unused j,
    )
  ];
  no_table = λ j k e. ground (arith, m.no_table j k);
  valid = m.valid;
  apart = λ j l a s. ground (arith, m.apart j l, unused j, unused l);
  not_dir = λ j. ground (arith, m.not_dir j);
}
