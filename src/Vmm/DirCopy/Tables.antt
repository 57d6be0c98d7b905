-- ===== src/Vmm/DirCopy/Tables.antt =====
-- The copy of a page table with its pages, in `optimsoc_vmm_dir_copy` of libruntime/vmm.c with the pool of
-- gzll-kernel/src/page.c.
use optimsoc.Prelude.{
  ℕ, zero, suc, ◌+◌, ◌*◌, ◌^◌, ◌≡◌, ◌≢◌, ◌<◌, ◌≤◌, refl, sym, ap, ◌∙◌, Option, some, List, arith,
  ◌==◌, if◌then◌else◌, get_elem?, mul32, done,
}
use native.Mathlib.Decide.{ℕ_discrete}
use optimsoc.Registry.{load, update}
use optimsoc.Runtime.Queues.{Holds, dequeue-Holds}
use optimsoc.PagePool.{page_alloc}
use optimsoc.PagePool.Fill.{pages_from}
use optimsoc.Vmm.{pte_present_get, pte_ppn_get, addr_pn_set, peek, page_entry}
use optimsoc.Vmm.Memory.{Poked, poke_lem}
use optimsoc.Vmm.DirCopy.{CopyState, copy_page, copy_entries}
use optimsoc.Vmm.DirCopy.Frames.{sum, rank, Copied, Copied-none, Copied-skip, Copied-step}

-- An entry with its page.
Copied-one :
    {pte : ℕ → ℕ} {data_of : ℕ → List ℕ} {table first : ℕ} (s : ℕ) (st st' : CopyState)
    → Poked table s (page_entry ((first + rank pte s) * 2 ^ 13)) st.tables st'.tables
    → pte_present_get (pte s) ≢ 0
    → st'.pages ≡ update st.pages ((first + rank pte s) * 2 ^ 13) (some (data_of s))
    → Copied pte data_of table first s 1 st st'
unfolding update
Copied-one {pte} {data_of} {table} {first} s st st' p full pages = record {
  entry = λ j a b c. let e : j ≡ s = omega arith in rw e (ground (arith, p.word table s));
  words = λ j a b c. let e : j ≡ s = omega arith in rw (e, pages) (ground arith);
  no_page = λ j a b c.
      let e : j ≡ s = omega arith in absurd (full (ap (λ i. pte_present_get (pte i)) (sym e) ∙ c));
  before = λ j a. ground (arith, p.word table j);
  behind = λ j a. ground (arith, p.word table j);
  other = λ b k ne. ground (arith, p.word b k);
  frames = λ q h. rw pages (ground arith);
}

-- A table of the other tile with `total` pages or fewer, whose words can be read there.
module _ (contents : ℕ → Option (List ℕ)) (table first total : ℕ) (remote : List ℕ) (pte : ℕ → ℕ)
    (data_of : ℕ → List ℕ) (entries : (j : ℕ) → j < 2048 → get_elem? remote j ≡ some (pte j))
    (there : (j : ℕ)
      → j < 2048
      → pte_present_get (pte j) ≢ 0
      → load contents (addr_pn_set 0 (pte_ppn_get (pte j))) ≡ done (data_of j))
    (enough : (j : ℕ) → j ≤ 2048 → rank pte j ≤ total) (small : first + total < 2 ^ 19) where
  copy_page_lem :
      (s m b v : ℕ) (st : CopyState)
      → s < 2048
      → pte_present_get (pte s) ≢ 0
      → first + rank pte s < 2 ^ 19
      → Holds b st.pool (pages_from (first + rank pte s) (suc m))
      → peek table s st.tables ≡ done v
      → (st' : CopyState) × (b' : ℕ) × (copy_page page_alloc contents table s (pte s) st ≡ done st')
        × Holds b' st'.pool (pages_from (suc (first + rank pte s)) m)
        × Copied pte data_of table first s 1 st st'
  unfolding copy_page page_alloc update
  copy_page_lem s m b v st within full fits pool word =
      let page = first + rank pte s in
      let (pool', b', taken, pool_after) = dequeue-Holds pool in
      let address : mul32 page (2 ^ 13) ≡ page * 2 ^ 13 = omega arith in
      let (tables', run, poked) = poke_lem table s st.tables (page_entry (page * 2 ^ 13)) word in
      (
        record {
          tables = tables';
          pool = pool';
          pages = update st.pages (page * 2 ^ 13) (some (data_of s));
        },
        b',
        rw (taken, address, run, there s within full) refl,
        pool_after,
        Copied-one s st _ poked full refl,
      )

  -- One entry, with a page or without.
  copy_entry_lem :
      (s m b v : ℕ) (st : CopyState)
      → s < 2048
      → rank pte s + m ≡ total
      → Holds b st.pool (pages_from (first + rank pte s) m)
      → peek table s st.tables ≡ done v
      → (st' : CopyState) × (b' : ℕ) × (m' : ℕ) × ((if pte_present_get (pte s) == 0
            then done st
            else copy_page page_alloc contents table s (pte s) st)
          ≡ done st')
        × (rank pte (suc s) + m' ≡ total)
        × Holds b' st'.pool (pages_from (first + rank pte (suc s)) m')
        × Copied pte data_of table first s 1 st st'
  unfolding sum
  copy_entry_lem s m b v st within left pool word = elim (ℕ_discrete (pte_present_get (pte s)) 0) [
    | yes e ↦
        let same : rank pte s ≡ rank pte (suc s) = omega arith in
        (st, b, m, rw e refl, omega arith, rw (← same) pool, Copied-skip s st e)
    | no full ↦ with_page m left pool full
  ]
    where
      with_page :
          (m : ℕ)
          → rank pte s + m ≡ total
          → Holds b st.pool (pages_from (first + rank pte s) m)
          → pte_present_get (pte s) ≢ 0
          → (st' : CopyState) × (b' : ℕ) × (m' : ℕ) × ((if pte_present_get (pte s) == 0
                then done st
                else copy_page page_alloc contents table s (pte s) st)
              ≡ done st')
            × (rank pte (suc s) + m' ≡ total)
            × Holds b' st'.pool (pages_from (first + rank pte (suc s)) m')
            × Copied pte data_of table first s 1 st st'
      with_page zero left pool full = let h = enough (suc s) within in absurd (omega arith)
      with_page (suc m) left pool full =
          let (st', b', run, pool', copied) =
            copy_page_lem s m b v st within full (omega arith) pool word in
          let next : suc (first + rank pte s) ≡ first + rank pte (suc s) = omega arith in
          (st', b', m, ground (arith, run), omega arith, rw (← next) pool', copied)

  pub copy_entries_lem :
      (n s m b : ℕ) (old : ℕ → ℕ) (st : CopyState)
      → s + n ≡ 2048
      → rank pte s + m ≡ total
      → Holds b st.pool (pages_from (first + rank pte s) m)
      → ((j : ℕ) → s ≤ j → j < 2048 → peek table j st.tables ≡ done (old j))
      → (st' : CopyState) × (b' : ℕ) × (m' : ℕ) × (copy_entries page_alloc contents table s n remote
            st
          ≡ done st')
        × (rank pte 2048 + m' ≡ total)
        × Holds b' st'.pool (pages_from (first + rank pte 2048) m')
        × Copied pte data_of table first s n st st'
  unfolding copy_entries
  copy_entries_lem zero s m b old st bound left pool words =
      let end : s ≡ 2048 = omega arith in
      let same : rank pte s ≡ rank pte 2048 = ap (rank pte) end in
      (st, b, m, refl, rw (← same) left, rw (← same) pool, Copied-none s st)
  copy_entries_lem (suc n) s m b old st bound left pool words =
      let (st1, b1, m1, run1, left1, pool1, copied1) =
        copy_entry_lem s m b (old s) st (omega arith) left pool
          (words s (omega arith) (omega arith)) in
      let (st2, b2, m2, run2, left2, pool2, copied2) =
        copy_entries_lem n (suc s) m1 b1 old st1 (omega arith) left1 pool1
          (λ j a h. copied1.behind j (omega arith) ∙ words j (omega arith) h) in
      (
        st2,
        b2,
        m2,
        rw (entries s (omega arith), run1) run2,
        left2,
        pool2,
        Copied-step copied1 copied2,
      )
