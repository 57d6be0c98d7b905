-- ===== src/Vmm/DirCopy/Words.antt =====
-- What a thread reads after its page directory was copied by `optimsoc_vmm_dir_copy` of
-- libruntime/vmm.c, with the pool of gzll-kernel/src/page.c.
use optimsoc.Prelude.{
  ℕ, ◌+◌, ◌*◌, ◌/◌, ◌%◌, ◌^◌, ◌≡◌, ◌≢◌, ◌<◌, ◌≤◌, refl, sym, ◌∙◌, true, false, Option, none, some,
  List, arith, ◌==◌, get_elem?, get_elem?-replicate, replicate, done, Run, ◌>>=◌, >>=-eq-done, read,
  zero-bit_or,
}
use native.Mathlib.Decide.{ℕ_discrete}
use optimsoc.Registry.{load}
use optimsoc.Runtime.Queues.{Holds}
use optimsoc.PagePool.{page_alloc}
use optimsoc.PagePool.Fill.{pages_from}
use optimsoc.Vmm.{
  Blocks, verify_dir, l1_index_get, l2_index_get, pte_present_get, pte_ppn_get, addr_pn_set, ptable,
  peek, page_entry, create_page_dir, vmm_lookup, virt2phys,
}
use optimsoc.Vmm.Entry.{address_lem, page_entry_lem}
use optimsoc.Vmm.Memory.{peek-update}
use optimsoc.Vmm.Pages.{
  Maps, IsPage, entry_of, entry_fields, page-frame, present_page, virt2phys_lem,
}
use optimsoc.Vmm.DirCopy.{CopyState, dir_copy}
use optimsoc.Vmm.DirCopy.Frames.{sum}
use optimsoc.Vmm.DirCopy.Copies.{before, frame_of, frame_of-before, Copies}
use optimsoc.Vmm.DirCopy.Directory.{copy_tables_lem}

-- The words of the page of a virtual address, and none where it has no page.
abbrev words_at : (pages : ℕ → Option (List ℕ)) → Option ℕ → Run (Option (List ℕ))
words_at pages none = done none
words_at pages (some paddr) = do words ← load pages (ptable paddr); done (some words)

unfoldable pub page_words :
    (dir vaddr : ℕ) (tables : Blocks) (pages : ℕ → Option (List ℕ)) → Run (Option (List ℕ))
page_words dir vaddr tables pages = do paddr ← virt2phys dir vaddr tables; words_at pages paddr

virt2phys-no_table :
    (dir vaddr : ℕ) (mem : Blocks)
    → verify_dir dir ≡ true
    → peek dir (l1_index_get vaddr) mem ≡ done 0
    → virt2phys dir vaddr mem ≡ done none
unfolding virt2phys vmm_lookup
virt2phys-no_table dir vaddr mem aligned empty = rw (aligned, empty) refl

virt2phys-no_page :
    (dir b vaddr : ℕ) (mem : Blocks)
    → verify_dir dir ≡ true
    → b ≢ 0
    → b < 2 ^ 19
    → peek dir (l1_index_get vaddr) mem ≡ done (entry_of b)
    → peek (b * 2 ^ 13) (l2_index_get vaddr) mem ≡ done 0
    → virt2phys dir vaddr mem ≡ done none
unfolding virt2phys vmm_lookup
virt2phys-no_page dir b vaddr mem aligned ne h entry word =
    let (present, last, table) = entry_fields b ne h in
    rw (aligned, entry, present, last, table, word) refl

virt2phys-page :
    (dir b f vaddr : ℕ) (mem : Blocks)
    → verify_dir dir ≡ true
    → b ≢ 0
    → b < 2 ^ 19
    → f < 2 ^ 19
    → peek dir (l1_index_get vaddr) mem ≡ done (entry_of b)
    → peek (b * 2 ^ 13) (l2_index_get vaddr) mem ≡ done (page_entry (f * 2 ^ 13))
    → virt2phys dir vaddr mem ≡ done (some (f * 2 ^ 13 + vaddr % 2 ^ 13))
unfolding virt2phys vmm_lookup
virt2phys-page dir b f vaddr mem aligned ne h small entry word =
    let (present, last, table) = entry_fields b ne h in
    let pte : page_entry (f * 2 ^ 13) ≡ f * 2 ^ 13 + 1472 =
      page_entry_lem (f * 2 ^ 13) (omega arith) ∙ omega arith in
    let fields : pte_present_get (f * 2 ^ 13 + 1472) ≡ 1 = omega arith in
    let ends : (f * 2 ^ 13 + 1472) / 2 ^ 9 % 2 ≡ 0 = omega arith in
    let ppn : (f * 2 ^ 13 + 1472) / 2 ^ 13 ≡ f = omega arith in
    let full : ((f * 2 ^ 13 + 1472) == 0) ≡ false = ground arith in
    rw
      (
        aligned,
        entry,
        present,
        last,
        table,
        word,
        pte,
        fields,
        full,
        ends,
        ppn,
        address_lem f vaddr small,
      )
      refl

words_at-page :
    (pages : ℕ → Option (List ℕ)) (f vaddr : ℕ) (words : List ℕ)
    → load pages (f * 2 ^ 13) ≡ done words
    → words_at pages (some (f * 2 ^ 13 + vaddr % 2 ^ 13)) ≡ done (some words)
words_at-page pages f vaddr words at =
    let start : (f * 2 ^ 13 + vaddr % 2 ^ 13) / 2 ^ 13 * 2 ^ 13 ≡ f * 2 ^ 13 = omega arith in
    rw (start, at) refl

load-some :
    (pages : ℕ → Option (List ℕ)) (a : ℕ) (words : List ℕ)
    → a ≢ 0
    → pages a ≡ some words
    → load pages a ≡ done words
unfolding load
load-some pages a words ne at = ground arith

frame_address : (pte : ℕ) → IsPage pte → addr_pn_set 0 (pte_ppn_get pte) ≡ pte / 2 ^ 13 * 2 ^ 13
frame_address pte h =
    let small = page-frame pte h in
    let same : pte / 2 ^ 13 % 2 ^ 19 * 2 ^ 13 ≡ pte / 2 ^ 13 * 2 ^ 13 = omega arith in
    zero-bit_or (pte / 2 ^ 13 % 2 ^ 19 * 2 ^ 13) ∙ same

dir-nonzero : (dir : ℕ) → verify_dir dir ≡ true → dir ≢ 0
dir-nonzero dir h = ground arith

few_pages :
    (first pages total : ℕ) → pages ≤ total → first + total < 2 ^ 19 → first + pages < 2 ^ 19
few_pages first pages total h k = omega arith

-- The directory is one block.
directory :
    {dir : ℕ} {base : ℕ → ℕ} {page : ℕ → ℕ → ℕ} {mem : Blocks}
    → Maps dir base page mem
    → (words : List ℕ) × (load mem dir ≡ done words)
      × ((i : ℕ) → i < 256 → get_elem? words i ≡ some (entry_of (base i)))
unfolding peek
directory {dir} {base} {page} {mem} m =
    let (words, loaded, first) =
      >>=-eq-done (load mem dir) (λ ws. read ws 0) (m.entry 0 (omega arith)) in
    (words, loaded, λ i b. entry_at words i (entry_of (base i)) (rw loaded at (m.entry i b)))
  where
    entry_at : (words : List ℕ) (i v : ℕ) → read words i ≡ done v → get_elem? words i ≡ some v
    entry_at words i v e = ground arith

-- The new directory has no tables.
Copies-start :
    (local_dir first : ℕ) (frame base : ℕ → ℕ) (page : ℕ → ℕ → ℕ) (data_of : ℕ → ℕ → List ℕ)
    (st : CopyState)
    → local_dir ≢ 0
    → Copies local_dir first frame base page data_of 0
        (record st { tables = create_page_dir local_dir st.tables })
unfolding create_page_dir
Copies-start local_dir first frame base page data_of st ne =
    let empty : (j : ℕ)
        → j < 256
        → peek local_dir j (create_page_dir local_dir st.tables) ≡ done 0 =
      λ j h.
        peek-update local_dir j st.tables (replicate 256 0) ne (get_elem?-replicate 256 j 0 h) in
    record {
      table = λ j h. absurd (omega arith);
      no_table = λ j h e. empty j h;
      later = λ j a h. empty j h;
      word = λ j k h. absurd (omega arith);
      no_page = λ j k h. absurd (omega arith);
      words = λ j k h. absurd (omega arith);
    }

module _ {rdir : ℕ} {base : ℕ → ℕ} {page : ℕ → ℕ → ℕ} {remote : Blocks}
    (m : Maps rdir base page remote) (contents : ℕ → Option (List ℕ)) (data_of : ℕ → ℕ → List ℕ)
    (there : (i k : ℕ)
      → i < 256
      → k < 2048
      → page i k ≢ 0
      → load contents (page i k / 2 ^ 13 * 2 ^ 13) ≡ done (data_of i k))
    (local_dir first : ℕ) (frame : ℕ → ℕ) (aligned : verify_dir local_dir ≡ true)
    (nonzero : (i : ℕ) → frame i ≢ 0) (within : (i : ℕ) → frame i < 2 ^ 19)
    (apart : (j l : ℕ) → j < 256 → l < 256 → frame j ≡ frame l → j ≡ l)
    (not_dir : (i : ℕ) → frame i * 2 ^ 13 ≢ local_dir) where
  remote_words :
      (vaddr : ℕ)
      → vaddr < 2 ^ 32
      → page (l1_index_get vaddr) (l2_index_get vaddr) ≢ 0
      → page_words rdir vaddr remote contents
        ≡ done (some (data_of (l1_index_get vaddr) (l2_index_get vaddr)))
  unfolding page_words
  remote_words vaddr h full =
      let i = l1_index_get vaddr in
      let k = l2_index_get vaddr in
      let found : virt2phys rdir vaddr remote
          ≡ done (some (page i k / 2 ^ 13 * 2 ^ 13 + vaddr % 2 ^ 13)) =
        virt2phys_lem m vaddr h ∙ ground arith in
      rw found (
        words_at-page contents (page i k / 2 ^ 13) vaddr (data_of i k)
          (there i k (omega arith) (omega arith) full))

  remote_none :
      (vaddr : ℕ)
      → vaddr < 2 ^ 32
      → page (l1_index_get vaddr) (l2_index_get vaddr) ≡ 0
      → page_words rdir vaddr remote contents ≡ done none
  unfolding page_words
  remote_none vaddr h empty =
      let found : virt2phys rdir vaddr remote ≡ done none =
        virt2phys_lem m vaddr h ∙ ground arith in
      rw found refl

  -- The copied directory leads to the same words.
  same_words :
      (vaddr : ℕ) (st : CopyState)
      → vaddr < 2 ^ 32
      → first ≢ 0
      → first + before page 256 < 2 ^ 19
      → Copies local_dir first frame base page data_of 256 st
      → page_words local_dir vaddr st.tables st.pages ≡ page_words rdir vaddr remote contents
  unfolding page_words
  same_words vaddr st h positive small c =
      let i = l1_index_get vaddr in
      let k = l2_index_get vaddr in
      elim (ℕ_discrete (page i k) 0) [
        | yes e ↦ without e ∙ sym (remote_none vaddr h e)
        | no full ↦ with_page full ∙ sym (remote_words vaddr h full)
      ]
    where
      without :
          page (l1_index_get vaddr) (l2_index_get vaddr) ≡ 0
          → page_words local_dir vaddr st.tables st.pages ≡ done none
      without e =
          let i = l1_index_get vaddr in
          let k = l2_index_get vaddr in
          elim (ℕ_discrete (base i) 0) [
            | yes z ↦
                rw
                  (virt2phys-no_table local_dir vaddr st.tables aligned
                    (c.no_table i (omega arith) z))
                  refl
            | no ne ↦
                rw
                  (virt2phys-no_page local_dir (frame i) vaddr st.tables aligned (nonzero i)
                    (within i) (c.table i (omega arith) ne)
                    (c.no_page i k (omega arith) (omega arith) ne e))
                  refl
          ]

      with_page :
          page (l1_index_get vaddr) (l2_index_get vaddr) ≢ 0
          → page_words local_dir vaddr st.tables st.pages
            ≡ done (some (data_of (l1_index_get vaddr) (l2_index_get vaddr)))
      with_page full =
          let i = l1_index_get vaddr in
          let k = l2_index_get vaddr in
          let f = frame_of first page i k in
          let ne : base i ≢ 0 = λ z. full (m.no_table i k z) in
          let one = present_page (page i k) full (m.valid i k) in
          let last : f < first + before page 256 =
            frame_of-before first page 256 i k (omega arith) (omega arith) (omega arith) in
          rw
            (virt2phys-page local_dir (frame i) f vaddr st.tables aligned (nonzero i) (within i)
              (omega arith) (c.table i (omega arith) ne)
              (c.word i k (omega arith) (omega arith) ne full))
            (words_at-page st.pages f vaddr (data_of i k) (
              load-some st.pages (f * 2 ^ 13) (data_of i k) (omega arith)
                (c.words i k (omega arith) (omega arith) full)))

  -- A copied directory leads every 32-bit address to the words that the remote one leads it to, or to
  -- no page where that one does. The remote directory stands for a page map, and its pages can be read;
  -- the new tables are at page frames that are not 0 and differ from each other and from the new
  -- directory; the pool has pages enough, all from the first one on, which is not 0.
  pub dir_copy-page_words :
      (vaddr total b : ℕ) (st : CopyState)
      → vaddr < 2 ^ 32
      → first ≢ 0
      → before page 256 ≤ total
      → first + total < 2 ^ 19
      → Holds b st.pool (pages_from first total)
      → (st' : CopyState) × (dir_copy page_alloc contents remote
            (λ i. frame i * 2 ^ 13)
            local_dir
            rdir
            st
          ≡ done (local_dir, st'))
        × (page_words local_dir vaddr st'.tables st'.pages ≡ page_words rdir vaddr remote contents)
  unfolding dir_copy sum
  dir_copy-page_words vaddr total b st h positive enough small pool =
      let (words, loaded, entries) = directory m in
      let start : first + before page 0 ≡ first = omega arith in
      let (st', run, copies) =
        copy_tables_lem m contents data_of
          (λ i k p q full. rw (frame_address (page i k) (m.valid i k)) (there i k p q full))
          local_dir first frame nonzero within apart not_dir words entries 256 0 total b total
          (record st { tables = create_page_dir local_dir st.tables }) refl (omega arith) enough
          small (rw start pool)
          (Copies-start local_dir first frame base page data_of st
            (dir-nonzero local_dir aligned)) in
      (
        st',
        rw (loaded, run) refl,
        same_words vaddr st' h positive (few_pages first (before page 256) total enough small)
            copies,
      )
