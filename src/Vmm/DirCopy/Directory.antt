-- ===== src/Vmm/DirCopy/Directory.antt =====
-- The loop of `optimsoc_vmm_dir_copy` in libruntime/vmm.c over the page directory.
use optimsoc.Prelude.{
  ℕ, zero, suc, ◌+◌, ◌*◌, ◌^◌, ◌≡◌, ◌≢◌, ◌<◌, ◌≤◌, refl, sym, ap, ◌∙◌, Option, some, List, arith,
  ◌==◌, if◌then◌else◌, get_elem?, done, >>=-eq-done, read,
}
use native.Mathlib.Decide.{ℕ_discrete}
use optimsoc.Registry.{load}
use optimsoc.Runtime.Queues.{Holds}
use optimsoc.PagePool.{page_alloc}
use optimsoc.PagePool.Fill.{pages_from}
use optimsoc.Vmm.{
  Blocks, pte_present_get, pte_ppn_get, addr_pn_set, peek, table_entry, create_page_table,
}
use optimsoc.Vmm.Entry.{table_entry_lem}
use optimsoc.Vmm.Memory.{Poked, poke_lem}
use optimsoc.Vmm.Update.{Cleared, create_page_table_lem}
use optimsoc.Vmm.Pages.{Maps, entry_of, entry_fields, present_page}
use optimsoc.Vmm.DirCopy.{CopyState, copy_table, copy_tables}
use optimsoc.Vmm.DirCopy.Frames.{sum, sum_mono, rank, rank-zero, Copied}
use optimsoc.Vmm.DirCopy.Tables.{copy_entries_lem}
use optimsoc.Vmm.DirCopy.Copies.{
  before, before-step, before-suc, Copies, TableCopied, Copies-step, Copies-skip,
}

-- The words of the `i`-th remote table.
remote_table :
    {dir : ℕ} {base : ℕ → ℕ} {page : ℕ → ℕ → ℕ} {mem : Blocks} (i : ℕ)
    → Maps dir base page mem
    → i < 256
    → base i ≢ 0
    → (words : List ℕ) × (load mem (base i * 2 ^ 13) ≡ done words)
      × ((k : ℕ) → k < 2048 → get_elem? words k ≡ some (page i k))
unfolding peek
remote_table {dir} {base} {page} {mem} i m h ne =
    let (words, loaded, first) =
      >>=-eq-done (load mem (base i * 2 ^ 13)) (λ ws. read ws 0) (m.word i 0 h (omega arith) ne) in
    (words, loaded, λ k b. entry_at words k (page i k) (rw loaded at (m.word i k h b ne)))
  where
    entry_at : (words : List ℕ) (k v : ℕ) → read words k ≡ done v → get_elem? words k ≡ some v
    entry_at words k v e = ground arith

-- What the copy of one table does to the words of the local tables.
entries-TableCopied :
    {local_dir first : ℕ} {frame : ℕ → ℕ} {page : ℕ → ℕ → ℕ} {data_of : ℕ → ℕ → List ℕ} {i : ℕ}
    {mem1 mem2 : Blocks} {st st' : CopyState}
    → frame i ≢ 0
    → frame i * 2 ^ 13 ≢ local_dir
    → ((j k : ℕ) → page j k ≢ 0 → pte_present_get (page j k) ≢ 0)
    → Cleared (frame i * 2 ^ 13) st.tables mem1
    → Poked local_dir i (entry_of (frame i)) mem1 mem2
    → Copied
        (page i)
        (data_of i)
        (frame i * 2 ^ 13)
        (first + before page i)
        0
        2048
        (record st { tables = mem2 })
        st'
    → TableCopied local_dir first frame page data_of i st st'
entries-TableCopied {local_dir} {first} {frame} {page} {data_of} {i} {mem1} {mem2} {st} {st'} ne
      not_dir present clear poked c =
    record {
      table = c.other local_dir i (λ e. not_dir (sym e)) ∙ ground (arith, poked.word local_dir i);
      table_other = λ j n.
          c.other local_dir j (λ e. not_dir (sym e))
          ∙ ground (arith, poked.word local_dir j)
          ∙ clear.word local_dir j (λ e. not_dir (sym e));
      other = λ b k n f. c.other b k f ∙ ground (arith, poked.word b k) ∙ clear.word b k f;
      word = λ k h full. c.entry k (omega arith) h (present i k full);
      no_page = λ k h empty.
          c.no_page k (omega arith) h (rw empty refl)
          ∙ ground (arith, poked.word (frame i * 2 ^ 13) k)
          ∙ clear.zero_word k h;
      words = λ k h full. c.words k (omega arith) h (present i k full);
      frames = λ q h. c.frames q (omega arith);
    }

-- The pages that are left are enough for a table.
room : (r t b n e total : ℕ) → r ≤ t → b + t ≤ e → e ≤ total → b + n ≡ total → r ≤ n
room r t b n e total h k l m = omega arith

add_zero : (b : ℕ) → b + 0 ≡ b
add_zero b = omega arith

taken : (b r n n' total : ℕ) → b + n ≡ total → r + n' ≡ n → b + r + n' ≡ total
taken b r n n' total h k = omega arith

add_assoc : (a b c : ℕ) → a + b + c ≡ a + (b + c)
add_assoc a b c = omega arith

below : (a b n total : ℕ) → b + n ≡ total → a + total < 2 ^ 19 → a + b + n < 2 ^ 19
below a b n total h k = omega arith

-- Two tiles: the remote directory stands for a page map and its pages can be read; the local tables come
-- at the page frames `frame`, which differ from each other and from the directory.
module _ {rdir : ℕ} {base : ℕ → ℕ} {page : ℕ → ℕ → ℕ} {remote : Blocks}
    (m : Maps rdir base page remote) (contents : ℕ → Option (List ℕ)) (data_of : ℕ → ℕ → List ℕ)
    (there : (i k : ℕ)
      → i < 256
      → k < 2048
      → page i k ≢ 0
      → load contents (addr_pn_set 0 (pte_ppn_get (page i k))) ≡ done (data_of i k))
    (local_dir first : ℕ) (frame : ℕ → ℕ) (nonzero : (i : ℕ) → frame i ≢ 0)
    (within : (i : ℕ) → frame i < 2 ^ 19)
    (apart : (j l : ℕ) → j < 256 → l < 256 → frame j ≡ frame l → j ≡ l)
    (not_dir : (i : ℕ) → frame i * 2 ^ 13 ≢ local_dir) where
  present : (j k : ℕ) → page j k ≢ 0 → pte_present_get (page j k) ≢ 0
  present j k full e = let one = present_page (page j k) full (m.valid j k) in omega arith

  some_page : (j k : ℕ) → pte_present_get (page j k) ≢ 0 → page j k ≢ 0
  some_page j k h e = h (rw e refl)

  new_entry : (i : ℕ) → table_entry 0 (frame i * 2 ^ 13) ≡ entry_of (frame i)
  new_entry i = ground (arith, table_entry_lem (frame i) (within i), nonzero i)

  copy_table_lem :
      (i n b : ℕ) (st : CopyState)
      → i < 256
      → base i ≢ 0
      → ((j : ℕ) → j ≤ 2048 → rank (page i) j ≤ n)
      → first + before page i + n < 2 ^ 19
      → Holds b st.pool (pages_from (first + before page i) n)
      → peek local_dir i st.tables ≡ done 0
      → (st' : CopyState) × (b' : ℕ) × (n' : ℕ) × (copy_table page_alloc contents remote
            (frame i * 2 ^ 13)
            local_dir
            i
            (entry_of (base i))
            st
          ≡ done st')
        × (rank (page i) 2048 + n' ≡ n)
        × Holds b' st'.pool (pages_from (first + before page i + rank (page i) 2048) n')
        × TableCopied local_dir first frame page data_of i st st'
  unfolding copy_table sum
  copy_table_lem i n b st h ne enough small pool empty =
      let fresh = frame i * 2 ^ 13 in
      let start : first + before page i + rank (page i) 0 ≡ first + before page i = omega arith in
      let (words, loaded, entries) = remote_table i m h ne in
      let (_, _, at_table) = entry_fields (base i) ne (m.frame i) in
      let clear = create_page_table_lem fresh st.tables (let z = nonzero i in omega arith) in
      let (mem2, run, poked) =
        poke_lem local_dir i (create_page_table fresh st.tables) (entry_of (frame i))
          (clear.word local_dir i (λ e. not_dir i (sym e)) ∙ empty) in
      let (st', b', n', copied_run, left, pool', copied) =
        copy_entries_lem contents fresh (first + before page i) n words (page i) (data_of i) entries
          (λ k c full. there i k h c (some_page i k full)) enough small 2048 0 n b (λ k. 0)
          (record st { tables = mem2 }) refl (omega arith) (rw start pool)
          (λ k a c. ground (arith, poked.word fresh k, not_dir i) ∙ clear.zero_word k c) in
      (
        st',
        b',
        n',
        rw (new_entry i, run, at_table, loaded) copied_run,
        left,
        pool',
        entries-TableCopied (nonzero i) (not_dir i) present clear poked copied,
      )

  copy_dir_entry_lem :
      (i n b total : ℕ) (st : CopyState)
      → i < 256
      → before page i + n ≡ total
      → before page 256 ≤ total
      → first + total < 2 ^ 19
      → Holds b st.pool (pages_from (first + before page i) n)
      → Copies local_dir first frame base page data_of i st
      → (st' : CopyState) × (b' : ℕ) × (n' : ℕ) × ((if pte_present_get (entry_of (base i)) == 1
            then copy_table page_alloc contents remote
                (frame i * 2 ^ 13)
                local_dir
                i
                (entry_of (base i))
                st
            else done st)
          ≡ done st')
        × (before page (suc i) + n' ≡ total)
        × Holds b' st'.pool (pages_from (first + before page (suc i)) n')
        × Copies local_dir first frame base page data_of (suc i) st'
  copy_dir_entry_lem i n b total st h left all small pool c = elim (ℕ_discrete (base i) 0) [
    | yes e ↦
        let none : (k : ℕ) → page i k ≡ 0 = λ k. m.no_table i k e in
        let same : before page (suc i) ≡ before page i =
          before-suc page i
          ∙ ap (λ r. before page i + r) (rank-zero (page i) 2048 none)
          ∙ add_zero (before page i) in
        (st, b, n, rw e refl, rw same left, rw same pool, Copies-skip none e c)
    | no ne ↦
        let enough : (j : ℕ) → j ≤ 2048 → rank (page i) j ≤ n = λ j l.
          room (rank (page i) j) (rank (page i) 2048) (before page i) n (before page 256) total
            (sum_mono (λ k. pte_present_get (page i k)) j 2048 l) (before-step page 256 i h) all
            left in
        let (st', b', n', run, left', pool', copied) =
          copy_table_lem i n b st h ne enough (below first (before page i) n total left small) pool
            (c.later i (omega arith) h) in
        let (one, _, _) = entry_fields (base i) ne (m.frame i) in
        (
          st',
          b',
          n',
          rw one run,
          ap (λ r. r + n') (before-suc page i)
              ∙ taken (before page i) (rank (page i) 2048) n n' total left left',
          rw (before-suc page i, ← add_assoc first (before page i) (rank (page i) 2048)) pool',
          Copies-step present apart h not_dir ne c copied,
        )
  ]

  pub copy_tables_lem :
      (remote_dir : List ℕ)
      → ((i : ℕ) → i < 256 → get_elem? remote_dir i ≡ some (entry_of (base i)))
      → (k i n b total : ℕ) (st : CopyState) → i + k ≡ 256
      → before page i + n ≡ total
      → before page 256 ≤ total
      → first + total < 2 ^ 19
      → Holds b st.pool (pages_from (first + before page i) n)
      → Copies local_dir first frame base page data_of i st
      → (st' : CopyState) × (copy_tables page_alloc contents remote
            (λ j. frame j * 2 ^ 13)
            local_dir
            i
            k
            remote_dir
            st
          ≡ done st')
        × Copies local_dir first frame base page data_of 256 st'
  unfolding copy_tables
  copy_tables_lem remote_dir entries zero i n b total st bound left all small pool c =
      let end : i ≡ 256 = omega arith in (st, refl, rw (← end) c)
  copy_tables_lem remote_dir entries (suc k) i n b total st bound left all small pool c =
      let h : i < 256 = omega arith in
      let (st1, b1, n1, run1, left1, pool1, c1) =
        copy_dir_entry_lem i n b total st h left all small pool c in
      let (st2, run2, c2) =
        copy_tables_lem remote_dir entries k (suc i) n1 b1 total st1 (omega arith) left1 all small
          pool1 c1 in
      (st2, rw (entries i h, run1) run2, c2)
