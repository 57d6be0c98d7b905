-- ===== src/Vmm/DirCopy/Copies.antt =====
-- How far the loop of `optimsoc_vmm_dir_copy` in libruntime/vmm.c over the page directory has come.
use optimsoc.Prelude.{
  ℕ, suc, ◌+◌, ◌*◌, ◌^◌, ◌≡◌, ◌≢◌, ◌<◌, ◌≤◌, refl, sym, ap, ◌∙◌, some, List, arith, done,
}
use native.Mathlib.Decide.{ℕ_discrete}
use optimsoc.Vmm.{pte_present_get, peek, page_entry}
use optimsoc.Vmm.Pages.{entry_of}
use optimsoc.Vmm.DirCopy.{CopyState}
use optimsoc.Vmm.DirCopy.Frames.{sum, sum_mono, rank}

-- The number of pages in the tables before the `i`-th.
abbrev pub before : (page : ℕ → ℕ → ℕ) → ℕ → ℕ
before page = sum (λ i. rank (page i) 2048)

-- The local page that the page of entry `k` in table `i` is copied to.
abbrev pub frame_of : (first : ℕ) (page : ℕ → ℕ → ℕ) (i k : ℕ) → ℕ
frame_of first page i k = first + before page i + rank (page i) k

-- The tables before the `i`-th are copied, to the page frames `frame`, and their pages from `first` on.
pub record Copies (local_dir first : ℕ) (frame base : ℕ → ℕ) (page : ℕ → ℕ → ℕ)
    (data_of : ℕ → ℕ → List ℕ) (i : ℕ) (st : CopyState) : Type 0 where
  pub table : (j : ℕ) → j < i → base j ≢ 0 → peek local_dir j st.tables ≡ done (entry_of (frame j))
  pub no_table : (j : ℕ) → j < 256 → base j ≡ 0 → peek local_dir j st.tables ≡ done 0
  pub later : (j : ℕ) → i ≤ j → j < 256 → peek local_dir j st.tables ≡ done 0
  pub word :
      (j k : ℕ)
      → j < i
      → k < 2048
      → base j ≢ 0
      → page j k ≢ 0
      → peek (frame j * 2 ^ 13) k st.tables ≡ done (page_entry (frame_of first page j k * 2 ^ 13))
  pub no_page :
      (j k : ℕ)
      → j < i
      → k < 2048
      → base j ≢ 0
      → page j k ≡ 0
      → peek (frame j * 2 ^ 13) k st.tables ≡ done 0
  pub words :
      (j k : ℕ)
      → j < i
      → k < 2048
      → page j k ≢ 0
      → st.pages (frame_of first page j k * 2 ^ 13) ≡ some (data_of j k)

-- The `i`-th table is copied.
pub record TableCopied (local_dir first : ℕ) (frame : ℕ → ℕ) (page : ℕ → ℕ → ℕ)
    (data_of : ℕ → ℕ → List ℕ) (i : ℕ) (st st' : CopyState) : Type 0 where
  pub table : peek local_dir i st'.tables ≡ done (entry_of (frame i))
  pub table_other : (j : ℕ) → j ≢ i → peek local_dir j st'.tables ≡ peek local_dir j st.tables
  pub other :
      (b k : ℕ) → b ≢ local_dir → b ≢ frame i * 2 ^ 13 → peek b k st'.tables ≡ peek b k st.tables
  pub word :
      (k : ℕ)
      → k < 2048
      → page i k ≢ 0
      → peek (frame i * 2 ^ 13) k st'.tables ≡ done (page_entry (frame_of first page i k * 2 ^ 13))
  pub no_page : (k : ℕ) → k < 2048 → page i k ≡ 0 → peek (frame i * 2 ^ 13) k st'.tables ≡ done 0
  pub words :
      (k : ℕ)
      → k < 2048
      → page i k ≢ 0
      → st'.pages (frame_of first page i k * 2 ^ 13) ≡ some (data_of i k)
  pub frames : (q : ℕ) → q < first + before page i → st'.pages (q * 2 ^ 13) ≡ st.pages (q * 2 ^ 13)

-- A page of an earlier table is before the pages of the table.
rank-below : (pte : ℕ → ℕ) (k n : ℕ) → k < n → pte_present_get (pte k) ≢ 0 → rank pte k < rank pte n
unfolding sum
rank-below pte k n h full =
    let up : rank pte k + pte_present_get (pte k) ≤ rank pte n =
      sum_mono (λ l. pte_present_get (pte l)) (suc k) n h in
    omega arith

pub before-suc :
    (page : ℕ → ℕ → ℕ) (i : ℕ) → before page (suc i) ≡ before page i + rank (page i) 2048
unfolding sum
before-suc page i = refl

add_lt : (a b c d e : ℕ) → c < d → b + d ≤ e → a + b + c < a + e
add_lt a b c d e h k = omega arith

pub before-step :
    (page : ℕ → ℕ → ℕ) (i j : ℕ) → j < i → before page j + rank (page j) 2048 ≤ before page i
unfolding sum
before-step page i j h = sum_mono (λ l. rank (page l) 2048) (suc j) i h

pub frame_of-before :
    (first : ℕ) (page : ℕ → ℕ → ℕ) (i j k : ℕ)
    → j < i
    → k < 2048
    → pte_present_get (page j k) ≢ 0
    → frame_of first page j k < first + before page i
frame_of-before first page i j k h within full =
    add_lt first (before page j) (rank (page j) k) (rank (page j) 2048) (before page i)
      (rank-below (page j) k 2048 within full) (before-step page i j h)

-- After one more table.
pub Copies-step :
    {local_dir first : ℕ} {frame base : ℕ → ℕ} {page : ℕ → ℕ → ℕ} {data_of : ℕ → ℕ → List ℕ} {i : ℕ}
    {st st' : CopyState}
    → ((j k : ℕ) → page j k ≢ 0 → pte_present_get (page j k) ≢ 0)
    → ((j l : ℕ) → j < 256 → l < 256 → frame j ≡ frame l → j ≡ l)
    → i < 256
    → ((j : ℕ) → frame j * 2 ^ 13 ≢ local_dir)
    → base i ≢ 0
    → Copies local_dir first frame base page data_of i st
    → TableCopied local_dir first frame page data_of i st st'
    → Copies local_dir first frame base page data_of (suc i) st'
Copies-step {local_dir} {first} {frame} {base} {page} {data_of} {i} {st} {st'} present apart below
      not_dir ne c t =
    let differ : (j : ℕ) → j < suc i → j ≢ i → frame j * 2 ^ 13 ≢ frame i * 2 ^ 13 =
      λ j h n e. n (apart j i (omega arith) below (omega arith)) in
    record {
      table = λ j h full. elim (ℕ_discrete j i) [
        | yes e ↦ rw e t.table
        | no n ↦ t.table_other j n ∙ c.table j (omega arith) full
      ];
      no_table =
          λ j h empty. t.table_other j (λ e. ne (ap base (sym e) ∙ empty)) ∙ c.no_table j h empty;
      later = λ j h b. t.table_other j (omega arith) ∙ c.later j (omega arith) b;
      word = λ j k h b f full. elim (ℕ_discrete j i) [
        | yes e ↦ rw e (t.word k b (λ z. full (ap (λ l. page l k) e ∙ z)))
        | no n ↦
            t.other (frame j * 2 ^ 13) k (not_dir j) (differ j h n)
            ∙ c.word j k (omega arith) b f full
      ];
      no_page = λ j k h b f empty. elim (ℕ_discrete j i) [
        | yes e ↦ rw e (t.no_page k b (ap (λ l. page l k) (sym e) ∙ empty))
        | no n ↦
            t.other (frame j * 2 ^ 13) k (not_dir j) (differ j h n)
            ∙ c.no_page j k (omega arith) b f empty
      ];
      words = λ j k h b full. elim (ℕ_discrete j i) [
        | yes e ↦ rw e (t.words k b (λ z. full (ap (λ l. page l k) e ∙ z)))
        | no n ↦
            t.frames (frame_of first page j k)
              (frame_of-before first page i j k (omega arith) b (present j k full))
            ∙ c.words j k (omega arith) b full
      ];
    }

-- An entry without a table.
pub Copies-skip :
    {local_dir first : ℕ} {frame base : ℕ → ℕ} {page : ℕ → ℕ → ℕ} {data_of : ℕ → ℕ → List ℕ} {i : ℕ}
    {st : CopyState}
    → ((k : ℕ) → page i k ≡ 0)
    → base i ≡ 0
    → Copies local_dir first frame base page data_of i st
    → Copies local_dir first frame base page data_of (suc i) st
Copies-skip {local_dir} {first} {frame} {base} {page} {data_of} {i} {st} empty none c =
    let earlier : (j : ℕ) → j < suc i → j ≢ i → j < i = λ j h n. omega arith in
    record {
      table = λ j h full. c.table j (earlier j h (λ e. full (ap base e ∙ none))) full;
      no_table = c.no_table;
      later = λ j h b. c.later j (omega arith) b;
      word = λ j k h b f full. c.word j k (earlier j h (λ e. f (ap base e ∙ none))) b f full;
      no_page = λ j k h b f z. c.no_page j k (earlier j h (λ e. f (ap base e ∙ none))) b f z;
      words = λ j k h b full.
          c.words j k (earlier j h (λ e. full (ap (λ l. page l k) e ∙ empty k))) b full;
    }
