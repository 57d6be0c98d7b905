-- ===== src/Vmm/DirCopy/Frames.antt =====
-- Which local page each remote page is copied to, in `optimsoc_vmm_dir_copy` of libruntime/vmm.c with
-- the pool of gzll-kernel/src/page.c.
use optimsoc.Prelude.{
  ℕ, zero, suc, ◌+◌, ◌*◌, ◌^◌, ◌≡◌, ◌≢◌, ◌<◌, ◌≤◌, refl, ap, ◌∙◌, some, List, arith, done,
}
use native.Mathlib.Decide.{ℕ_discrete}
use optimsoc.Vmm.{pte_present_get, peek, page_entry}
use optimsoc.Vmm.DirCopy.{CopyState}

-- `f 0 + ... + f (n - 1)`
unfoldable pub sum : (f : ℕ → ℕ) → ℕ → ℕ
sum f zero = 0
sum f (suc n) = sum f n + f n

pub sum_mono : (f : ℕ → ℕ) (m n : ℕ) → m ≤ n → sum f m ≤ sum f n
unfolding sum
sum_mono f m zero h = let e : m ≡ 0 = omega arith in rw e (omega arith)
sum_mono f m (suc n) h = elim (ℕ_discrete m (suc n)) [
  | yes e ↦ rw e (omega arith)
  | no ne ↦ let below = sum_mono f m n (omega arith) in omega arith
]

-- The number of pages in the table before the entry `j`.
abbrev pub rank : (pte : ℕ → ℕ) → ℕ → ℕ
rank pte = sum (λ j. pte_present_get (pte j))

pub rank-zero : (pte : ℕ → ℕ) (n : ℕ) → ((j : ℕ) → pte j ≡ 0) → rank pte n ≡ 0
unfolding sum
rank-zero pte zero empty = refl
rank-zero pte (suc n) empty = rw (empty n, rank-zero pte n empty) refl

-- The pages of the entries from `s` up to `s + n` are in the local pages from `first` on, in their
-- order, and all else is as before.
pub record Copied (pte : ℕ → ℕ) (data_of : ℕ → List ℕ) (table first s n : ℕ) (st st' : CopyState)
    : Type 0 where
  pub entry :
      (j : ℕ)
      → s ≤ j
      → j < s + n
      → pte_present_get (pte j) ≢ 0
      → peek table j st'.tables ≡ done (page_entry ((first + rank pte j) * 2 ^ 13))
  pub words :
      (j : ℕ)
      → s ≤ j
      → j < s + n
      → pte_present_get (pte j) ≢ 0
      → st'.pages ((first + rank pte j) * 2 ^ 13) ≡ some (data_of j)
  pub no_page :
      (j : ℕ)
      → s ≤ j
      → j < s + n
      → pte_present_get (pte j) ≡ 0
      → peek table j st'.tables ≡ peek table j st.tables
  pub before : (j : ℕ) → j < s → peek table j st'.tables ≡ peek table j st.tables
  pub behind : (j : ℕ) → s + n ≤ j → peek table j st'.tables ≡ peek table j st.tables
  pub other : (b k : ℕ) → b ≢ table → peek b k st'.tables ≡ peek b k st.tables
  pub frames : (q : ℕ) → q < first + rank pte s → st'.pages (q * 2 ^ 13) ≡ st.pages (q * 2 ^ 13)

module _ {pte : ℕ → ℕ} {data_of : ℕ → List ℕ} {table first : ℕ} where
  -- No entry, or one without a page.
  pub Copied-none : (s : ℕ) (st : CopyState) → Copied pte data_of table first s 0 st st
  Copied-none s st = record {
    entry = λ j a b. absurd (omega arith);
    words = λ j a b. absurd (omega arith);
    no_page = λ j a b c. refl;
    before = λ j a. refl;
    behind = λ j a. refl;
    other = λ b k a. refl;
    frames = λ q a. refl;
  }

  pub Copied-skip :
      (s : ℕ) (st : CopyState)
      → pte_present_get (pte s) ≡ 0
      → Copied pte data_of table first s 1 st st
  Copied-skip s st empty = record {
    entry = λ j a b c.
        let e : j ≡ s = omega arith in absurd (c (ap (λ i. pte_present_get (pte i)) e ∙ empty));
    words = λ j a b c.
        let e : j ≡ s = omega arith in absurd (c (ap (λ i. pte_present_get (pte i)) e ∙ empty));
    no_page = λ j a b c. refl;
    before = λ j a. refl;
    behind = λ j a. refl;
    other = λ b k a. refl;
    frames = λ q a. refl;
  }

  -- One entry after another.
  pub Copied-step :
      {s n : ℕ} {st st1 st2 : CopyState}
      → Copied pte data_of table first s 1 st st1
      → Copied pte data_of table first (suc s) n st1 st2
      → Copied pte data_of table first s (suc n) st st2
  unfolding sum
  Copied-step {s} {n} {st} {st1} {st2} c d = record {
    entry = λ j a b full. elim (ℕ_discrete j s) [
      | yes e ↦ d.before j (omega arith) ∙ c.entry j a (omega arith) full
      | no ne ↦ d.entry j (omega arith) (omega arith) full
    ];
    words = λ j a b full. elim (ℕ_discrete j s) [
      | yes e ↦
          let same : rank pte (suc j) ≡ rank pte (suc s) = ap (λ i. rank pte (suc i)) e in
          d.frames (first + rank pte j) (omega arith) ∙ c.words j a (omega arith) full
      | no ne ↦ d.words j (omega arith) (omega arith) full
    ];
    no_page = λ j a b empty. elim (ℕ_discrete j s) [
      | yes e ↦ d.before j (omega arith) ∙ c.no_page j a (omega arith) empty
      | no ne ↦ d.no_page j (omega arith) (omega arith) empty ∙ c.behind j (omega arith)
    ];
    before = λ j a. d.before j (omega arith) ∙ c.before j a;
    behind = λ j a. d.behind j (omega arith) ∙ c.behind j (omega arith);
    other = λ b k ne. d.other b k ne ∙ c.other b k ne;
    frames = λ q h. d.frames q (omega arith) ∙ c.frames q h;
  }
