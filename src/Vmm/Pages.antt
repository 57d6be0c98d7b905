-- ===== src/Vmm/Pages.antt =====
-- The page map that a directory stands for, and what the operations do to it.
use optimsoc.Prelude.{
  if-done, ℕ, ◌+◌, ◌*◌, ◌/◌, ◌%◌, ◌^◌, ◌≡◌, ◌≢◌, ◌<◌, ◌⊎◌, ◌&&◌, Bool, true, false, none, some,
  arith, ◌==◌, if◌then◌else◌, done,
}
use native.Mathlib.Decide.{ℕ_discrete}
use optimsoc.Vmm.{
  Blocks, verify_dir, l1_index_get, l2_index_get, ptable, pte_present_get, pte_last_get, peek,
  vmm_lookup, virt2phys,
}
use optimsoc.Vmm.Entry.{address_lem}

-- No page, or a page with all accesses at a 32-bit address.
abbrev pub IsPage : ℕ → Type 0
IsPage pte = (pte ≡ 0) ⊎ ((pte % 2 ^ 13 ≡ 1472) × (pte < 2 ^ 32))

pub IsPage-if : (b : Bool) {w v : ℕ} → IsPage w → IsPage v → IsPage (if b then w else v)
IsPage-if true w v = w
IsPage-if false w v = v

-- The directory entry of the table at page frame `base`, with 0 for no table.
abbrev pub entry_of : ℕ → ℕ
entry_of base = if base == 0 then 0 else base * 2 ^ 13 + 2 ^ 10

-- In the memory, the directory at `dir` has its `i`-th table at page frame `base i`, and the table
-- entry for the index pair `(i, k)` is `page i k`.
pub record Maps (dir : ℕ) (base : ℕ → ℕ) (page : ℕ → ℕ → ℕ) (mem : Blocks) : Type 0 where
  pub aligned : verify_dir dir ≡ true
  pub entry : (i : ℕ) → i < 256 → peek dir i mem ≡ done (entry_of (base i))
  pub frame : (i : ℕ) → base i < 2 ^ 19
  pub word :
      (i k : ℕ) → i < 256 → k < 2048 → base i ≢ 0 → peek (base i * 2 ^ 13) k mem ≡ done (page i k)
  pub no_table : (i k : ℕ) → base i ≡ 0 → page i k ≡ 0
  pub valid : (i k : ℕ) → IsPage (page i k)
  pub apart : (i j : ℕ) → base i ≢ 0 → base i ≡ base j → i ≡ j
  pub not_dir : (i : ℕ) → base i * 2 ^ 13 ≢ dir

-- The page map with another entry at `(i, k)`.
abbrev pub at_page : (page : ℕ → ℕ → ℕ) (i k w : ℕ) → ℕ → ℕ → ℕ
at_page page i k w j l = if (j == i) && (l == k) then w else page j l

-- The fields of a directory entry.
pub entry_fields :
    (b : ℕ)
    → b ≢ 0
    → b < 2 ^ 19
    → (pte_present_get (entry_of b) ≡ 1)
      × (pte_last_get (entry_of b) ≡ 0)
      × (ptable (entry_of b) ≡ b * 2 ^ 13)
entry_fields b ne h = (ground arith, ground arith, ground arith)

-- The fields of an entry for a page.
pub page_fields : (pte : ℕ) → IsPage pte → pte_last_get pte ≡ 0
page_fields pte h = ground arith

pub present_page : (pte : ℕ) → pte ≢ 0 → IsPage pte → pte_present_get pte ≡ 1
present_page pte full h = ground arith

pub page-present : (pte : ℕ) → IsPage pte → (if pte_present_get pte == 0 then 0 else pte) ≡ pte
page-present pte h = ground arith

pub page-frame : (pte : ℕ) → IsPage pte → pte / 2 ^ 13 < 2 ^ 19
page-frame pte h = ground arith

module _ {dir : ℕ} {base : ℕ → ℕ} {page : ℕ → ℕ → ℕ} {mem : Blocks} (m : Maps dir base page mem)
    (vaddr : ℕ) (h : vaddr < 2 ^ 32) where
  -- In a directory that stands for a page map the lookup of a 32-bit address returns the entry that
  -- the page map has for it.
  pub lookup_lem : vmm_lookup dir vaddr mem ≡ done (page (l1_index_get vaddr) (l2_index_get vaddr))
  unfolding vmm_lookup
  lookup_lem =
      let i = l1_index_get vaddr in
      let k = l2_index_get vaddr in
      elim (ℕ_discrete (base i) 0) [
        | yes e ↦ rw (m.aligned, m.entry i (omega arith), e, m.no_table i k e)
        | no ne ↦
            let (present, last, table) = entry_fields (base i) ne (m.frame i) in
            rw (
              m.aligned,
              m.entry i (omega arith),
              present,
              last,
              table,
              m.word i k (omega arith) (omega arith) ne,
              page-present (page i k) (m.valid i k),
            )
      ]

  -- Translation adds the offset to the page frame of a mapped page, and reports any other.
  pub virt2phys_lem :
      virt2phys dir vaddr mem
      ≡ done (
          let pte = page (l1_index_get vaddr) (l2_index_get vaddr) in
          if pte == 0 then none else some (pte / 2 ^ 13 * 2 ^ 13 + vaddr % 2 ^ 13))
  unfolding virt2phys
  virt2phys_lem =
      let i = l1_index_get vaddr in
      let k = l2_index_get vaddr in
      rw
        (
          m.aligned,
          lookup_lem,
          page_fields (page i k) (m.valid i k),
          address_lem (page i k / 2 ^ 13) vaddr (page-frame (page i k) (m.valid i k)),
        )
        (if-done (page i k == 0) none (some (page i k / 2 ^ 13 * 2 ^ 13 + vaddr % 2 ^ 13)))
