-- ===== src/Tests/Copies.antt =====
-- The copy of a page directory with one page.
use optimsoc.Prelude.{
  ℕ, zero, suc, ◌+◌, ◌*◌, ◌/◌, ◌%◌, ◌^◌, ◌≡◌, ◌≢◌, ◌≤◌, refl, ◌&&◌, Bool, true, false, Option, some,
  List, [], ◌∷◌, arith, ◌==◌, if◌then◌else◌, done,
}
use native.Mathlib.Decide.{ℕ_discrete}
use optimsoc.Registry.{load, update}
use optimsoc.PagePool.{page_alloc}
use optimsoc.Tests.Pages.{nothing, mem1, mem1-Maps, vaddr, paddr}
use optimsoc.Tests.Threads.{one_queue, one_queue-Holds}
use optimsoc.Vmm.{pte_present_get}
use optimsoc.Vmm.Pages.{at_page}
use optimsoc.Vmm.Update.{mapped}
use optimsoc.Vmm.DirCopy.{CopyState, dir_copy}
use optimsoc.Vmm.DirCopy.Frames.{sum, rank, rank-zero}
use optimsoc.Vmm.DirCopy.Copies.{before}
use optimsoc.Vmm.DirCopy.Words.{page_words, dir_copy-page_words}

-- A sum with one term that may be not 0.
sum-none : (f : ℕ → ℕ) (i n : ℕ) → n ≤ i → ((j : ℕ) → j ≢ i → f j ≡ 0) → sum f n ≡ 0
unfolding sum
sum-none f i zero h others = refl
sum-none f i (suc n) h others =
    let here = others n (omega arith) in
    let rest = sum-none f i n (omega arith) others in omega arith

sum-single : (f : ℕ → ℕ) (i c n : ℕ) → ((j : ℕ) → j ≢ i → f j ≡ 0) → f i ≤ c → sum f n ≤ c
unfolding sum
sum-single f i c zero others h = omega arith
sum-single f i c (suc n) others h = elim (ℕ_discrete n i) [
  | yes e ↦
      let none = sum-none f i n (omega arith) others in let last : f n ≤ c = rw e h in omega arith
  | no ne ↦ let here = others n ne in let rest = sum-single f i c n others h in omega arith
]

abbrev one_page_map : ℕ → ℕ → ℕ
one_page_map = at_page (λ _ _. 0) 0x12 0x1a2 (mapped 0 paddr)

one_page_rank : (i : ℕ) → rank (one_page_map i) 2048 ≤ 1
one_page_rank i =
    sum-single (λ k. pte_present_get (one_page_map i k)) 0x1a2 1 2048 (λ j ne. ground arith)
      (omega arith)

one_page_before : before one_page_map 256 ≤ 1
one_page_before =
    sum-single (λ i. rank (one_page_map i) 2048) 0x12 1 256
      (λ j ne. rank-zero (one_page_map j) 2048 (λ k. ground arith)) (one_page_rank 0x12)

abbrev contents : ℕ → Option (List ℕ)
contents = update nothing 0xabc000 (some (10 ∷ 20 ∷ []))

contents-there :
    (b : Bool)
    → (if b then mapped 0 paddr else 0) ≢ 0
    → load contents ((if b then mapped 0 paddr else 0) / 2 ^ 13 * 2 ^ 13) ≡ done (10 ∷ 20 ∷ [])
unfolding load update
contents-there true ne = refl
contents-there false ne = absurd (ne refl)

abbrev empty_tile : CopyState
empty_tile = record { tables = nothing; pool = one_queue 16 5; pages = nothing }

dir_copy-page_words_example :
    (st' : CopyState) × (dir_copy page_alloc contents mem1
        (λ i. (2 + i % 256) * 2 ^ 13)
        1024
        1024
        empty_tile
      ≡ done (1024, st'))
    × (page_words 1024 (vaddr + 4) st'.tables st'.pages ≡ page_words 1024 (vaddr + 4) mem1 contents)
dir_copy-page_words_example =
    dir_copy-page_words mem1-Maps contents (λ _ _. 10 ∷ 20 ∷ [])
      (λ i k h b full. contents-there ((i == 0x12) && (k == 0x1a2)) full) 1024 5 (λ i. 2 + i % 256)
      refl (λ i. omega arith) (λ i. omega arith) (λ j l h b e. omega arith) (λ i. omega arith)
      (vaddr + 4) 1 0 empty_tile (omega arith) (omega arith) one_page_before (omega arith)
      (one_queue-Holds 16 5 (omega arith))
