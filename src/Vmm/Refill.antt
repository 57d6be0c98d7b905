-- ===== src/Vmm/Refill.antt =====
-- The translation buffers agree with the page tables: the exception handlers of libruntime/vmm.c.
use optimsoc.Prelude.{
  ℕ, ◌+◌, ◌*◌, ◌/◌, ◌%◌, ◌^◌, ◌≡◌, ◌<◌, refl, ap, ◌∙◌, sym, inl, inr, true, false, ◌&&◌, Option,
  none, some, ◌==◌, if◌then◌else◌, arith, done, Bool-cases,
}
use optimsoc.Registry.{update}
use optimsoc.Runtime.{Runtime}
use optimsoc.Runtime.Threads.{thread_get_pagedir_current}
use optimsoc.Vmm.{Blocks, l1_index_get, l2_index_get, virt2phys}
use optimsoc.Vmm.Pages.{Maps, lookup_lem, virt2phys_lem}
use optimsoc.Vmm.Tlb.{
  DtlbEntry, Mmu, refilled, page_fault, tlb_index, set_dtlb, dpage_fault, dtlb_miss,
}

-- What the data unit makes of an address, by the entry at its index: the page frame with the offset in
-- the page, where the entry is for that page.
abbrev pub entry_translates : Option DtlbEntry → (vaddr : ℕ) → Option ℕ
entry_translates none vaddr = none
entry_translates (some e) vaddr =
    if e.valid && (e.vpn == vaddr / 2 ^ 13) then some (e.ppn * 2 ^ 13 + vaddr % 2 ^ 13) else none

abbrev pub dtlb_translates : Mmu → (vaddr : ℕ) → Option ℕ
dtlb_translates m vaddr = entry_translates (m.dtlb (tlb_index vaddr)) vaddr

-- Two addresses of one page have the same place in the tables.
same_indices :
    (v vaddr : ℕ)
    → v / 2 ^ 13 ≡ vaddr / 2 ^ 13
    → (l1_index_get v ≡ l1_index_get vaddr) × (l2_index_get v ≡ l2_index_get vaddr)
same_indices v vaddr same =
    let high : v / 2 ^ 24 ≡ v / 2 ^ 13 / 2 ^ 11 = omega arith in
    let high' : vaddr / 2 ^ 24 ≡ vaddr / 2 ^ 13 / 2 ^ 11 = omega arith in
    (high ∙ ap (λ p. p / 2 ^ 11) same ∙ sym high', ap (λ p. p % 2 ^ 11) same)

set_dtlb-translates :
    (m : Mmu) (v vaddr pte : ℕ)
    → v / 2 ^ 13 ≡ vaddr / 2 ^ 13
    → dtlb_translates (set_dtlb vaddr pte m) v ≡ some (pte / 2 ^ 13 * 2 ^ 13 + v % 2 ^ 13)
unfolding set_dtlb update
set_dtlb-translates m v vaddr pte same =
    let index : tlb_index v ≡ tlb_index vaddr = ap (λ i. i % 2 ^ 6) (same_indices v vaddr same).1 in
    let hit : (tlb_index v == tlb_index vaddr) ≡ true = ground (arith, index) in
    let match_page : (vaddr / 2 ^ 13 == v / 2 ^ 13) ≡ true = ground (arith, same) in
    rw (hit, match_page) refl

module _ {dir : ℕ} {base : ℕ → ℕ} {page : ℕ → ℕ → ℕ} {mem : Blocks} (maps : Maps dir base page mem)
    (vaddr : ℕ) (h : vaddr < 2 ^ 32) (s : Runtime) (c : ℕ)
    (current : thread_get_pagedir_current c s ≡ done dir) where
  -- After a miss of the data unit on a 32-bit address that the directory of the running thread maps, the
  -- unit translates every address of its page as the page tables do. The directory stands for a page
  -- map.
  pub dtlb_miss-virt2phys :
      (m : Mmu) (p : ℕ)
      → virt2phys dir vaddr mem ≡ done (some p)
      → (v : ℕ) → v < 2 ^ 32
      → v / 2 ^ 13 ≡ vaddr / 2 ^ 13
      → (m' : Mmu) × (dtlb_miss c vaddr s mem m ≡ done (refilled m'))
        × (virt2phys dir v mem ≡ done (dtlb_translates m' v))
  unfolding dtlb_miss
  dtlb_miss-virt2phys m p mapped v small same =
      let pte = page (l1_index_get vaddr) (l2_index_get vaddr) in
      let (high, low) = same_indices v vaddr same in
      elim (Bool-cases (pte == 0)) [
        | inl empty ↦
            let nothing : done none ≡ done (some p) =
              sym (virt2phys_lem maps vaddr h ∙ rw empty refl) ∙ mapped in
            absurd (cc)
        | inr full ↦
            let elsewhere : (page (l1_index_get v) (l2_index_get v) == 0) ≡ false =
              ap (λ i. page i (l2_index_get v) == 0) high
              ∙ ap (λ k. page (l1_index_get vaddr) k == 0) low
              ∙ full in
            (
              set_dtlb vaddr pte m,
              rw (current, maps.aligned, lookup_lem maps vaddr h, full) refl,
              virt2phys_lem maps v small
                  ∙ rw elsewhere (
                      ap (λ w. done (some (w / 2 ^ 13 * 2 ^ 13 + v % 2 ^ 13)))
                        (ap (λ i. page i (l2_index_get v)) high
                          ∙ ap (λ k. page (l1_index_get vaddr) k) low))
                  ∙ ap done (sym (set_dtlb-translates m v vaddr pte same)),
            )
      ]

  -- A miss on an address without a page calls the page fault handler with it.
  pub dtlb_miss-page_fault :
      (m : Mmu)
      → m.dfault_handler ≡ true
      → virt2phys dir vaddr mem ≡ done none
      → dtlb_miss c vaddr s mem m ≡ done (page_fault vaddr)
  unfolding dtlb_miss dpage_fault
  dtlb_miss-page_fault m set unmapped =
      let pte = page (l1_index_get vaddr) (l2_index_get vaddr) in
      elim (Bool-cases (pte == 0)) [
        | inl empty ↦ rw (current, maps.aligned, lookup_lem maps vaddr h, empty, set) refl
        | inr full ↦
            let something : done (some (pte / 2 ^ 13 * 2 ^ 13 + vaddr % 2 ^ 13)) ≡ done none =
              sym (virt2phys_lem maps vaddr h ∙ rw full refl) ∙ unmapped in
            absurd (cc)
      ]
