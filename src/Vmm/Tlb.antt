-- ===== src/Vmm/Tlb.antt =====
-- The handlers of the memory management units' exceptions in libruntime/vmm.c. A translation and a match
-- register are the fields that the macros of the processor's header set in them, and a field that is
-- not set is false. A unit has 64 of each.
use optimsoc.Prelude.{
  ℕ, ◌/◌, ◌%◌, ◌^◌, Bool, true, not, ◌&&◌, Option, some, ◌==◌, if◌then◌else◌, Run, done, ◌>>=◌,
  assert,
}
use optimsoc.Registry.{update}
use optimsoc.Runtime.{Runtime}
use optimsoc.Runtime.Threads.{thread_get_pagedir_current}
use optimsoc.Vmm.{
  Blocks, verify_dir, vmm_lookup, addr_pn_get, l2_index_get, pte_ppn_get, pte_ppi_get,
}

-- A pair of registers of the data unit: DTLBW_TR and DTLBW_MR.
pub record DtlbEntry : Type 0 where
  pub ppn : ℕ
  pub ure : Bool
  pub sre : Bool
  pub swe : Bool
  pub uwe : Bool
  pub valid : Bool
  pub vpn : ℕ

-- A pair of registers of the instruction unit: ITLBW_TR and ITLBW_MR.
pub record ItlbEntry : Type 0 where
  pub ppn : ℕ
  pub sxe : Bool
  pub uxe : Bool
  pub valid : Bool
  pub vpn : ℕ

-- Both units, and whether the page fault handlers are set.
pub record Mmu : Type 0 where
  pub dtlb : ℕ → Option DtlbEntry
  pub itlb : ℕ → Option ItlbEntry
  pub dfault_handler : Bool
  pub ifault_handler : Bool

-- `OR1K_PTE_PPI_GET(pte) & (1 << bit)`
abbrev pub has_access : (pte bit : ℕ) → Bool
has_access pte bit = not (pte_ppi_get pte / 2 ^ bit % 2 == 0)

abbrev pub user_bit : ℕ
user_bit = 0

abbrev pub write_bit : ℕ
write_bit = 1

abbrev pub exec_bit : ℕ
exec_bit = 2

-- `OR1K_ADDR_L2_INDEX_GET(vaddr) & 0x3f`
abbrev pub tlb_index : ℕ → ℕ
tlb_index vaddr = l2_index_get vaddr % 2 ^ 6

-- `_optimsoc_set_itlb`
unfoldable pub set_itlb : (vaddr pte : ℕ) → Mmu → Mmu
set_itlb vaddr pte m =
    let entry : ItlbEntry = record {
      ppn = pte_ppn_get pte;
      sxe = has_access pte exec_bit;
      uxe = has_access pte exec_bit && has_access pte user_bit;
      valid = true;
      vpn = addr_pn_get vaddr;
    } in
    record m { itlb = update m.itlb (tlb_index vaddr) (some entry) }

-- `_optimsoc_set_dtlb`
unfoldable pub set_dtlb : (vaddr pte : ℕ) → Mmu → Mmu
set_dtlb vaddr pte m =
    let entry : DtlbEntry = record {
      ppn = pte_ppn_get pte;
      ure = has_access pte user_bit;
      sre = true;
      swe = has_access pte write_bit;
      uwe = has_access pte write_bit && has_access pte user_bit;
      valid = true;
      vpn = addr_pn_get vaddr;
    } in
    record m { dtlb = update m.dtlb (tlb_index vaddr) (some entry) }

-- How an exception ends: a unit is refilled, or a page fault handler is called with the address.
pub data Handled : Type 0 where
  refilled : Mmu → Handled
  page_fault : (vaddr : ℕ) → Handled

-- `optimsoc_vmm_set_dfault_handler` and `optimsoc_vmm_set_ifault_handler`, for a handler or none
unfoldable pub set_dfault_handler : (handler : ℕ) → Mmu → Mmu
set_dfault_handler handler m = record m { dfault_handler = not (handler == 0) }

unfoldable pub set_ifault_handler : (handler : ℕ) → Mmu → Mmu
set_ifault_handler handler m = record m { ifault_handler = not (handler == 0) }

-- `_optimsoc_dpage_fault` and `_optimsoc_ipage_fault`: `vaddr` is the effective address register.
unfoldable pub dpage_fault : (vaddr : ℕ) → Mmu → Run Handled
dpage_fault vaddr m = assert m.dfault_handler (done (page_fault vaddr))

unfoldable pub ipage_fault : (vaddr : ℕ) → Mmu → Run Handled
ipage_fault vaddr m = assert m.ifault_handler (done (page_fault vaddr))

-- `_optimsoc_dtlb_miss` on the core `c`
unfoldable pub dtlb_miss : (c vaddr : ℕ) → Runtime → Blocks → Mmu → Run Handled
dtlb_miss c vaddr s mem m = do
  dir ← thread_get_pagedir_current c s
  pte ← assert (verify_dir dir) (vmm_lookup dir vaddr mem)
  if pte == 0 then dpage_fault vaddr m else done (refilled (set_dtlb vaddr pte m))

-- `_optimsoc_itlb_miss`
unfoldable pub itlb_miss : (c vaddr : ℕ) → Runtime → Blocks → Mmu → Run Handled
itlb_miss c vaddr s mem m = do
  dir ← thread_get_pagedir_current c s
  pte ← assert (verify_dir dir) (vmm_lookup dir vaddr mem)
  if pte == 0 then ipage_fault vaddr m else done (refilled (set_itlb vaddr pte m))
