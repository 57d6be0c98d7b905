-- ===== src/Tests/Pages.antt =====
-- A page directory at 1024, and page tables in the page frames 1 and 2.
use optimsoc.Prelude.{
  ℕ, ◌+◌, ◌*◌, ◌^◌, ◌≡◌, refl, true, false, none, some, [], ◌∷◌, arith, done, fault,
}
use optimsoc.Registry.{load, update}
use optimsoc.Runtime.{Runtime}
use optimsoc.Runtime.Scheduler.{scheduler_get_current}
use optimsoc.Runtime.Threads.{thread_get_pagedir, thread_get_pagedir_current}
use optimsoc.Vmm.Tlb.{Mmu, refilled, dtlb_miss}
use optimsoc.Vmm.Refill.{dtlb_translates, dtlb_miss-virt2phys}
use optimsoc.Tests.Threads.{at_work, a_thread}
use optimsoc.Vmm.{Blocks, create_page_dir, vmm_map, vmm_unmap, virt2phys, phys2virt}
use optimsoc.Vmm.Pages.{Maps, at_page, virt2phys_lem}
use optimsoc.Vmm.Update.{at_table, mapped}
use optimsoc.Vmm.Map.{map_lem}
use optimsoc.Vmm.Translate.{map-virt2phys, unmap-virt2phys}
use optimsoc.Vmm.Reverse.{phys2virt-none, create_page_dir-Maps, map-race}

abbrev pub nothing : Blocks
nothing _ = none

abbrev mem0 : Blocks
mem0 = create_page_dir 1024 nothing

mem0-Maps : Maps 1024 (λ _. 0) (λ _ _. 0) mem0
mem0-Maps = create_page_dir-Maps 1024 nothing refl

abbrev pub vaddr : ℕ
vaddr = 0x12345678

abbrev pub paddr : ℕ
paddr = 0xabc123

pub one_page :
    (mem' : Blocks) × (vmm_map (1 * 2 ^ 13) (none ∷ []) (none ∷ []) 1024 vaddr paddr mem0
      ≡ done (true, mem'))
    × Maps 1024 (at_table (λ _. 0) 0x12 1) (at_page (λ _ _. 0) 0x12 0x1a2 (mapped 0 paddr)) mem'
one_page =
    map_lem mem0-Maps vaddr (omega arith) paddr (omega arith) 1 (omega arith) (omega arith)
      (omega arith) (λ j. omega arith)

abbrev pub mem1 : Blocks
mem1 = one_page.0

pub mem1-Maps :
    Maps 1024 (at_table (λ _. 0) 0x12 1) (at_page (λ _ _. 0) 0x12 0x1a2 (mapped 0 paddr)) mem1
mem1-Maps = one_page.2

unmap-virt2phys_example :
    (mem' : Blocks) × (vmm_unmap 1024 vaddr mem1 ≡ done (true, mem'))
    × (virt2phys 1024 (vaddr + 4) mem' ≡ done none)
unmap-virt2phys_example = unmap-virt2phys mem1-Maps vaddr (omega arith) (vaddr + 4) (omega arith)

map-virt2phys_example :
    (mem' : Blocks) × (vmm_map (2 * 2 ^ 13) (none ∷ []) (none ∷ []) 1024 0x40000000 0x8000 mem1
      ≡ done (true, mem'))
    × (virt2phys 1024 0x40000010 mem' ≡ done (some 0x8010))
map-virt2phys_example =
    map-virt2phys mem1-Maps 0x40000000 (omega arith) 0x8000 (omega arith) 2 (omega arith)
      (omega arith) (omega arith) (λ j. ground arith) refl 0x40000010 (omega arith)

phys2virt-none_example : phys2virt 1024 paddr mem1 ≡ done none
phys2virt-none_example = phys2virt-none mem1-Maps paddr

map-race_example : vmm_map 16384 (some 0x2400 ∷ []) (none ∷ []) 1024 0x40000000 0x8000 mem1 ≡ fault
map-race_example =
    map-race mem1-Maps 0x40000000 (omega arith) refl 0x8000 16384 0x2400 (omega arith) (omega arith)
      refl [] (none ∷ [])

map_lem_example :
    (mem' : Blocks) × (vmm_map (2 * 2 ^ 13) (none ∷ []) (none ∷ []) 1024 vaddr 0x8000 mem1
      ≡ done (false, mem'))
    × Maps 1024
        (at_table (at_table (λ _. 0) 0x12 1) 0x12 1)
        (at_page
          (at_page (λ _ _. 0) 0x12 0x1a2 (mapped 0 paddr))
          0x12
          0x1a2
          (mapped (mapped 0 paddr) 0x8000))
        mem'
map_lem_example =
    map_lem mem1-Maps vaddr (omega arith) 0x8000 (omega arith) 2 (omega arith) (omega arith)
      (omega arith) (λ j. ground arith)

-- The running thread has the directory at 1024.
abbrev in_space : Runtime
in_space = record at_work {
  threads = update at_work.threads 32 (some (record (a_thread 2) { page_dir = 1024 }));
}

in_space-pagedir : thread_get_pagedir_current 0 in_space ≡ done 1024
unfolding thread_get_pagedir_current thread_get_pagedir scheduler_get_current load update
in_space-pagedir = refl

abbrev empty_mmu : Mmu
empty_mmu = record {
  dtlb = λ _. none;
  itlb = λ _. none;
  dfault_handler = true;
  ifault_handler = true;
}

dtlb_miss-virt2phys_example :
    (m' : Mmu) × (dtlb_miss 0 vaddr in_space mem1 empty_mmu ≡ done (refilled m'))
    × (virt2phys 1024 (vaddr + 4) mem1 ≡ done (dtlb_translates m' (vaddr + 4)))
dtlb_miss-virt2phys_example =
    dtlb_miss-virt2phys mem1-Maps vaddr (omega arith) in_space 0 in_space-pagedir empty_mmu 0xabd678
      (virt2phys_lem mem1-Maps vaddr (omega arith)) (vaddr + 4) (omega arith) (omega arith)
