-- ===== src/Vmm.antt =====
-- Two-level address translation: libruntime/vmm.c. Page directories and page tables are blocks of
-- words in memory, by the address at which they start. The registers of the memory management units are
-- in Tlb; the printing of progress is left out.
pub mod Entry
pub mod Memory
pub mod Pages
pub mod Update
pub mod Map
pub mod Translate
pub mod Reverse
pub mod Tlb
pub mod Refill
pub mod DirCopy
use Prim.Native.Nat.{bit_and, bit_or}
use optimsoc.Prelude.{
  ℕ, zero, suc, ◌+◌, ◌-◌, ◌*◌, ◌/◌, ◌%◌, ◌^◌, Bool, true, false, not, ◌&&◌, Option, none, some,
  List, [], ◌∷◌, ltb, ◌==◌, if◌then◌else◌, length, set, replicate, mul32, Run, done, blocked, fault,
  ◌>>=◌, read, store, assert,
}
use optimsoc.Registry.{load, update}

-- The macros on addresses and page table entries. `&` with a mask of low ones is `%`.
abbrev pub addr_pn_get : ℕ → ℕ
addr_pn_get addr = addr / 2 ^ 13

abbrev pub addr_pn_set : (addr pn : ℕ) → ℕ
addr_pn_set addr pn = bit_or addr (pn % 2 ^ 19 * 2 ^ 13)

abbrev pub addr_offset_get : ℕ → ℕ
addr_offset_get addr = addr % 2 ^ 13

abbrev pub addr_offset_set : (addr offset : ℕ) → ℕ
addr_offset_set addr offset = bit_or addr (offset % 2 ^ 13)

abbrev pub l1_index_get : ℕ → ℕ
l1_index_get addr = addr / 2 ^ 24

abbrev pub l1_index_set : (addr idx : ℕ) → ℕ
l1_index_set addr idx = bit_or (addr % 2 ^ 24) (mul32 idx (2 ^ 24))

abbrev pub l2_index_get : ℕ → ℕ
l2_index_get addr = addr / 2 ^ 13 % 2 ^ 11

-- The mask of the source has seven digits.
abbrev pub l2_index_set : (addr idx : ℕ) → ℕ
l2_index_set addr idx = bit_or (bit_and addr 0xff001ff) (idx % 2 ^ 11 * 2 ^ 13)

abbrev pub pte_ppn_get : ℕ → ℕ
pte_ppn_get pte = pte / 2 ^ 13

abbrev pub pte_ppn_set : (pte ppn : ℕ) → ℕ
pte_ppn_set pte ppn = bit_or pte (mul32 ppn (2 ^ 13))

abbrev pub pte_present_get : ℕ → ℕ
pte_present_get pte = pte / 2 ^ 10 % 2

-- `pte & ~(1 << 10)` takes the bit away where it is set.
abbrev pub pte_present_set : (pte present : ℕ) → ℕ
pte_present_set pte present = bit_or (pte - pte / 2 ^ 10 % 2 * 2 ^ 10) (present % 2 * 2 ^ 10)

abbrev pub pte_last_get : ℕ → ℕ
pte_last_get pte = pte / 2 ^ 9 % 2

abbrev pub pte_ppi_get : ℕ → ℕ
pte_ppi_get pte = pte / 2 ^ 6 % 2 ^ 3

abbrev pub pte_ppi_set : (pte ppi : ℕ) → ℕ
pte_ppi_set pte ppi = bit_or pte (ppi % 2 ^ 3 * 2 ^ 6)

-- `pte & 0xffffe000`
abbrev pub ptable : ℕ → ℕ
ptable pte = pte / 2 ^ 13 * 2 ^ 13

-- `VERIFY_DIR_ADDR(dir)`
abbrev pub verify_dir : ℕ → Bool
verify_dir dir = not (dir == 0) && (dir % 2 ^ 10 == 0)

abbrev pub Blocks : Type 0
Blocks = ℕ → Option (List ℕ)

-- `memalign` returns the address `fresh`, and `memset` clears the block.
unfoldable pub create_page_dir : (fresh : ℕ) → Blocks → Blocks
create_page_dir fresh mem = update mem fresh (some (replicate 256 0))

unfoldable pub create_page_table : (fresh : ℕ) → Blocks → Blocks
create_page_table fresh mem = update mem fresh (some (replicate 2048 0))

-- `block[i] = w`
unfoldable pub poke : (block i w : ℕ) → Blocks → Run Blocks
poke block i w mem = do
  words ← load mem block
  words' ← store words i w
  done (update mem block (some words'))

unfoldable pub peek : (block i : ℕ) → Blocks → Run ℕ
peek block i mem = do words ← load mem block; read words i

-- The entry that `optimsoc_vmm_map` puts into a page directory, over what it loaded.
unfoldable pub table_entry : (dirpte table : ℕ) → ℕ
table_entry dirpte table = pte_ppn_set (pte_present_set dirpte 1) (pte_ppn_get table)

-- User, write and execute access.
abbrev pub all_accesses : ℕ
all_accesses = bit_or (bit_or (2 ^ 0) (2 ^ 1)) (2 ^ 2)

-- The entry that it puts into a page table.
unfoldable pub page_entry : (paddr : ℕ) → ℕ
page_entry paddr = pte_ppi_set (pte_present_set (pte_ppn_set 0 (pte_ppn_get paddr)) 1) all_accesses

-- The store-conditional loops. Each round is one attempt: `none` where it succeeds, `some w` where
-- it fails and the load-linked after it finds what another core has written, `w`.
abbrev pub Attempts : Type 0
Attempts = List (Option ℕ)

-- The loop on the directory: the entry at its end, and the memory. A core that finds the work done
-- frees its own table.
unfoldable pub set_table : Attempts → (dir i dirpte table : ℕ) → Blocks → Run (ℕ × Blocks)
set_table [] dir i dirpte table mem = blocked
set_table (none ∷ rounds) dir i dirpte table mem = do
  mem' ← poke dir i (table_entry dirpte table) mem
  done (table_entry dirpte table, mem')
set_table (some w ∷ rounds) dir i dirpte table mem =
    let retry = λ (mem' : Blocks). set_table rounds dir i w table mem' in
    do
      mem' ← poke dir i w mem
      if pte_present_get w == 1 then done (w, update mem' table none) else retry mem'

-- The loop on the page table: whether this core added the page.
unfoldable pub set_page : Attempts → (table i paddr : ℕ) → Blocks → Run (Bool × Blocks)
set_page [] table i paddr mem = blocked
set_page (none ∷ rounds) table i paddr mem = do
  mem' ← poke table i (page_entry paddr) mem
  done (true, mem')
set_page (some w ∷ rounds) table i paddr mem =
    let retry = λ (mem' : Blocks). set_page rounds table i paddr mem' in
    do mem' ← poke table i w mem; if pte_present_get w == 1 then done (false, mem') else retry mem'

-- The part of `optimsoc_vmm_map` behind the directory.
unfoldable pub map_page : Attempts → (dirpte table vaddr paddr : ℕ) → Blocks → Run (Bool × Blocks)
map_page rounds dirpte table vaddr paddr mem = assert (pte_last_get dirpte == 0) (do
  pte ← peek table (l2_index_get vaddr) mem
  if pte_present_get pte == 1
      then done (false, mem)
      else set_page rounds table (l2_index_get vaddr) paddr mem)

-- `optimsoc_vmm_map`, with the address `fresh` for a new table and the attempts of both loops.
unfoldable pub vmm_map :
    (fresh : ℕ) (tables pages : Attempts) (dir vaddr paddr : ℕ) → Blocks → Run (Bool × Blocks)
vmm_map fresh tables pages dir vaddr paddr mem = assert (verify_dir dir) (do
  dirpte ← peek dir (l1_index_get vaddr) mem
  if pte_present_get dirpte == 0
      then (do
        (dirpte', mem') ←
            set_table tables dir (l1_index_get vaddr) dirpte fresh (create_page_table fresh mem)
        map_page pages dirpte' fresh vaddr paddr mem')
      else map_page pages dirpte (ptable dirpte) vaddr paddr mem)

-- `optimsoc_vmm_unmap`
unfoldable pub vmm_unmap : (dir vaddr : ℕ) → Blocks → Run (Bool × Blocks)
vmm_unmap dir vaddr mem = assert (verify_dir dir) (do
  dirpte ← peek dir (l1_index_get vaddr) mem
  if pte_present_get dirpte == 0
      then done (false, mem)
      else assert (pte_last_get dirpte == 0) (do
        pte ← peek (ptable dirpte) (l2_index_get vaddr) mem
        if pte_present_get pte == 0
            then done (false, mem)
            else (do mem' ← poke (ptable dirpte) (l2_index_get vaddr) 0 mem; done (true, mem'))))

-- `_optimsoc_vmm_lookup`
unfoldable pub vmm_lookup : (dir vaddr : ℕ) → Blocks → Run ℕ
vmm_lookup dir vaddr mem = assert (verify_dir dir) (do
  dirpte ← peek dir (l1_index_get vaddr) mem
  if pte_present_get dirpte == 0
      then done 0
      else assert (pte_last_get dirpte == 0) (do
        pte ← peek (ptable dirpte) (l2_index_get vaddr) mem
        done (if pte_present_get pte == 0 then 0 else pte)))

-- `optimsoc_vmm_virt2phys`: `none` is the return value 0.
unfoldable pub virt2phys : (dir vaddr : ℕ) → Blocks → Run (Option ℕ)
virt2phys dir vaddr mem = assert (verify_dir dir) (do
  pte ← vmm_lookup dir vaddr mem
  if pte == 0
      then done none
      else assert (pte_last_get pte == 0)
          (done (some (addr_offset_set (addr_pn_set 0 (pte_ppn_get pte)) (addr_offset_get vaddr)))))

-- The address that `optimsoc_vmm_phys2virt` puts together.
unfoldable pub join_address : (dirindex tableindex paddr : ℕ) → ℕ
join_address dirindex tableindex paddr =
    addr_offset_set (l2_index_set (l1_index_set 0 dirindex) tableindex) (addr_offset_get paddr)

-- The inner loop, over `n` entries from `tableindex`.
unfoldable pub scan_table :
    (dirindex : ℕ) (table : ℕ) (paddr tableindex n : ℕ) → Blocks → Run (Option ℕ)
scan_table dirindex table paddr tableindex zero mem = done none
scan_table dirindex table paddr tableindex (suc n) mem =
    let rest = scan_table dirindex table paddr (suc tableindex) n mem in
    do
      pte ← peek table tableindex mem
      if pte_present_get pte == 0
          then rest
          else if pte_ppn_get paddr == pte_ppn_get pte
          then done (some (join_address dirindex tableindex paddr))
          else rest

-- The outer loop, over `n` entries from `dirindex`.
unfoldable pub scan_dir : (dir paddr dirindex n : ℕ) → Blocks → Run (Option ℕ)
scan_dir dir paddr dirindex zero mem = done none
scan_dir dir paddr dirindex (suc n) mem =
    let rest = scan_dir dir paddr (suc dirindex) n mem in
    do
      pte ← peek dir dirindex mem
      if pte_ppi_get pte == 0
          then rest
          else assert (pte_last_get pte == 0) (do
            found ← scan_table dirindex (ptable pte) paddr 0 2048 mem
            elim found [ some vaddr ↦ done (some vaddr) | none ↦ rest ])

-- `optimsoc_vmm_phys2virt`
unfoldable pub phys2virt : (dir paddr : ℕ) → Blocks → Run (Option ℕ)
phys2virt dir paddr mem = assert (verify_dir dir) (scan_dir dir paddr 0 256 mem)

-- The loop of `optimsoc_vmm_destroy_page_dir`, over `n` entries from `dirindex`. `free` faults on a
-- block that is not there.
unfoldable pub free : (p : ℕ) → Blocks → Run Blocks
free p mem = do _ ← load mem p; done (update mem p none)

unfoldable pub destroy_tables : (dir dirindex n : ℕ) → Blocks → Run Blocks
destroy_tables dir dirindex zero mem = done mem
destroy_tables dir dirindex (suc n) mem = do
  pte ← peek dir dirindex mem
  mem' ←
      if pte_present_get pte == 0
      then done mem
      else assert (pte_last_get pte == 0) (assert (not (ptable pte == 0)) (free (ptable pte) mem))
  destroy_tables dir (suc dirindex) n mem'

-- `optimsoc_vmm_destroy_page_dir`
unfoldable pub destroy_page_dir : (dir : ℕ) → Blocks → Run Blocks
destroy_page_dir dir mem =
    assert (verify_dir dir) (do mem' ← destroy_tables dir 0 256 mem; free dir mem')
