-- ===== src/Vmm/Reverse.antt =====
-- `optimsoc_vmm_create_page_dir`, the reverse translation, and two cores that map at once.
use optimsoc.Prelude.{
  ℕ, zero, suc, ◌+◌, ◌^◌, ◌≡◌, ◌≢◌, ◌<◌, ◌≤◌, inl, refl, sym, ◌∙◌, true, none, some, ◌∷◌, arith,
  done, fault, replicate, get_elem?-replicate,
}
use optimsoc.Vmm.{
  Blocks, verify_dir, l1_index_get, vmm_map, pte_ppi_get, create_page_dir, peek, phys2virt,
  scan_dir, Attempts, set_table, create_page_table, map_page, pte_present_get,
}
use optimsoc.Vmm.Pages.{Maps, entry_of}
use optimsoc.Vmm.Memory.{peek-update, poke_lem}
use optimsoc.Vmm.Update.{create_page_table_lem}
use optimsoc.Registry.{load, update}

-- No entry that `optimsoc_vmm_map` puts into a directory has an access right.
entry-ppi : (b : ℕ) → b < 2 ^ 19 → pte_ppi_get (entry_of b) ≡ 0
entry-ppi b h = ground arith

scan_dir_lem :
    {dir : ℕ} {base : ℕ → ℕ} {page : ℕ → ℕ → ℕ} {mem : Blocks}
    → Maps dir base page mem
    → (paddr dirindex n : ℕ) → dirindex + n ≤ 256
    → scan_dir dir paddr dirindex n mem ≡ done none
unfolding scan_dir
scan_dir_lem m paddr dirindex zero h = refl
scan_dir_lem {base} m paddr dirindex (suc n) h =
    rw
      (
        m.entry dirindex (omega arith),
        entry-ppi (base dirindex) (m.frame dirindex),
        scan_dir_lem m paddr (suc dirindex) n (omega arith),
      )
      refl

-- In a directory that stands for a page map the reverse translation finds no address for any physical address.
pub phys2virt-none :
    {dir : ℕ} {base : ℕ → ℕ} {page : ℕ → ℕ → ℕ} {mem : Blocks}
    → Maps dir base page mem
    → (paddr : ℕ) → phys2virt dir paddr mem ≡ done none
unfolding phys2virt
phys2virt-none m paddr = rw (m.aligned, scan_dir_lem m paddr 0 256 (omega arith)) refl

-- A new directory at an aligned address stands for the page map without pages.
pub create_page_dir-Maps :
    (dir : ℕ) (mem : Blocks)
    → verify_dir dir ≡ true
    → Maps dir (λ _. 0) (λ _ _. 0) (create_page_dir dir mem)
unfolding create_page_dir
create_page_dir-Maps dir mem ok = record {
  aligned = ok;
  entry =
      λ i b. peek-update dir i mem (replicate 256 0) (ground arith) (get_elem?-replicate 256 i 0 b);
  frame = λ i. omega arith;
  word = λ i k b c ne. absurd (ne refl);
  no_table = λ i k e. refl;
  valid = λ i k. inl refl;
  apart = λ i j ne e. absurd (ne refl);
  not_dir = λ i. ground arith;
}

freed :
    (fresh w vaddr paddr : ℕ) (pages : Attempts) (mem : Blocks)
    → fresh ≢ 0
    → map_page pages w fresh vaddr paddr (update mem fresh none) ≡ fault
unfolding map_page peek load update
freed fresh w vaddr paddr pages mem ne = ground arith

-- In a directory that stands for a page map, where a 32-bit address has no table and another core
-- sets its directory entry before this core's store, `optimsoc_vmm_map` frees its own table and then
-- reads from it, or fails its assertion where that entry is marked as the last one.
pub map-race :
    {dir : ℕ} {base : ℕ → ℕ} {page : ℕ → ℕ → ℕ} {mem : Blocks}
    → Maps dir base page mem
    → (vaddr : ℕ) → vaddr < 2 ^ 32
    → base (l1_index_get vaddr) ≡ 0
    → (paddr fresh w : ℕ) → fresh ≢ 0
    → fresh ≢ dir
    → pte_present_get w ≡ 1
    → (tables pages : Attempts) → vmm_map fresh (some w ∷ tables) pages dir vaddr paddr mem ≡ fault
unfolding vmm_map set_table
map-race {dir} {base} {page} {mem} m vaddr h e paddr fresh w ne other present tables pages =
    let i = l1_index_get vaddr in
    let mem1 = create_page_table fresh mem in
    let here : peek dir i mem1 ≡ done (entry_of (base i)) =
      (create_page_table_lem fresh mem ne).word dir i (λ s. other (sym s))
      ∙ m.entry i (omega arith) in
    let (mem', run, poked) = poke_lem dir i mem1 w here in
    rw (m.aligned, m.entry i (omega arith), e, run, present)
      (freed fresh w vaddr paddr pages mem' ne)
