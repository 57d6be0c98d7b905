-- ===== src/Vmm/Translate.antt =====
-- Translation after a change to the page map, and translation in the other direction.
use optimsoc.Prelude.{
  if-done, ℕ, ◌+◌, ◌*◌, ◌/◌, ◌%◌, ◌^◌, ◌≡◌, ◌≢◌, ◌<◌, refl, sym, ap, ◌∙◌, ◌&&◌, Bool, true, false,
  not, none, some, [], ◌∷◌, arith, ◌==◌, if◌then◌else◌, done, Option,
}
use optimsoc.Vmm.{Blocks, l1_index_get, l2_index_get, vmm_map, vmm_unmap, virt2phys}
use optimsoc.Vmm.Pages.{Maps, at_page, virt2phys_lem}
use optimsoc.Vmm.Update.{mapped}
use optimsoc.Vmm.Map.{map_lem, unmap_lem}

-- What translation makes of an entry of a page table.
abbrev pub translated : (pte vaddr : ℕ) → Option ℕ
translated pte vaddr = if pte == 0 then none else some (pte / 2 ^ 13 * 2 ^ 13 + vaddr % 2 ^ 13)

-- Two addresses of one page have the same index pair, and the others do not.
same_page :
    (v vaddr : ℕ)
    → ((l1_index_get v == l1_index_get vaddr) && (l2_index_get v == l2_index_get vaddr))
      ≡ (v / 2 ^ 13 == vaddr / 2 ^ 13)
same_page v vaddr =
    let split_v : v / 2 ^ 13 ≡ v / 2 ^ 24 * 2 ^ 11 + v / 2 ^ 13 % 2 ^ 11 = omega arith in
    let split_vaddr : vaddr / 2 ^ 13 ≡ vaddr / 2 ^ 24 * 2 ^ 11 + vaddr / 2 ^ 13 % 2 ^ 11 =
      omega arith in
    ground (arith, split_v, split_vaddr)

translated-at_page :
    (page : ℕ → ℕ → ℕ) (vaddr v w : ℕ)
    → translated
        (at_page page (l1_index_get vaddr) (l2_index_get vaddr) w (l1_index_get v) (l2_index_get v))
        v
      ≡ (if v / 2 ^ 13 == vaddr / 2 ^ 13
          then translated w v
          else translated (page (l1_index_get v) (l2_index_get v)) v)
translated-at_page page vaddr v w = rw (same_page v vaddr) (by_case (v / 2 ^ 13 == vaddr / 2 ^ 13))
  where
    by_case :
        (b : Bool)
        → translated (if b then w else page (l1_index_get v) (l2_index_get v)) v
          ≡ (if b then translated w v else translated (page (l1_index_get v) (l2_index_get v)) v)
    by_case true = refl
    by_case false = refl

translated-mapped :
    (paddr v : ℕ) → translated (mapped 0 paddr) v ≡ some (paddr / 2 ^ 13 * 2 ^ 13 + v % 2 ^ 13)
translated-mapped paddr v = ground arith

module _ {dir : ℕ} {base : ℕ → ℕ} {page : ℕ → ℕ → ℕ} {mem : Blocks} (m : Maps dir base page mem)
    (vaddr : ℕ) (h : vaddr < 2 ^ 32) where
  -- In a directory that stands for a page map, after `optimsoc_vmm_unmap` of a 32-bit address the
  -- addresses `v` of its page translate no more, and every other address as before. The result says
  -- whether there was a page.
  pub unmap-virt2phys :
      (v : ℕ)
      → v < 2 ^ 32
      → (mem' : Blocks) × (vmm_unmap dir vaddr mem
          ≡ done (not (page (l1_index_get vaddr) (l2_index_get vaddr) == 0), mem'))
        × (virt2phys dir v mem'
            ≡ (if v / 2 ^ 13 == vaddr / 2 ^ 13 then done none else virt2phys dir v mem))
  unmap-virt2phys v b =
      let (mem', run, maps) = unmap_lem m vaddr h in
      (
        mem',
        run,
        rw (virt2phys_lem maps v b, virt2phys_lem m v b, translated-at_page page vaddr v 0)
            (sym (
              if-done (v / 2 ^ 13 == vaddr / 2 ^ 13) none
                (translated (page (l1_index_get v) (l2_index_get v)) v))),
      )

  -- In a directory that stands for a page map, with no other core at work, after `optimsoc_vmm_map`
  -- of a 32-bit address that had no page the addresses `v` of its page translate to those of the
  -- physical page, and every other address as before. The block for a new table starts at a page
  -- frame that no table and not the directory has.
  pub map-virt2phys :
      (paddr : ℕ)
      → paddr < 2 ^ 32
      → (fresh : ℕ) → fresh ≢ 0
      → fresh < 2 ^ 19
      → fresh * 2 ^ 13 ≢ dir
      → ((j : ℕ) → base j ≢ fresh)
      → page (l1_index_get vaddr) (l2_index_get vaddr) ≡ 0
      → (v : ℕ) → v < 2 ^ 32
      → (mem' : Blocks) × (vmm_map (fresh * 2 ^ 13) (none ∷ []) (none ∷ []) dir vaddr paddr mem
          ≡ done (true, mem'))
        × (virt2phys dir v mem' ≡ (
            if v / 2 ^ 13 == vaddr / 2 ^ 13
            then done (some (paddr / 2 ^ 13 * 2 ^ 13 + v % 2 ^ 13))
            else virt2phys dir v mem))
  map-virt2phys paddr hp fresh ne small other unused e v b =
      let (mem', run, maps) = map_lem m vaddr h paddr hp fresh ne small other unused in
      (
        mem',
        run ∙ ap (λ (added : Bool). done (added, mem')) (ground arith),
        rw
            (
              virt2phys_lem maps v b,
              virt2phys_lem m v b,
              translated-at_page page vaddr v
                  (mapped (page (l1_index_get vaddr) (l2_index_get vaddr)) paddr),
              e,
              translated-mapped paddr v,
            )
            (sym (
              if-done (v / 2 ^ 13 == vaddr / 2 ^ 13) (some (paddr / 2 ^ 13 * 2 ^ 13 + v % 2 ^ 13))
                (translated (page (l1_index_get v) (l2_index_get v)) v))),
      )
