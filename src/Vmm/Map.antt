-- ===== src/Vmm/Map.antt =====
-- `optimsoc_vmm_map` and `optimsoc_vmm_unmap` on a page map.
use optimsoc.Prelude.{
  ℕ, ◌*◌, ◌^◌, ◌≡◌, ◌≢◌, ◌<◌, inl, refl, sym, ap, ◌∙◌, Bool, not, none, [], ◌∷◌, arith, ◌==◌,
  if◌then◌else◌, done,
}
use native.Mathlib.Decide.{ℕ_discrete}
use optimsoc.Vmm.{
  Blocks, l1_index_get, l2_index_get, peek, vmm_map, vmm_unmap, set_table, create_page_table,
  table_entry,
}
use optimsoc.Vmm.Entry.{table_entry_lem}
use optimsoc.Vmm.Memory.{poke_lem}
use optimsoc.Vmm.Pages.{Maps, at_page, entry_of, entry_fields, present_page}
use optimsoc.Vmm.Update.{
  Maps-resp, Maps-resp_tables, create_page_table_lem, Maps-new_table, at_table, map_page_lem,
  mapped, Maps-poke_page,
}

at_page-unchanged :
    (page : ℕ → ℕ → ℕ) (i k j l w : ℕ) → page i k ≡ w → page j l ≡ at_page page i k w j l
at_page-unchanged page i k j l w e = ground (
  arith,
  (λ (e : j ≡ i). ap (λ (t : ℕ). page t l) e),
  (λ (e : l ≡ k). ap (λ (t : ℕ). page i t) e),
)

module _ {dir : ℕ} {base : ℕ → ℕ} {page : ℕ → ℕ → ℕ} {mem : Blocks} (m : Maps dir base page mem)
    (vaddr : ℕ) (h : vaddr < 2 ^ 32) where
  -- In a directory that stands for a page map, `optimsoc_vmm_unmap` of a 32-bit address sets the
  -- entry of its page to 0, reports whether there was one, and leaves every other entry.
  pub unmap_lem :
      (let i = l1_index_get vaddr in
        let k = l2_index_get vaddr in
        (mem' : Blocks) × (vmm_unmap dir vaddr mem ≡ done (not (page i k == 0), mem'))
        × Maps dir base (at_page page i k 0) mem')
  unfolding vmm_unmap
  unmap_lem =
      let i = l1_index_get vaddr in
      let k = l2_index_get vaddr in
      elim (ℕ_discrete (base i) 0) [
        | yes e ↦ (
          mem,
          rw (m.aligned, m.entry i (omega arith), e, m.no_table i k e) refl,
          Maps-resp (λ j l. at_page-unchanged page i k j l 0 (m.no_table i k e)) m,
        )
        | no ne ↦
            let here = m.word i k (omega arith) (omega arith) ne in
            let (present, last, table) = entry_fields (base i) ne (m.frame i) in
            elim (ℕ_discrete (page i k) 0) [
              | yes e ↦ (
                mem,
                rw (m.aligned, m.entry i (omega arith), present, last, table, here, e) refl,
                Maps-resp (λ j l. at_page-unchanged page i k j l 0 e) m,
              )
              | no full ↦
                  let (mem', run, poked) = poke_lem (base i * 2 ^ 13) k mem 0 here in
                  (
                    mem',
                    rw
                        (
                          m.aligned,
                          m.entry i (omega arith),
                          present,
                          last,
                          table,
                          here,
                          present_page (page i k) full (m.valid i k),
                          run,
                        )
                        (ap (λ (taken : Bool). done (taken, mem')) (ground arith)),
                    Maps-poke_page i k 0 m (omega arith) ne (inl refl) poked,
                  )
            ]
      ]

  -- The address `fresh` of the block for a new table, in page frame `fresh`.
  module _ (paddr : ℕ) (hp : paddr < 2 ^ 32) (fresh : ℕ) (ne : fresh ≢ 0) (small : fresh < 2 ^ 19)
      (other : fresh * 2 ^ 13 ≢ dir) (unused : (j : ℕ) → base j ≢ fresh) where
    -- The directory entry is there, or a new table is put into it.
    set_table_lem :
        (i : ℕ)
        → i < 256
        → base i ≡ 0
        → (mem' : Blocks) × (set_table
              (none ∷ [])
              dir
              i
              0
              (fresh * 2 ^ 13)
              (create_page_table (fresh * 2 ^ 13) mem)
            ≡ done (entry_of fresh, mem'))
          × Maps dir (at_table base i fresh) page mem'
    unfolding set_table
    set_table_lem i b e =
        let cleared = create_page_table_lem (fresh * 2 ^ 13) mem (omega arith) in
        let mem1 = create_page_table (fresh * 2 ^ 13) mem in
        let entry_eq : table_entry 0 (fresh * 2 ^ 13) ≡ entry_of fresh =
          ground (arith, table_entry_lem fresh small) in
        let here : peek dir i mem1 ≡ done (entry_of (base i)) =
          cleared.word dir i (λ s. other (sym s)) ∙ m.entry i b in
        let (mem', run, poked) = poke_lem dir i mem1 (entry_of fresh) here in
        (
          mem',
          rw (entry_eq, run) refl,
          Maps-new_table i fresh m e ne small other unused cleared poked,
        )

    map-table :
        (let i = l1_index_get vaddr in
          let k = l2_index_get vaddr in
          base i ≢ 0
          → (mem' : Blocks) × (vmm_map (fresh * 2 ^ 13) (none ∷ []) (none ∷ []) dir vaddr paddr mem
              ≡ done (page i k == 0, mem'))
            × Maps dir
                (at_table base i (if base i == 0 then fresh else base i))
                (at_page page i k (mapped (page i k) paddr))
                mem')
    unfolding vmm_map
    map-table taken =
        let i = l1_index_get vaddr in
        let (present, last, table) = entry_fields (base i) taken (m.frame i) in
        let (mem', run, maps) = map_page_lem m paddr hp i (omega arith) taken vaddr (omega arith) in
        (
          mem',
          rw (m.aligned, m.entry i (omega arith), present, table) run,
          Maps-resp_tables (λ j. ground (arith, ap base {x = j} {y = i})) maps,
        )

    map-new_table :
        (let i = l1_index_get vaddr in
          let k = l2_index_get vaddr in
          base i ≡ 0
          → (mem' : Blocks) × (vmm_map (fresh * 2 ^ 13) (none ∷ []) (none ∷ []) dir vaddr paddr mem
              ≡ done (page i k == 0, mem'))
            × Maps dir
                (at_table base i (if base i == 0 then fresh else base i))
                (at_page page i k (mapped (page i k) paddr))
                mem')
    unfolding vmm_map
    map-new_table e =
        let i = l1_index_get vaddr in
        let (mem1, first, maps1) = set_table_lem i (omega arith) e in
        let base_at : at_table base i fresh i ≡ fresh = ground arith in
        let (mem', run, maps) =
          map_page_lem maps1 paddr hp i (omega arith) (λ s. ne (sym base_at ∙ s)) vaddr
            (omega arith) in
        (
          mem',
          rw (m.aligned, m.entry i (omega arith), e, first, ← base_at) run,
          Maps-resp_tables (λ j. ground arith) maps,
        )

    -- In a directory that stands for a page map, with no other core at work, `optimsoc_vmm_map` of a
    -- 32-bit address puts the page into its entry unless one is there, reports whether it did, and
    -- leaves every other entry. Where the address had no table the new one is at the page frame
    -- `fresh`, which no table and not the directory has.
    pub map_lem :
        (let i = l1_index_get vaddr in
          let k = l2_index_get vaddr in
          let base' = at_table base i (if base i == 0 then fresh else base i) in
          (mem' : Blocks) × (vmm_map (fresh * 2 ^ 13) (none ∷ []) (none ∷ []) dir vaddr paddr mem
            ≡ done (page i k == 0, mem'))
          × Maps dir base' (at_page page i k (mapped (page i k) paddr)) mem')
    map_lem =
        let i = l1_index_get vaddr in
        elim (ℕ_discrete (base i) 0) [ yes e ↦ map-new_table e | no taken ↦ map-table taken ]
