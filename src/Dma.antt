-- ===== src/Dma.antt =====
-- The slots of the DMA driver: libbaremetal/dma.c, without DMA_IRQ. The writes to the registers of
-- the controller are a list of addresses and words.
pub mod Slots
use optimsoc.Prelude.{
  ℕ, zero, suc, ◌+◌, ◌*◌, ◌^◌, Bool, true, false, Option, none, some, List, [], ◌∷◌, ltb, ◌==◌,
  if◌then◌else◌, add32, mul32, Run, done, blocked, fault, ◌>>=◌, read, store, assert,
}

-- `dma_success_t`
pub data DmaResult : Type 0 where
  success err_notinitialized err_noslot err_notallocated : DmaResult

pub record DmaSlot : Type 0 where
  pub flag : ℕ
  pub id : ℕ

pub record Dma : Type 0 where
  pub initialized : Bool
  pub slots : List DmaSlot

abbrev pub dma_slots : ℕ
dma_slots = 4

abbrev pub slot_free : ℕ
slot_free = 0

abbrev pub slot_alloc : ℕ
slot_alloc = 1

abbrev pub dma_base : ℕ
dma_base = 0xe0200000

-- `dma_init`
abbrev pub dma_init : Dma
dma_init = record {
  initialized = true;
  slots =
      record { flag = slot_free; id = 0 }
      ∷ record { flag = slot_free; id = 1 }
      ∷ record { flag = slot_free; id = 2 }
      ∷ record { flag = slot_free; id = 3 }
      ∷ [];
}

-- `dma_alloc_slot`: the slot, and the slots after it.
unfoldable pub alloc_slot : List DmaSlot → Option DmaSlot × List DmaSlot
alloc_slot [] = (none, [])
alloc_slot (s ∷ slots) =
    let (found, slots') = alloc_slot slots in
    if s.flag == slot_free
    then (some (record s { flag = slot_alloc }), record s { flag = slot_alloc } ∷ slots)
    else (found, s ∷ slots')

-- The second half of `dma_alloc`.
abbrev pub granted_slot : Option DmaSlot × List DmaSlot → Dma → DmaResult × Option ℕ × Dma
granted_slot (none, slots) d = (err_noslot, none, d)
granted_slot (some s, slots) d = (success, some s.id, record d { slots = slots })

-- `dma_alloc`: `some id` is what `*id` is set to.
unfoldable pub dma_alloc : Dma → DmaResult × Option ℕ × Dma
dma_alloc d =
    if d.initialized then granted_slot (alloc_slot d.slots) d else (err_notinitialized, none, d)

-- `dma_free`, once the driver is initialized
unfoldable pub dma_free_started : (id : ℕ) → Dma → Run (DmaResult × Dma)
dma_free_started id d = assert (ltb id dma_slots) (do
  slot ← read d.slots id
  if slot.flag == slot_alloc
      then (do
        slots ← store d.slots id (record slot { flag = slot_free })
        done (success, record d { slots = slots }))
      else done (err_notallocated, d))

-- `dma_free`
unfoldable pub dma_free : (id : ℕ) → Dma → Run (DmaResult × Dma)
dma_free id d = if d.initialized then dma_free_started id d else done (err_notinitialized, d)

-- `REG32(DMA_BASE + 0x20 * slot->id + offset)`
abbrev pub register : (slot : DmaSlot) (offset : ℕ) → ℕ
register slot offset = add32 (add32 dma_base (mul32 0x20 slot.id)) offset

-- `dma_transfer`: the writes, in order.
unfoldable pub dma_transfer :
    (local remote_tile remote size dir id : ℕ) → Dma → Run (DmaResult × List (ℕ × ℕ))
dma_transfer local remote_tile remote size dir id d =
    if d.initialized
    then (do
      slot ← read d.slots id
      done (
        success,
        (register slot 0, local)
            ∷ (register slot 0x4, size)
            ∷ (register slot 0x8, remote_tile)
            ∷ (register slot 0xc, remote)
            ∷ (register slot 0x10, dir)
            ∷ (register slot 0x14, 1)
            ∷ [],
      ))
    else done (err_notinitialized, [])

-- `dma_wait`: `polls` are the words that the polls of the go register give.
unfoldable pub wait_loop : (polls : List ℕ) → Run DmaResult
wait_loop [] = blocked
wait_loop (p ∷ polls) = let again = wait_loop polls in if p == 0 then again else done success

unfoldable pub dma_wait : (polls : List ℕ) (id : ℕ) → Dma → Run DmaResult
dma_wait polls id d =
    if d.initialized then (do slot ← read d.slots id; wait_loop polls) else done err_notinitialized
