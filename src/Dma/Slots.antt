-- ===== src/Dma/Slots.antt =====
-- Which slots are in use.
use optimsoc.Prelude.{
  sym, lt_of_get_elem?, length-set, ℕ, zero, suc, ◌≡◌, ◌≢◌, ◌<◌, refl, ap, ◌∙◌, Bool, true, false,
  Option, none, some, List, [], ◌∷◌, arith, ltb, ◌==◌, if◌then◌else◌, length, set, get_elem?,
  lt→ltb, done,
}
use optimsoc.Dma.{
  Dma, DmaSlot, success, slot_free, slot_alloc, alloc_slot, granted_slot, err_notinitialized,
  dma_free_started, dma_alloc, dma_free, dma_slots,
}

-- The first slot that is free is marked.
alloc_slot_lem :
    (slots : List DmaSlot) (k : ℕ) (s : DmaSlot)
    → get_elem? slots k ≡ some s
    → s.flag ≡ slot_free
    → ((j : ℕ) (t : DmaSlot) → j < k → get_elem? slots j ≡ some t → t.flag ≢ slot_free)
    → alloc_slot slots
      ≡ (some (record s { flag = slot_alloc }), set slots k (record s { flag = slot_alloc }))
unfolding alloc_slot
alloc_slot_lem [] k s here free first = absurd (cc)
alloc_slot_lem (t ∷ slots) zero s here free first =
    let same : t ≡ s = cc in
    let on : (t.flag == slot_free) ≡ true = ground (arith, ap DmaSlot.flag same) in
    rw on (
      ap
        (λ (u : DmaSlot).
          (some (record u { flag = slot_alloc }), record u { flag = slot_alloc } ∷ slots))
        same)
alloc_slot_lem (t ∷ slots) (suc k) s here free first =
    let taken : (t.flag == slot_free) ≡ false = ground (arith, first 0 t (omega arith) refl) in
    let rest = alloc_slot_lem slots k s here free (λ j u h e. first (suc j) u (omega arith) e) in
    rw (taken, rest) refl

set-set :
    (slots : List DmaSlot) (k : ℕ) (s w : DmaSlot)
    → get_elem? slots k ≡ some s
    → set (set slots k w) k s ≡ slots
set-set [] k s w here = refl
set-set (t ∷ slots) zero s w here = let same : s ≡ t = cc in ap (λ (u : DmaSlot). u ∷ slots) same
set-set (t ∷ slots) (suc k) s w here = ap (λ (u : List DmaSlot). t ∷ u) (set-set slots k s w here)

get_elem?-set_here :
    (slots : List DmaSlot) (k : ℕ) (s w : DmaSlot)
    → get_elem? slots k ≡ some s
    → get_elem? (set slots k w) k ≡ some w
get_elem?-set_here [] k s w here = absurd (cc)
get_elem?-set_here (t ∷ slots) zero s w here = refl
get_elem?-set_here (t ∷ slots) (suc k) s w here = get_elem?-set_here slots k s w here

-- The driver is initialized, and each of its slots has its position as number.
pub record IsReady (d : Dma) : Type 0 where
  pub started : d.initialized ≡ true
  pub four : length d.slots ≡ dma_slots
  pub numbered : (i : ℕ) (s : DmaSlot) → get_elem? d.slots i ≡ some s → s.id ≡ i

-- In an initialized driver allocation takes the first free slot, and freeing that slot gives back the state before.
pub dma_alloc-dma_free :
    {d : Dma}
    → IsReady d
    → (k : ℕ) (s : DmaSlot) → get_elem? d.slots k ≡ some s
    → s.flag ≡ slot_free
    → ((j : ℕ) (t : DmaSlot) → j < k → get_elem? d.slots j ≡ some t → t.flag ≢ slot_free)
    → (d' : Dma) × (dma_alloc d ≡ (success, some k, d')) × (dma_free k d' ≡ done (success, d))
unfolding dma_alloc dma_free dma_free_started
dma_alloc-dma_free {d} v k s here free first =
    let taken : DmaSlot = record s { flag = slot_alloc } in
    let slots' = set d.slots k taken in
    let inside : ltb k dma_slots ≡ true =
      lt→ltb k dma_slots (omega (arith, lt_of_get_elem? d.slots k here, v.four)) in
    let held : ltb k (length slots') ≡ true =
      lt→ltb k (length slots')
        (omega (arith, lt_of_get_elem? d.slots k here, length-set d.slots k taken)) in
    let whole : record s { flag = slot_free } ≡ s =
      ap (λ (f : ℕ). record s { flag = f }) (sym free) in
    (
      record d { slots = slots' },
      ap
            (λ (b : Bool).
              if b then granted_slot (alloc_slot d.slots) d else (err_notinitialized, none, d))
            v.started
          ∙ ap (λ (r : Option DmaSlot × List DmaSlot). granted_slot r d)
              (alloc_slot_lem d.slots k s here free first)
          ∙ ap (λ (n : ℕ). (success, some n, record d { slots = slots' })) (v.numbered k s here),
      ap
            (λ (b : Bool).
              if b
              then dma_free_started k (record d { slots = slots' })
              else done (err_notinitialized, record d { slots = slots' }))
            v.started
          ∙ rw
              (
                inside,
                get_elem?-set_here d.slots k s taken here,
                held,
                whole,
                set-set d.slots k s taken here,
              )
              refl,
    )
