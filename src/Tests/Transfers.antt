-- ===== src/Tests/Transfers.antt =====
-- A driver with its first slot in use.
use optimsoc.Prelude.{
  ℕ, zero, suc, ◌≡◌, ◌≢◌, ◌<◌, refl, true, some, List, [], ◌∷◌, arith, get_elem?, done,
}
use optimsoc.Dma.{Dma, DmaSlot, success, slot_free, dma_alloc, dma_free}
use optimsoc.Dma.Slots.{IsReady, dma_alloc-dma_free}

abbrev one_used : List DmaSlot
one_used =
    record { flag = 1; id = 0 }
    ∷ record { flag = 0; id = 1 }
    ∷ record { flag = 0; id = 2 }
    ∷ record { flag = 0; id = 3 }
    ∷ []

one_used-numbered : (i : ℕ) (s : DmaSlot) → get_elem? one_used i ≡ some s → s.id ≡ i
one_used-numbered zero s h = ground (arith, h)
one_used-numbered (suc zero) s h = ground (arith, h)
one_used-numbered (suc (suc zero)) s h = ground (arith, h)
one_used-numbered (suc (suc (suc zero))) s h = ground (arith, h)
one_used-numbered (suc (suc (suc (suc i)))) s h = absurd (cc)

abbrev busy : Dma
busy = record { initialized = true; slots = one_used }

busy-IsReady : IsReady busy
busy-IsReady = record { started = refl; four = refl; numbered = one_used-numbered }

first_used : (j : ℕ) (t : DmaSlot) → j < 1 → get_elem? one_used j ≡ some t → t.flag ≢ slot_free
first_used zero t h e = ground (arith, e)
first_used (suc j) t h e = absurd (omega arith)

dma_alloc-dma_free_example :
    (d' : Dma) × (dma_alloc busy ≡ (success, some 1, d')) × (dma_free 1 d' ≡ done (success, busy))
dma_alloc-dma_free_example =
    dma_alloc-dma_free busy-IsReady 1 (record { flag = 0; id = 1 }) refl refl first_used
