-- ===== src/PagePool/Fill.antt =====
-- Filling and emptying the pool of pages of gzll-kernel/src/page.c.
use mathlib.Core.List.{append-nil, append_assoc}
use optimsoc.Prelude.{
  ℕ, zero, suc, ◌+◌, ◌*◌, ◌/◌, ◌^◌, ◌≡◌, ◌<◌, ◌≤◌, refl, ap, ◌∙◌, true, false, List, [], ◌∷◌, ◌++◌,
  leb, add32, tabulate_from, arith, Run, done, ◌>>=◌,
}
use optimsoc.Runtime.{Queue, new_queue, enqueue}
use optimsoc.Runtime.Queues.{Holds, new_queue-Holds, enqueue-Holds, dequeue-Holds, dequeue-empty}
use optimsoc.Runtime.Elapse.{AreFree}
use optimsoc.Runtime.Ticks.{later}
use optimsoc.Runtime.Wakeups.{AreFree-later}
use optimsoc.PagePool.{start_page, end_page, page_loop, paging_init, page_alloc}

-- `n` pages from `p` on
abbrev pub pages_from : (p n : ℕ) → List ℕ
pages_from p n = tabulate_from (λ k. k) p n

page_loop-step :
    (fuel : ℕ) (blocks : ℕ → ℕ) (p last : ℕ) (q q' : Queue)
    → p ≤ last
    → enqueue (blocks 0) p q ≡ done q'
    → page_loop (suc fuel) blocks p last q ≡ page_loop fuel (later blocks) (add32 p 1) last q'
unfolding page_loop
page_loop-step fuel blocks p last q q' h added =
    let within : leb p last ≡ true = ground arith in rw (within, added) refl

page_loop_lem :
    (n fuel b : ℕ) (blocks : ℕ → ℕ) (p last : ℕ) (q : Queue) (ts : List ℕ)
    → p + n ≡ suc last
    → suc last < 2 ^ 32
    → n < fuel
    → Holds b q ts
    → AreFree blocks q
    → (q' : Queue) × (b' : ℕ) × (page_loop fuel blocks p last q ≡ done q')
      × Holds b' q' (ts ++ pages_from p n)
unfolding page_loop
page_loop_lem n zero b blocks p last q ts bound small enough v free = absurd (omega arith)
page_loop_lem zero (suc fuel) b blocks p last q ts bound small enough v free =
    let over : leb p last ≡ false = ground arith in (q, b, rw over refl, rw append-nil v)
page_loop_lem (suc n) (suc fuel) b blocks p last q ts bound small enough v free =
    let next : add32 p 1 ≡ suc p = omega arith in
    let (q1, b1, added, kept, v1) = enqueue-Holds v (blocks 0) p (free.nonzero 0) (free.unused 0) in
    let (q2, b2, run, v2) =
      page_loop_lem n fuel b1 (later blocks) (suc p) last q1 (ts ++ (p ∷ [])) (omega arith) small
        (omega arith) v1 (AreFree-later blocks p q q1 free added) in
    (
      q2,
      b2,
      page_loop-step fuel blocks p last q q1 (omega arith) added
          ∙ ap (λ k. page_loop fuel (later blocks) k last q1) next
          ∙ run,
      rw append_assoc at v2,
    )

-- Allocating `n` times.
abbrev pub alloc_pages : (n : ℕ) → Queue → Run (List ℕ)
alloc_pages zero pool = done []
alloc_pages (suc n) pool = do
  (page, pool') ← page_alloc pool
  pages ← alloc_pages n pool'
  done (page ∷ pages)

alloc_pages_lem :
    (n p b : ℕ) (q : Queue)
    → Holds b q (pages_from p n)
    → alloc_pages (suc n) q ≡ done (pages_from p n ++ (0 ∷ []))
unfolding page_alloc
alloc_pages_lem zero p b q v = rw (dequeue-empty v) refl
alloc_pages_lem (suc n) p b q v =
    let (q', b', taken, v') = dequeue-Holds v in rw (taken, alloc_pages_lem n (suc p) b' q' v') refl

fill-alloc :
    (n fuel p last : ℕ) (blocks : ℕ → ℕ)
    → p + n ≡ suc last
    → suc last < 2 ^ 32
    → n < fuel
    → AreFree blocks (new_queue 0 0)
    → (page_loop fuel blocks p last (new_queue 0 0) >>= alloc_pages (suc n))
      ≡ done (pages_from p n ++ (0 ∷ []))
fill-alloc n fuel p last blocks bound small enough free =
    let (q, b, run, v) =
      page_loop_lem n fuel 0 blocks p last (new_queue 0 0) [] bound small enough (new_queue-Holds 0)
        free in
    ap (λ m. m >>= alloc_pages (suc n)) run ∙ alloc_pages_lem n p b q v

-- A pool of `n` pages gives out each of them once, from the first on, and then 0. The stack lies above
-- the first page and the addresses do not wrap around, the loop may make one step more than there are
-- pages, and the entries of the list are at addresses that are not in use.
pub paging_init-page_alloc :
    (n fuel apps_end stack_bottom : ℕ) (blocks : ℕ → ℕ)
    → apps_end + 40 * 8192 + 8191 < 2 ^ 32
    → stack_bottom < 2 ^ 32
    → (apps_end + 40 * 8192 + 8191) / 2 ^ 13 + n ≡ stack_bottom / 2 ^ 13
    → n < fuel
    → AreFree blocks (new_queue 0 0)
    → (paging_init fuel blocks apps_end stack_bottom >>= alloc_pages (suc n))
      ≡ done (pages_from ((apps_end + 40 * 8192 + 8191) / 2 ^ 13) n ++ (0 ∷ []))
unfolding paging_init start_page end_page
paging_init-page_alloc n fuel apps_end stack_bottom blocks fits small count enough free =
    let first : start_page apps_end ≡ (apps_end + 40 * 8192 + 8191) / 2 ^ 13 = omega arith in
    let last : suc (end_page stack_bottom) ≡ stack_bottom / 2 ^ 13 = omega arith in
    ap
      (λ p. page_loop fuel blocks p (end_page stack_bottom) (new_queue 0 0) >>= alloc_pages (suc n))
      first
    ∙ fill-alloc n fuel ((apps_end + 40 * 8192 + 8191) / 2 ^ 13) (end_page stack_bottom) blocks
        (omega arith) (omega arith) enough free
