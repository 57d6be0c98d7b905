-- ===== src/PagePool.antt =====
-- The pool of local pages of the gzll kernel: gzll-kernel/src/page.c. The page fault handlers, which end
-- the kernel, and the output are left out.
pub mod Fill
use optimsoc.Prelude.{
  ℕ, zero, suc, ◌+◌, ◌*◌, ◌/◌, ◌^◌, leb, if◌then◌else◌, add32, sub32, Run, done, blocked, ◌>>=◌,
}
use optimsoc.Runtime.{Queue, new_queue, enqueue, dequeue}

-- The bounds of the pool, from the end of the applications' image and the bottom of the stack.
unfoldable pub start_page : (apps_end : ℕ) → ℕ
start_page apps_end = add32 (add32 apps_end (40 * 8192)) 8191 / 2 ^ 13

unfoldable pub end_page : (stack_bottom : ℕ) → ℕ
end_page stack_bottom = sub32 (stack_bottom / 2 ^ 13) 1

-- The loop of `gzll_paging_init` from the page `p` on: the entries of the list are at `blocks`.
unfoldable pub page_loop : (fuel : ℕ) (blocks : ℕ → ℕ) (p last : ℕ) → Queue → Run Queue
page_loop zero blocks p last pool = blocked
page_loop (suc fuel) blocks p last pool =
    let rest = λ (pool' : Queue). page_loop fuel (λ i. blocks (suc i)) (add32 p 1) last pool' in
    if leb p last then (do pool' ← enqueue (blocks 0) p pool; rest pool') else done pool

-- `gzll_paging_init`
unfoldable pub paging_init : (fuel : ℕ) (blocks : ℕ → ℕ) (apps_end stack_bottom : ℕ) → Run Queue
paging_init fuel blocks apps_end stack_bottom =
    page_loop fuel blocks (start_page apps_end) (end_page stack_bottom) (new_queue 0 0)

-- `gzll_page_alloc`: the page, or 0 where there is none left.
unfoldable pub page_alloc : Queue → Run (ℕ × Queue)
page_alloc pool = dequeue pool
