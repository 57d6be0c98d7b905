-- ===== src/Runtime/Timers.antt =====
-- The timers of libruntime/timer.c, and `_optimsoc_scheduler_tick` of libruntime/scheduler.c.
use optimsoc.Prelude.{
  ℕ, zero, suc, Option, none, some, ◌==◌, if◌then◌else◌, add32, Run, done, blocked, ◌>>=◌,
}
use optimsoc.Registry.{load, update}
use optimsoc.LinkedList.{list_first_element, list_next_element}
use optimsoc.Runtime.{Runtime, Timer, Queue, new_queue, enqueue, discard}
use optimsoc.Runtime.Scheduler.{scheduler_get_current, switch}
use optimsoc.Runtime.Threads.{thread_suspend, thread_resume}

-- `timer->ticks++`
unfoldable pub count_tick : Timer → Timer
count_tick timer = record timer { ticks = add32 timer.ticks 1 }

-- The loop of `_optimsoc_timer_tick` at the timer `p` with the iterator `list_iter`. The entries that
-- resumed threads get in the ready queue are at `blocks`.
unfoldable pub timer_loop :
    (fuel : ℕ) (blocks : ℕ → ℕ) (p list_iter : ℕ) → (timers : Queue) → Runtime → Run Runtime
timer_loop zero blocks p list_iter timers s = blocked
timer_loop (suc fuel) blocks p list_iter timers s =
    let rest =
      λ (b : ℕ → ℕ) (n iter : ℕ) (q : Queue) (s' : Runtime). timer_loop fuel b n iter q s' in
    if p == 0 then done (record s { timers = some timers }) else do
      timer ← load s.timer_at p
      let timer' = count_tick timer
      let s' = record s { timer_at = update s.timer_at p (some timer') }
      (next, iter) ← list_next_element list_iter timers.entries
      if timer'.ticks == timer'.goal
          then (do
            (_, timers') ← discard fuel p timers
            s'' ← thread_resume fuel (blocks 0) timer'.thread s'
            rest (λ i. blocks (suc i)) next iter timers' s'')
          else rest blocks next iter timers s'

-- `_optimsoc_timer_tick` with the value of `_optimsoc_timers`
unfoldable pub tick_timers : (fuel : ℕ) (blocks : ℕ → ℕ) → Option Queue → Runtime → Run Runtime
tick_timers fuel blocks none s = done s
tick_timers fuel blocks (some timers) s = do
  (p, iter) ← list_first_element timers.list timers.entries
  timer_loop fuel blocks p iter timers s

-- `_optimsoc_timer_tick`
unfoldable pub timer_tick : (fuel : ℕ) (blocks : ℕ → ℕ) → Runtime → Run Runtime
timer_tick fuel blocks s = tick_timers fuel blocks s.timers s

-- The list of timers with one more.
unfoldable pub add_timer : (fresh p : ℕ) → Option Queue → Run Queue
add_timer fresh p none = done (new_queue fresh p)
add_timer fresh p (some timers) = enqueue fresh p timers

-- `optimsoc_timer_wait_ticks`: the timer is the local variable at `p`.
unfoldable pub timer_wait_ticks : (fuel timer_entry wait_entry c p wait : ℕ) → Runtime → Run Runtime
timer_wait_ticks fuel timer_entry wait_entry c p wait s = do
  t ← scheduler_get_current c s
  timers ← add_timer timer_entry p s.timers
  let timer : Timer = record { ticks = 0; goal = wait; thread = t }
  thread_suspend fuel wait_entry c t
      (record s { timers = some timers; timer_at = update s.timer_at p (some timer) })

-- `_optimsoc_scheduler_tick`: the entry of the active thread is at `blocks 0`.
unfoldable pub scheduler_tick : (fuel : ℕ) (blocks : ℕ → ℕ) (c : ℕ) → Runtime → Run Runtime
scheduler_tick fuel blocks c s = do
  s' ← timer_tick fuel (λ i. blocks (suc i)) s
  switch (blocks 0) c s'
