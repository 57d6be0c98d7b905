-- ===== src/Runtime/Scheduler.antt =====
-- The scheduler: libruntime/scheduler.c, without its start-up (Runtime.Boot) and its tick
-- (Runtime.Timers).
use optimsoc.Prelude.{ℕ, not, ◌==◌, if◌then◌else◌, Run, done, ◌>>=◌, read, store, assert}
use optimsoc.Registry.{load}
use optimsoc.Runtime.{
  Runtime, thread_runnable, enqueue, dequeue, put_thread, context_save, context_restore,
}

-- `_optimsoc_scheduler_get_current` on the core `c`
unfoldable pub scheduler_get_current : (c : ℕ) → Runtime → Run ℕ
scheduler_get_current c s = do
  core ← read s.cores c
  assert (not (core.active_thread == 0)) (done core.active_thread)

-- The two queues that `_optimsoc_scheduler_add` is called with.
pub data QueueName : Type 0 where
  to_ready : QueueName
  to_wait : QueueName

-- `_optimsoc_scheduler_add`: `fresh` is the address of the new entry.
unfoldable pub scheduler_add : (fresh t : ℕ) → QueueName → Runtime → Run Runtime
scheduler_add fresh t to_ready s = do
  th ← load s.threads t
  q ← enqueue fresh t s.ready_q
  done (record (put_thread t (record th { state = thread_runnable }) s) { ready_q = q })
scheduler_add fresh t to_wait s = do q ← enqueue fresh t s.wait_q; done (record s { wait_q = q })

-- `_optimsoc_schedule` on the core `c`
unfoldable pub schedule : (c : ℕ) → Runtime → Run Runtime
schedule c s = do
  (t, q) ← dequeue s.ready_q
  core ← read s.cores c
  let next = if t == 0 then core.idle_thread else t
  cores ← assert (not (next == 0)) (store s.cores c (record core { active_thread = next }))
  context_restore c next (record s { ready_q = q; cores = cores })

-- `_optimsoc_scheduler_tick` after the timers: save the context, put the active thread into the
-- queue unless it is the idle thread, and schedule.
unfoldable pub switch : (fresh c : ℕ) → Runtime → Run Runtime
switch fresh c s = do
  core ← read s.cores c
  s' ← context_save c core.active_thread s
  s'' ←
      if core.active_thread == core.idle_thread
      then done s'
      else scheduler_add fresh core.active_thread to_ready s'
  schedule c s''
