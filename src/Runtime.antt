-- ===== src/Runtime.antt =====
-- The state of the runtime system: the threads (libruntime/thread.h), the queues and the cores of
-- libruntime/scheduler.c, the timers of libruntime/timer.h, and the contexts of libruntime/context.c.
-- Each list of list.c has its entries in a memory of its own, the context and the list of joining
-- threads stand in the record of their thread, and a thread is the address of its control block.
pub mod Scheduler
pub mod Threads
pub mod Timers
pub mod Boot
pub mod Queues
pub mod Rotate
pub mod Rounds
pub mod Names
pub mod Prepare
pub mod Create
pub mod Suspend
pub mod Elapse
pub mod Ticks
pub mod Wakeups
pub mod Fair
use optimsoc.Prelude.{
  ℕ, suc, ◌*◌, ◌/◌, ◌%◌, ◌^◌, Bool, true, false, not, Option, none, some, List, ◌==◌, if◌then◌else◌,
  Run, done, ◌>>=◌, read, store, assert,
}
use optimsoc.Registry.{load, update}
use optimsoc.LinkedList.{
  OptimsocList, Entries, list_init, list_add_tail, list_remove_head, list_remove,
}

-- A list of list.c with its entries.
pub record Queue : Type 0 where
  pub list : OptimsocList
  pub entries : Entries

-- `optimsoc_list_init`
unfoldable pub new_queue : (fresh d : ℕ) → Queue
new_queue fresh d =
    let (l, mem) = list_init fresh d (λ _. none) in record { list = l; entries = mem }

-- `optimsoc_list_add_tail`
unfoldable pub enqueue : (fresh d : ℕ) → Queue → Run Queue
enqueue fresh d q = do
  (l, mem) ← list_add_tail fresh d q.list q.entries
  done (record { list = l; entries = mem })

-- `optimsoc_list_remove_head`
unfoldable pub dequeue : Queue → Run (ℕ × Queue)
dequeue q = do
  (d, l, mem) ← list_remove_head q.list q.entries
  done (d, record { list = l; entries = mem })

-- `optimsoc_list_remove`
unfoldable pub discard : (fuel d : ℕ) → Queue → Run (Bool × Queue)
discard fuel d q = do
  (removed, l, mem) ← list_remove fuel d q.list q.entries
  done (removed, record { list = l; entries = mem })

-- `_optimsoc_thread_ctx_t`
pub record ThreadCtx : Type 0 where
  pub regs : List ℕ
  pub pc : ℕ
  pub sr : ℕ

-- `enum optimsoc_thread_state`
pub data ThreadState : Type 0 where
  thread_runnable : ThreadState
  thread_suspended : ThreadState
  thread_terminated : ThreadState

abbrev pub is_runnable : ThreadState → Bool
is_runnable thread_runnable = true
is_runnable thread_suspended = false
is_runnable thread_terminated = false

abbrev pub is_suspended : ThreadState → Bool
is_suspended thread_runnable = false
is_suspended thread_suspended = true
is_suspended thread_terminated = false

-- `struct optimsoc_thread`. The name is a text without its final zero.
pub record Thread : Type 0 where
  pub id : ℕ
  pub ctx : ThreadCtx
  pub stack : ℕ
  pub flags : ℕ
  pub page_dir : ℕ
  pub state : ThreadState
  pub exit_code : ℕ
  pub joinlist : Queue
  pub name : List ℕ
  pub extra_data : ℕ

-- `struct _optimsoc_scheduler_core`, with the context that the last exception of the core saved
-- (`_optimsoc_exception_ctx`) and the context that the core runs in.
pub record Core : Type 0 where
  pub idle_thread : ℕ
  pub active_thread : ℕ
  pub exception_ctx : ThreadCtx
  pub running_ctx : ThreadCtx

-- `struct _optimsoc_timer_t`
pub record Timer : Type 0 where
  pub ticks : ℕ
  pub goal : ℕ
  pub thread : ℕ

-- The shared state. The list of timers is not there until the first timer.
pub record Runtime : Type 0 where
  pub all_threads : Queue
  pub ready_q : Queue
  pub wait_q : Queue
  pub threads : ℕ → Option Thread
  pub cores : List Core
  pub thread_next_id : ℕ
  pub timers : Option Queue
  pub timer_at : ℕ → Option Timer

-- The thread flags, as bits: OPTIMSOC_THREAD_FLAG_KERNEL and its kin.
abbrev pub flag_kernel : ℕ
flag_kernel = 0x20000000

abbrev pub flag_forceid : ℕ
flag_forceid = 0x40000000

abbrev pub flag_create_suspended : ℕ
flag_create_suspended = 0x10000000

-- `flags & f`, for an `f` of a single bit
abbrev pub has_flag : (flags f : ℕ) → Bool
has_flag flags f = not (flags / f % 2 == 0)

abbrev pub put_thread : (t : ℕ) → Thread → Runtime → Runtime
put_thread t th s = record s { threads = update s.threads t (some th) }

-- `_optimsoc_context_save`, called with the context of the thread `t` on the core `c`
unfoldable pub context_save : (c t : ℕ) → Runtime → Run Runtime
context_save c t s = do
  core ← read s.cores c
  th ← load s.threads t
  done (put_thread t (record th { ctx = core.exception_ctx }) s)

-- `_optimsoc_context_restore`
unfoldable pub context_restore : (c t : ℕ) → Runtime → Run Runtime
context_restore c t s = do
  core ← read s.cores c
  th ← load s.threads t
  cores ← store s.cores c (record core { exception_ctx = th.ctx })
  done (record s { cores = cores })

-- `_optimsoc_context_replace`: the core goes on in the context of `t`.
unfoldable pub context_replace : (c t : ℕ) → Runtime → Run Runtime
context_replace c t s = do
  core ← read s.cores c
  th ← load s.threads t
  cores ← store s.cores c (record core { running_ctx = th.ctx })
  done (record s { cores = cores })

-- `_optimsoc_context_enter_exception`, where it returns 1: the context is saved at this point.
unfoldable pub context_enter_exception : (c t : ℕ) → Runtime → Run Runtime
context_enter_exception c t s = do
  core ← read s.cores c
  th ← load s.threads t
  done (put_thread t (record th { ctx = core.running_ctx }) s)
