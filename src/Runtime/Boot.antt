-- ===== src/Runtime/Boot.antt =====
-- The start-up of the scheduler: `_optimsoc_scheduler_init` and `_optimsoc_scheduler_start` of
-- libruntime/scheduler.c. The timer registers of the processor are left out.
use optimsoc.Prelude.{ℕ, zero, suc, some, Option, List, replicate, Run, done, ◌>>=◌, read, store}
use optimsoc.Sync.{Cas}
use optimsoc.Runtime.{
  Runtime, Thread, ThreadCtx, Core, new_queue, discard, flag_kernel, context_replace,
}
use optimsoc.Runtime.Scheduler.{scheduler_get_current, schedule}
use optimsoc.Runtime.Threads.{ThreadAttr, CreateBlocks, thread_attr_init, thread_create}

-- What the start-up is given: the memory that `malloc` returns, by the number of the thread that is
-- created, the addresses of functions and of the identifiers "init" and "idle", and what other cores
-- do to the next id.
pub record BootEnv : Type 0 where
  pub blocks : ℕ → CreateBlocks
  pub raw : ℕ → Thread
  pub attr_block : ThreadAttr
  pub rounds : List (ℕ → ℕ)
  pub texts : ℕ → Option (List ℕ)
  pub kthread_handle : ℕ
  pub init : ℕ
  pub idle_thread_func : ℕ
  pub init_text : ℕ
  pub idle_text : ℕ

-- The attributes of the threads "init" and "idle".
unfoldable pub kernel_attr : (attr_block : ThreadAttr) (identifier : ℕ) → ThreadAttr
kernel_attr attr_block identifier = record (thread_attr_init attr_block) {
  flags = flag_kernel;
  identifier = identifier;
}

-- The `k`-th thread that the start-up creates.
unfoldable pub create_kernel :
    ⦃cpu : Cas⦄ → BootEnv → (k start identifier : ℕ) → Runtime → Run (ℕ × Runtime)
create_kernel env k start identifier s =
    thread_create (env.blocks k) (env.raw k) env.attr_block env.rounds env.texts env.kthread_handle
      start (some (kernel_attr env.attr_block identifier)) s

-- The loop over the cores, from the core `c` on: each gets an idle thread, which no queue has.
unfoldable pub idle_loop : ⦃cpu : Cas⦄ → BootEnv → (fuel count c : ℕ) → Runtime → Run Runtime
idle_loop env fuel zero c s = done s
idle_loop env fuel (suc count) c s =
    let rest = λ (s' : Runtime). idle_loop env fuel count (suc c) s' in
    do
      (t, s1) ← create_kernel env (suc c) env.idle_thread_func env.idle_text s
      core ← read s1.cores c
      cores ← store s1.cores c (record core { idle_thread = t })
      (_, ready) ← discard fuel t s1.ready_q
      (_, all) ← discard fuel t s1.all_threads
      rest (record s1 { cores = cores; ready_q = ready; all_threads = all })

-- `calloc` of the scheduler's part of a core
abbrev blank_ctx : ThreadCtx
blank_ctx = record { regs = replicate 32 0; pc = 0; sr = 0 }

abbrev blank_core : Core
blank_core = record {
  idle_thread = 0;
  active_thread = 0;
  exception_ctx = blank_ctx;
  running_ctx = blank_ctx;
}

-- `_optimsoc_scheduler_init`
unfoldable pub scheduler_init : ⦃cpu : Cas⦄ → BootEnv → (fuel numcores : ℕ) → Runtime → Run Runtime
scheduler_init env fuel numcores s = do
  (t, s') ←
      create_kernel env 0 env.init env.init_text
        (record s { wait_q = new_queue 0 0; ready_q = new_queue 0 0; all_threads = new_queue 0 0 })
  idle_loop env fuel numcores 0 (record s' { cores = replicate numcores blank_core })

-- `_optimsoc_scheduler_start` on the core `c`
unfoldable pub scheduler_start : (c : ℕ) → Runtime → Run Runtime
scheduler_start c s = do s' ← schedule c s; t ← scheduler_get_current c s'; context_replace c t s'
