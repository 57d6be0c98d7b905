-- ===== src/Tests/Threads.antt =====
-- A core with two ready threads, one that waits for a timer, and its idle thread.
use optimsoc.Prelude.{
  ℕ, ◌+◌, ◌≡◌, ◌≢◌, refl, inl, true, false, none, some, [], ◌∷◌, arith, done, fault, ◌>>=◌,
  replicate,
}
use optimsoc.Registry.{update}
use optimsoc.LinkedList.{ListEntry, OptimsocList, Entries, list_init, list_remove}
use optimsoc.LinkedList.Linked.{IsLinked}
use optimsoc.LinkedList.Unlink.{list_remove-IsLinked}
use optimsoc.Runtime.{
  Runtime, Thread, ThreadCtx, Core, Timer, Queue, thread_runnable, thread_suspended, new_queue,
  flag_kernel,
}
use optimsoc.Runtime.Threads.{
  ThreadAttr, CreateBlocks, thread_create, thread_suspend, thread_resume,
}
use optimsoc.Runtime.Timers.{timer_tick, scheduler_tick}
use optimsoc.Runtime.Queues.{Holds, new_queue-Holds}
use optimsoc.Runtime.Rotate.{Scheduled, Restores}
use optimsoc.Runtime.Elapse.{AreFree}
use optimsoc.Runtime.Ticks.{Elapsed}
use optimsoc.Runtime.Wakeups.{timer_tick_lem}
use optimsoc.Runtime.Fair.{
  TimersReady, some_timers, scheduler_tick_lem, no_tick, a_tick, IsRunning, round_robin,
}
use optimsoc.Runtime.Suspend.{suspend-resume}
use optimsoc.Runtime.Prepare.{Prepared}
use optimsoc.Runtime.Create.{Entered, thread_create_lem, thread_create-unnamed}
use optimsoc.Tests.Messages.{plain_cas}

abbrev some_ctx : (pc : ℕ) → ThreadCtx
some_ctx pc = record { regs = replicate 32 0; pc = pc; sr = 0x8017 }

abbrev pub a_thread : (id : ℕ) → Thread
a_thread id = record {
  id = id;
  ctx = some_ctx (0x1000 + id);
  stack = 0;
  flags = flag_kernel;
  page_dir = 0;
  state = thread_runnable;
  exit_code = 0;
  joinlist = new_queue 0 0;
  name = [];
  extra_data = 0;
}

abbrev sleeper : Thread
sleeper = record (a_thread 5) { state = thread_suspended }

abbrev only_entry : (d : ℕ) → ListEntry
only_entry d = record { data_ptr = d; next = 0; prev = 0 }

abbrev pub one_queue : (a d : ℕ) → Queue
one_queue a d = record {
  list = record { head = a; tail = a };
  entries = update (λ _. none) a (some (only_entry d));
}

abbrev first_ready : ListEntry
first_ready = record { data_ptr = 48; next = 1016; prev = 0 }

abbrev last_ready : ListEntry
last_ready = record { data_ptr = 64; next = 0; prev = 1000 }

abbrev pub two_ready : Queue
two_ready = record {
  list = record { head = 1000; tail = 1016 };
  entries = update (update (λ _. none) 1000 (some first_ready)) 1016 (some last_ready);
}

abbrev the_core : Core
the_core = record {
  idle_thread = 16;
  active_thread = 32;
  exception_ctx = some_ctx 7;
  running_ctx = some_ctx 8;
}

abbrev a_timer : Timer
a_timer = record { ticks = 2; goal = 3; thread = 80 }

abbrev pub at_work : Runtime
at_work = record {
  all_threads = new_queue 0 0;
  ready_q = two_ready;
  wait_q = one_queue 2000 80;
  threads =
      update
        (update
          (update (update (update (λ _. none) 16 (some (a_thread 1))) 32 (some (a_thread 2))) 48
            (some (a_thread 3)))
          64 (some (a_thread 4)))
        80 (some sleeper);
  cores = the_core ∷ [];
  thread_next_id = 6;
  timers = some (one_queue 3000 800);
  timer_at = update (λ _. none) 800 (some a_timer);
}

pub one_queue-Holds : (a d : ℕ) → a ≢ 0 → Holds 0 (one_queue a d) (d ∷ [])
unfolding update
one_queue-Holds a d ne = record {
  entries = (a, d) ∷ [];
  linked = record {
    linked = (refl, ne, only_entry d, ground arith, refl, refl, refl);
    tail_last = refl;
    distinct = (tt, tt);
  };
  same = refl;
}

two_ready-IsLinked : IsLinked two_ready.list ((1000, 48) ∷ (1016, 64) ∷ []) two_ready.entries 0
unfolding update
two_ready-IsLinked = record {
  linked = (
    refl,
    omega arith,
    first_ready,
    refl,
    refl,
    refl,
    (refl, omega arith, last_ready, refl, refl, refl, refl),
  );
  tail_last = refl;
  distinct = ((omega arith, tt), (tt, tt));
}

pub two_ready-Holds : Holds 0 two_ready (48 ∷ 64 ∷ [])
two_ready-Holds = record {
  entries = (1000, 48) ∷ (1016, 64) ∷ [];
  linked = two_ready-IsLinked;
  same = refl;
}

at_work-Scheduled : Scheduled at_work 0 32 16 (48 ∷ 64 ∷ [])
unfolding update
at_work-Scheduled = record {
  core = the_core;
  core_at = refl;
  is_active = refl;
  is_idle = refl;
  back = 0;
  ready = two_ready-Holds;
  active_thread = (omega arith, a_thread 2, refl);
  idle_thread = (omega arith, a_thread 1, refl);
  ready_threads = ((omega arith, a_thread 3, refl), ((omega arith, a_thread 4, refl), tt));
}

abbrev new_blocks : ℕ → ℕ
new_blocks i = 5000 + i

new_blocks-AreFree : AreFree new_blocks at_work.ready_q
unfolding update
new_blocks-AreFree = record {
  nonzero = λ i. omega arith;
  unused = λ i. ground arith;
  distinct = λ i j ne. omega arith;
}

at_work-TimersReady : TimersReady at_work 8 (80 ∷ [])
unfolding update
at_work-TimersReady =
    some_timers (one_queue 3000 800) (800 ∷ []) (80 ∷ []) refl
      (one_queue-Holds 3000 800 (omega arith)) (omega arith, tt, (a_timer, refl), tt)
      (one_queue-Holds 2000 80 (omega arith)) (omega arith, inl refl, tt, (sleeper, refl, refl), tt)
      (omega arith)

list_remove-IsLinked_example :
    (l' : OptimsocList) × (mem' : Entries) × (list_remove 2 64 two_ready.list two_ready.entries
      ≡ done (true, l', mem'))
    × IsLinked l' ((1000, 48) ∷ []) mem' 0
list_remove-IsLinked_example =
    list_remove-IsLinked 1016 64 0 2 ((1000, 48) ∷ []) [] two_ready-IsLinked (omega arith, tt)
      (inl refl) (omega arith)

timer_tick_lem_example :
    (s' : Runtime) × (timer_tick 8 new_blocks at_work ≡ done s')
    × Elapsed at_work s' new_blocks [] (800 ∷ []) (48 ∷ 64 ∷ []) (80 ∷ [])
unfolding update
timer_tick_lem_example =
    timer_tick_lem 8 0 at_work new_blocks (one_queue 3000 800) (800 ∷ []) (48 ∷ 64 ∷ []) (80 ∷ [])
      refl (one_queue-Holds 3000 800 (omega arith)) (omega arith, tt, (a_timer, refl), tt)
      two_ready-Holds (one_queue-Holds 2000 80 (omega arith))
      (omega arith, inl refl, tt, (sleeper, refl, refl), tt) new_blocks-AreFree (omega arith)

scheduler_tick_lem_example :
    (s' : Runtime) × (scheduler_tick 8 new_blocks 0 at_work ≡ done s')
    × Scheduled s' 0 48 16 (64 ∷ 80 ∷ 32 ∷ [])
    × Restores s' 0 48
scheduler_tick_lem_example =
    scheduler_tick_lem 8 new_blocks 0 32 16 (48 ∷ 64 ∷ []) (80 ∷ []) at_work at_work-Scheduled
      new_blocks-AreFree at_work-TimersReady

one_tick :
    (s' : Runtime) × (scheduler_tick 8 new_blocks 0 at_work ≡ done s')
    × Scheduled s' 0 48 16 (64 ∷ 80 ∷ 32 ∷ [])
    × Restores s' 0 48
one_tick =
    scheduler_tick_lem 8 new_blocks 0 32 16 (48 ∷ 64 ∷ []) (80 ∷ []) at_work at_work-Scheduled
      new_blocks-AreFree at_work-TimersReady

abbrev after_tick : Runtime
after_tick = one_tick.0

round_robin_example : IsRunning after_tick 0 48
round_robin_example =
    round_robin 0 0 32 16 (48 ∷ 64 ∷ []) at_work-Scheduled refl
      (a_tick 8 new_blocks (80 ∷ []) new_blocks-AreFree at_work-TimersReady one_tick.1 no_tick)

suspend-resume_example :
    (s' : Runtime) × (b' : ℕ) × ((thread_suspend 8 6000 0 64 at_work >>= thread_resume 8 7000 64)
      ≡ done s')
    × Holds b' s'.ready_q (48 ∷ 64 ∷ [])
    × Holds 0 s'.wait_q (80 ∷ [])
    × ((u : ℕ) → s'.threads u ≡ at_work.threads u)
unfolding update
suspend-resume_example =
    suspend-resume at_work 8 6000 7000 0 64 0 the_core (a_thread 4) (48 ∷ []) [] (80 ∷ []) refl
      (omega arith) (omega arith) two_ready-Holds (omega arith, tt) (inl refl)
      (one_queue-Holds 2000 80 (omega arith)) (omega arith, tt) (omega arith) refl refl
      (omega arith) refl (omega arith) refl (omega arith) (omega arith)

abbrev create_blocks : CreateBlocks
create_blocks = record {
  control_block = 96;
  stack_block = 8192;
  queue_entry = 6000;
  all_entry = 6016;
}

abbrev pub named_attr : ThreadAttr
named_attr = record {
  args = 9;
  flags = flag_kernel;
  force_id = 0;
  identifier = 400;
  extra_data = 0;
}

thread_create_lem_example :
    (s' : Runtime) × (th : Thread) × (thread_create create_blocks
        (a_thread 0)
        named_attr
        ((λ w. w) ∷ [])
        (λ _. none)
        0x100
        0x200
        (some named_attr)
        at_work
      ≡ done (96, s'))
    × (s'.thread_next_id ≡ 7)
    × Prepared 8192 0x100 0x200 6 named_attr th
    × Entered at_work s' 96 th false (48 ∷ 64 ∷ []) (80 ∷ []) []
unfolding update new_queue list_init
thread_create_lem_example =
    thread_create_lem at_work create_blocks (a_thread 0) named_attr named_attr [] (λ _. none) 0x100
      0x200 0 (48 ∷ 64 ∷ []) (80 ∷ []) [] refl (omega arith) (omega arith) (omega arith) refl
      two_ready-Holds (one_queue-Holds 2000 80 (omega arith)) (new_queue-Holds 0) (omega arith) refl
      refl (omega arith) refl

thread_create-unnamed_example :
    thread_create create_blocks
      (a_thread 0)
      named_attr
      ((λ w. w) ∷ [])
      (λ _. none)
      0x100
      0x200
      none
      at_work
    ≡ fault
thread_create-unnamed_example =
    thread_create-unnamed at_work create_blocks (a_thread 0) named_attr none [] (λ _. none) 0x100
      0x200 (inl refl)
