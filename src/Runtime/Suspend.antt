-- ===== src/Runtime/Suspend.antt =====
-- Suspending and resuming threads that do not run: `optimsoc_thread_suspend`, `optimsoc_thread_resume`
-- of libruntime/thread.c.
use mathlib.Core.List.{append-nil}
use optimsoc.Prelude.{
  ℕ, ◌≡◌, ◌≢◌, ◌<◌, refl, ap, sym, ◌⊎◌, inl, inr, true, false, none, some, List, [], ◌∷◌, ◌++◌,
  ◌==◌, length, get_elem?, arith, Bool-cases, done, ◌>>=◌,
}
use optimsoc.Registry.{load, update}
use optimsoc.Runtime.{
  Runtime, Thread, Core, Queue, ThreadState, thread_runnable, thread_suspended, is_runnable,
  is_suspended, enqueue, discard, put_thread,
}
use optimsoc.Runtime.Scheduler.{scheduler_get_current}
use optimsoc.Runtime.Threads.{thread_suspend, thread_resume, put_to_wait}
use optimsoc.Runtime.Queues.{Holds, NotIn, enqueue-Holds, discard-Holds, discard-unused}

-- The state after a thread has changed its queue and its state.
abbrev pub moved : Runtime → (t : ℕ) → Thread → ThreadState → (ready wait : Queue) → Runtime
moved s t th state ready wait = record (put_thread t (record th { state = state }) s) {
  ready_q = ready;
  wait_q = wait;
}

-- Resuming a suspended thread takes it out of the waiting ones, puts it behind the ready ones and
-- makes it runnable. The new entry is at an address that the ready queue does not use, and the search
-- may make more steps than threads stand before.
pub thread_resume_lem :
    (s : Runtime) (fuel fresh t b b' : ℕ) (th : Thread) (ts us vs : List ℕ)
    → Holds b s.ready_q ts
    → Holds b' s.wait_q (us ++ (t ∷ vs))
    → NotIn t us
    → (b' ≡ 0) ⊎ ((us ≢ []) ⊎ (vs ≡ []))
    → t ≢ 0
    → s.threads t ≡ some th
    → th.state ≡ thread_suspended
    → fresh ≢ 0
    → s.ready_q.entries fresh ≡ none
    → length us < fuel
    → (ready : Queue) × (wait : Queue) × (back : ℕ) × (thread_resume fuel fresh t s
        ≡ done (moved s t th thread_runnable ready wait))
      × (enqueue fresh t s.ready_q ≡ done ready)
      × Holds back ready (ts ++ (t ∷ []))
      × Holds b' wait (us ++ vs)
unfolding thread_resume load
thread_resume_lem s fuel fresh t b b' th ts us vs ready wait out ok ne there suspended nonzero free
      enough =
    let off : (t == 0) ≡ false = ground arith in
    let test : is_suspended th.state ≡ true = ap is_suspended suspended in
    let (w, taken, wait') = discard-Holds us t vs wait out ok fuel enough in
    let (q, back, added, kept, ready') = enqueue-Holds ready fresh t nonzero free in
    (q, w, back, rw (off, there, test, taken, added) refl, added, ready', wait')

-- Suspending a ready thread takes it out of the ready queue, puts it behind the waiting ones and
-- makes it suspended, where another thread runs on the core. If the first entry of the ready queue
-- points back to a freed one, the thread is not the first, or it is the only one.
pub thread_suspend_lem :
    (s : Runtime) (fuel fresh c t b b' : ℕ) (core : Core) (th : Thread) (us vs ws : List ℕ)
    → get_elem? s.cores c ≡ some core
    → core.active_thread ≢ 0
    → t ≢ core.active_thread
    → Holds b s.ready_q (us ++ (t ∷ vs))
    → NotIn t us
    → (b ≡ 0) ⊎ ((us ≢ []) ⊎ (vs ≡ []))
    → Holds b' s.wait_q ws
    → t ≢ 0
    → s.threads t ≡ some th
    → th.state ≡ thread_runnable
    → fresh ≢ 0
    → s.wait_q.entries fresh ≡ none
    → length us < fuel
    → (ready : Queue) × (wait : Queue) × (back : ℕ) × (thread_suspend fuel fresh c t s
        ≡ done (moved s t th thread_suspended ready wait))
      × (discard fuel t s.ready_q ≡ done (true, ready))
      × Holds b ready (us ++ vs)
      × (b' ≡ 0 → back ≡ 0)
      × Holds back wait (ws ++ (t ∷ []))
unfolding thread_suspend put_to_wait scheduler_get_current load
thread_suspend_lem s fuel fresh c t b b' core th us vs ws at running other ready out ok wait ne
      there runnable nonzero free enough =
    let off : (t == 0) ≡ false = ground arith in
    let some_core : (core.active_thread == 0) ≡ false = ground arith in
    let differs : (t == core.active_thread) ≡ false = ground arith in
    let test : is_runnable th.state ≡ true = ap is_runnable runnable in
    let (q, taken, ready') = discard-Holds us t vs ready out ok fuel enough in
    let (w, back, added, kept, wait') = enqueue-Holds wait fresh t nonzero free in
    (
      q,
      w,
      back,
      rw (off, there, test, at, some_core, differs, taken, added) refl,
      taken,
      ready',
      kept,
      wait',
    )

-- A ready thread that another thread suspends and resumes is ready as before, behind the others: the
-- waiting threads and all thread records are what they were. If the first entry of the ready queue
-- points back to a freed one, the thread is not the first, or it is the only one. The new entries are
-- at addresses that are not in use, and the searches may make more steps than threads stand before.
pub suspend-resume :
    (s : Runtime) (fuel wait_entry ready_entry c t b : ℕ) (core : Core) (th : Thread)
    (us vs ws : List ℕ)
    → get_elem? s.cores c ≡ some core
    → core.active_thread ≢ 0
    → t ≢ core.active_thread
    → Holds b s.ready_q (us ++ (t ∷ vs))
    → NotIn t us
    → (b ≡ 0) ⊎ ((us ≢ []) ⊎ (vs ≡ []))
    → Holds 0 s.wait_q ws
    → NotIn t ws
    → t ≢ 0
    → s.threads t ≡ some th
    → th.state ≡ thread_runnable
    → wait_entry ≢ 0
    → s.wait_q.entries wait_entry ≡ none
    → ready_entry ≢ 0
    → s.ready_q.entries ready_entry ≡ none
    → length us < fuel
    → length ws < fuel
    → (s' : Runtime) × (b' : ℕ) × ((thread_suspend fuel wait_entry c t s
          >>= thread_resume fuel ready_entry t)
        ≡ done s')
      × Holds b' s'.ready_q ((us ++ vs) ++ (t ∷ []))
      × Holds 0 s'.wait_q ws
      × ((u : ℕ) → s'.threads u ≡ s.threads u)
unfolding update
suspend-resume s fuel wait_entry ready_entry c t b core th us vs ws at running other ready out ok
      wait absent ne there runnable nonzero free nonzero' free' enough enough' =
    let (q, w, back, run, taken, ready', kept, wait') =
      thread_suspend_lem s fuel wait_entry c t b 0 core th us vs ws at running other ready out ok
        wait ne there runnable nonzero free enough in
    let s1 = moved s t th thread_suspended q w in
    let suspended : Thread = record th { state = thread_suspended } in
    let hit : (t == t) ≡ true = ground arith in
    let free1 : q.entries ready_entry ≡ none =
      discard-unused fuel t s.ready_q q true taken ready_entry free' in
    let (q', w', back', run', added, ready'', wait'') =
      thread_resume_lem s1 fuel ready_entry t b back suspended (us ++ vs) ws [] ready' wait' absent
        (inl (kept refl)) ne (rw hit refl) refl nonzero' free1 enough' in
    (
      moved s1 t suspended thread_runnable q' w',
      back',
      rw run run',
      ready'',
      rw append-nil at (rw (kept refl) at wait''),
      threads_kept (sym runnable),
    )
  where
    threads_kept :
        thread_runnable ≡ th.state
        → (u : ℕ)
        → update
            (update s.threads t (some (record th { state = thread_suspended })))
            t
            (some (record th { state = thread_runnable }))
            u
          ≡ s.threads u
    threads_kept e u = elim (Bool-cases (u == t)) [
      | inl hit ↦
          let equal : u ≡ t = ground (arith, hit) in
          rw (hit, equal, there) (ap (λ x. some (record th { state = x })) e)
      | inr miss ↦ rw (miss) refl
    ]
