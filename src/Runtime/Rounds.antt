-- ===== src/Runtime/Rounds.antt =====
-- The switch of threads at a tick, and rounds of ticks.
use optimsoc.Prelude.{
  ℕ, ◌≡◌, ◌≢◌, refl, ap, ◌∙◌, sym, inl, inr, true, false, Option, none, some, List, [], ◌∷◌, ◌==◌,
  get_elem?, arith, done, Bool-cases,
}
use native.Mathlib.Decide.{ℕ_discrete}
use optimsoc.Registry.{load, update}
use optimsoc.Runtime.{Runtime, Thread, Core, Queue, thread_runnable, enqueue, context_save}
use optimsoc.Runtime.Scheduler.{schedule, scheduler_add, switch}
use optimsoc.Runtime.Queues.{Holds, enqueue-Holds}
use optimsoc.Runtime.Rotate.{
  IsThread, AreThreads, next_of, rest_of, requeue, Scheduled, Restores, AreThreads-append,
  AreThreads-kept, installed, installed-core, installed-others, schedule_lem,
}

-- The threads of a state in which the one at `p` has become `th`.
record Rewritten (s : Runtime) (p : ℕ) (th : Thread) (threads : ℕ → Option Thread) : Type 0 where
  here : threads p ≡ some th
  others : (t : ℕ) → t ≢ p → threads t ≡ s.threads t

-- The state in which `schedule` is called.
abbrev before_choice : Runtime → (ℕ → Option Thread) → Queue → Runtime
before_choice s threads q = record s { threads = threads; ready_q = q }

IsThread-kept :
    {s : Runtime} {p : ℕ} {th : Thread} {threads : ℕ → Option Thread} (q : Queue)
    → Rewritten s p th threads
    → (t : ℕ) → IsThread s t
    → IsThread (before_choice s threads q) t
IsThread-kept {s} {p} {th} q w t (ne, old, there) = elim (ℕ_discrete t p) [
  | yes hit ↦ (ne, th, rw hit w.here)
  | no miss ↦ (ne, old, w.others t miss ∙ there)
]

-- What a switch leaves: the next thread runs and the others wait in their order, behind them the
-- one that ran. Its context is saved, and the core will leave its exception in the context of the
-- next one. The other threads, the other cores and the suspended threads are as before.
pub record Switched (s s' : Runtime) (c active idle : ℕ) (ts : List ℕ) (old : Core) : Type 0 where
  pub scheduled :
      Scheduled s' c (next_of idle (requeue active idle ts)) idle (rest_of (requeue active idle ts))
  pub restores : Restores s' c (next_of idle (requeue active idle ts))
  pub saved : (th : Thread) × (s'.threads active ≡ some th) × (th.ctx ≡ old.exception_ctx)
  pub other_threads : (t : ℕ) → t ≢ active → s'.threads t ≡ s.threads t
  pub other_cores : (k : ℕ) → k ≢ c → get_elem? s'.cores k ≡ get_elem? s.cores k
  pub waiting : s'.wait_q ≡ s.wait_q
  pub timers : s'.timers ≡ s.timers

requeue-AreThreads :
    (s : Runtime) (active idle : ℕ) (ts : List ℕ)
    → IsThread s active
    → AreThreads s ts
    → AreThreads s (requeue active idle ts)
requeue-AreThreads s active idle ts one all = elim (Bool-cases (active == idle)) [
  | inl same ↦ rw same all
  | inr differs ↦ rw differs (AreThreads-append s ts active all one)
]

rest-AreThreads : (s : Runtime) (ts : List ℕ) → AreThreads s ts → AreThreads s (rest_of ts)
rest-AreThreads s [] all = tt
rest-AreThreads s (t ∷ ts) (first, all) = all

next-IsThread :
    (s : Runtime) (idle : ℕ) (ts : List ℕ)
    → IsThread s idle
    → AreThreads s ts
    → IsThread s (next_of idle ts)
next-IsThread s idle [] one all = one
next-IsThread s idle (t ∷ ts) one (first, all) = first

choice-Switched :
    (s : Runtime) (c active idle b : ℕ) (ts : List ℕ) (th : Thread) (threads : ℕ → Option Thread)
    (q : Queue) (v : Scheduled s c active idle ts)
    → Rewritten s active th threads
    → th.ctx ≡ v.core.exception_ctx
    → Holds b q (requeue active idle ts)
    → (s' : Runtime) × (schedule c (before_choice s threads q) ≡ done s')
      × Switched s s' c active idle ts v.core
choice-Switched s c active idle b ts th threads q v w context holds =
    let s1 = before_choice s threads q in
    let us = requeue active idle ts in
    let keep = IsThread-kept q w in
    let all : AreThreads s1 us =
      requeue-AreThreads s1 active idle ts (keep active v.active_thread)
        (AreThreads-kept s s1 ts keep v.ready_threads) in
    let one : IsThread s1 idle = keep idle v.idle_thread in
    let (next, q', b', there, run, holds') =
      schedule_lem s1 c idle b v.core us v.core_at v.is_idle holds one all in
    let s2 = installed s1 c (next_of idle us) v.core next q' in
    let core2 = record (v.core) { active_thread = next_of idle us; exception_ctx = next.ctx } in
    let at = installed-core s1 c (next_of idle us) v.core next q' v.core_at in
    (
      s2,
      run,
      record {
        scheduled = record {
          core = core2;
          core_at = at;
          is_active = refl;
          is_idle = v.is_idle;
          back = b';
          ready = holds';
          active_thread = next-IsThread s1 idle us one all;
          idle_thread = one;
          ready_threads = rest-AreThreads s1 us all;
        };
        restores = (core2, next, at, there, refl);
        saved = (th, w.here, context);
        other_threads = w.others;
        other_cores = λ k ne. installed-others s1 c (next_of idle us) k v.core next q' ne;
        waiting = refl;
        timers = refl;
      },
    )

-- The threads after the context of `active` was saved.
abbrev with_saved : Runtime → (active : ℕ) → Thread → Core → ℕ → Option Thread
with_saved s active th core =
    update s.threads active (some (record th { ctx = core.exception_ctx }))

abbrev with_queued : Runtime → (active : ℕ) → Thread → Core → ℕ → Option Thread
with_queued s active th core =
    update (with_saved s active th core) active
      (some (record th { ctx = core.exception_ctx; state = thread_runnable }))

switch-idle :
    (fresh c : ℕ) (s : Runtime) (core : Core) (th : Thread)
    → get_elem? s.cores c ≡ some core
    → core.active_thread ≢ 0
    → s.threads core.active_thread ≡ some th
    → (core.active_thread == core.idle_thread) ≡ true
    → switch fresh c s
      ≡ schedule c (before_choice s (with_saved s core.active_thread th core) s.ready_q)
unfolding switch context_save load
switch-idle fresh c s core th at ne there same =
    let off : (core.active_thread == 0) ≡ false = ground arith in rw (at, off, there, same) refl

switch-queues :
    (fresh c : ℕ) (s : Runtime) (core : Core) (th : Thread) (q : Queue)
    → get_elem? s.cores c ≡ some core
    → core.active_thread ≢ 0
    → s.threads core.active_thread ≡ some th
    → (core.active_thread == core.idle_thread) ≡ false
    → enqueue fresh core.active_thread s.ready_q ≡ done q
    → switch fresh c s ≡ schedule c (before_choice s (with_queued s core.active_thread th core) q)
unfolding switch context_save scheduler_add load update
switch-queues fresh c s core th q at ne there differs added =
    let off : (core.active_thread == 0) ≡ false = ground arith in
    let hit : (core.active_thread == core.active_thread) ≡ true = ground arith in
    rw (at, off, there, differs, hit, added) refl

-- A tick's switch of threads always goes through: the active thread, unless it is idle, goes behind
-- the ready ones, and the first of them runs, or the idle thread where there is none. Contexts are
-- saved and put in place accordingly, and nothing else changes. The new entry of the queue is at an
-- address that is not in use.
pub switch_lem :
    (fresh c active idle : ℕ) (ts : List ℕ) (s : Runtime) (v : Scheduled s c active idle ts)
    → fresh ≢ 0
    → s.ready_q.entries fresh ≡ none
    → (s' : Runtime) × (switch fresh c s ≡ done s') × Switched s s' c active idle ts v.core
unfolding update
switch_lem fresh c active idle ts s v ne free =
    let (nonzero, th, there) = v.active_thread in
    let at_core : s.threads v.core.active_thread ≡ some th = ap s.threads v.is_active ∙ there in
    let some_core : v.core.active_thread ≢ 0 = λ z. nonzero (sym v.is_active ∙ z) in
    let test : (v.core.active_thread == v.core.idle_thread) ≡ (active == idle) =
      ap (λ a. a == v.core.idle_thread) v.is_active ∙ ap (λ i. active == i) v.is_idle in
    let hit : (active == active) ≡ true = ground arith in
    elim (Bool-cases (active == idle)) [
      | inl same ↦
          let saved : Thread = record th { ctx = v.core.exception_ctx } in
          let (s', run, done_so) =
            choice-Switched s c active idle v.back ts saved (with_saved s active th v.core)
              s.ready_q v (record { here = rw hit refl; others = λ t miss. ground arith }) refl
              (rw same v.ready) in
          (
            s',
            switch-idle fresh c s v.core th v.core_at some_core at_core (test ∙ same)
                ∙ ap (λ a. schedule c (before_choice s (with_saved s a th v.core) s.ready_q))
                    v.is_active
                ∙ run,
            done_so,
          )
      | inr differs ↦
          let queued : Thread = record th { ctx = v.core.exception_ctx; state = thread_runnable } in
          let (q, b, added, kept, holds) = enqueue-Holds v.ready fresh active ne free in
          let (s', run, done_so) =
            choice-Switched s c active idle b ts queued (with_queued s active th v.core) q v
              (record { here = rw hit refl; others = λ t miss. ground arith }) refl
              (rw differs holds) in
          (
            s',
            switch-queues fresh c s v.core th q v.core_at some_core at_core (test ∙ differs)
                  (ap (λ a. enqueue fresh a s.ready_q) v.is_active ∙ added)
                ∙ ap (λ a. schedule c (before_choice s (with_queued s a th v.core) q)) v.is_active
                ∙ run,
            done_so,
          )
    ]
