-- ===== src/Runtime/Fair.antt =====
-- `_optimsoc_scheduler_tick` of libruntime/scheduler.c, and what a number of ticks come to.
use mathlib.Core.List.{append-nil}
use optimsoc.Prelude.{
  ℕ, zero, suc, ◌+◌, ◌≡◌, ◌≢◌, ◌<◌, refl, ap, ◌∙◌, sym, inl, inr, none, some, List, [], ◌∷◌, ◌++◌,
  ◌==◌, length, get_elem?, get_elem?-append, lt_of_get_elem?, arith, done, Bool-cases,
}
use optimsoc.Runtime.{Runtime, Core, Queue}
use optimsoc.Runtime.Timers.{timer_tick, tick_timers, scheduler_tick}
use optimsoc.Runtime.Queues.{Holds}
use optimsoc.Runtime.Rotate.{
  AreThreads, next_of, rest_of, requeue, Scheduled, Restores, AreThreads-kept,
}
use optimsoc.Runtime.Rounds.{switch_lem}
use optimsoc.Runtime.Elapse.{due, AreTimers, CanResume, AreFree, without}
use optimsoc.Runtime.Ticks.{later}
use optimsoc.Runtime.Wakeups.{timer_tick_lem}

-- The timers are in order for a tick that ends those of the threads `ds`: there are none, or they are
-- well linked and the threads `ds` are suspended and wait.
pub data TimersReady (s : Runtime) (fuel : ℕ) : (ds : List ℕ) → Type 0 where
  no_timers : s.timers ≡ none → TimersReady s fuel []
  some_timers :
      (q : Queue) (ps ws : List ℕ)
      → s.timers ≡ some q
      → Holds 0 q ps
      → AreTimers s.timer_at ps
      → Holds 0 s.wait_q ws
      → CanResume s.threads (due s.timer_at ps) ws
      → length ps + length ps + length ws < fuel
      → TimersReady s fuel (due s.timer_at ps)

AreThreads-join :
    (s : Runtime) (ts us : List ℕ) → AreThreads s ts → AreThreads s us → AreThreads s (ts ++ us)
AreThreads-join s [] us front end = end
AreThreads-join s (t ∷ ts) us (one, front) end = (one, AreThreads-join s ts us front end)

CanResume-AreThreads : (s : Runtime) (ds ws : List ℕ) → CanResume s.threads ds ws → AreThreads s ds
CanResume-AreThreads s [] ws can = tt
CanResume-AreThreads s (d ∷ ds) ws (nonzero, waits, once, (th, there, state), can) =
    ((nonzero, th, there), CanResume-AreThreads s ds (without d ws) can)

-- After the timers the threads that they resumed are ready too.
record Woken (s s' : Runtime) (blocks : ℕ → ℕ) (c active idle : ℕ) (ts : List ℕ) : Type 0 where
  scheduled : Scheduled s' c active idle ts
  unused :
      (a : ℕ) → s.ready_q.entries a ≡ none → ((i : ℕ) → a ≢ blocks i) → s'.ready_q.entries a ≡ none

wake :
    (fuel : ℕ) (blocks : ℕ → ℕ) (c active idle : ℕ) (ts ds : List ℕ) (s : Runtime)
    → Scheduled s c active idle ts
    → AreFree blocks s.ready_q
    → TimersReady s fuel ds
    → (s' : Runtime) × (timer_tick fuel blocks s ≡ done s')
      × Woken s s' blocks c active idle (ts ++ ds)
unfolding timer_tick tick_timers
wake fuel blocks c active idle ts ds s v free (no_timers absent) = (
  s,
  ap (λ o. tick_timers fuel blocks o s) absent,
  record { scheduled = rw append-nil v; unused = λ a gone apart. gone },
)
wake fuel blocks c active idle ts ds s v free
      (some_timers q ps ws there timers are wait can enough) =
    let (s', run, e) =
      timer_tick_lem fuel v.back s blocks q ps ts ws there timers are v.ready wait can free
        enough in
    (
      s',
      run,
      record {
        scheduled = record {
          core = v.core;
          core_at = ap (λ cores. get_elem? cores c) e.cores ∙ v.core_at;
          is_active = v.is_active;
          is_idle = v.is_idle;
          back = e.back;
          ready = e.ready;
          active_thread = e.are_threads active v.active_thread;
          idle_thread = e.are_threads idle v.idle_thread;
          ready_threads = AreThreads-kept s s' (ts ++ due s.timer_at ps) e.are_threads (
              AreThreads-join s ts (due s.timer_at ps) v.ready_threads
                (CanResume-AreThreads s (due s.timer_at ps) ws can));
        };
        unused = e.unused;
      },
    )

AreFree-rest : {blocks : ℕ → ℕ} {q : Queue} → AreFree blocks q → AreFree (later blocks) q
AreFree-rest free = record {
  nonzero = λ i. free.nonzero (suc i);
  unused = λ i. free.unused (suc i);
  distinct = λ i j ne. free.distinct (suc i) (suc j) (omega arith);
}

-- A tick always goes through where the timers are in order: behind the ready threads come those
-- whose timers end, then the active one unless it is idle, and the first of them all runs next, in
-- its context, or the idle thread where there is none.
pub scheduler_tick_lem :
    (fuel : ℕ) (blocks : ℕ → ℕ) (c active idle : ℕ) (ts ds : List ℕ) (s : Runtime)
    → Scheduled s c active idle ts
    → AreFree blocks s.ready_q
    → TimersReady s fuel ds
    → (s' : Runtime) × (scheduler_tick fuel blocks c s ≡ done s')
      × Scheduled s' c
          (next_of idle (requeue active idle (ts ++ ds)))
          idle
          (rest_of (requeue active idle (ts ++ ds)))
      × Restores s' c (next_of idle (requeue active idle (ts ++ ds)))
unfolding scheduler_tick
scheduler_tick_lem fuel blocks c active idle ts ds s v free timers =
    let (s1, ticked, w) =
      wake fuel (later blocks) c active idle ts ds s v (AreFree-rest free) timers in
    let still : s1.ready_q.entries (blocks 0) ≡ none =
      w.unused (blocks 0) (free.unused 0) (λ i. free.distinct 0 (suc i) (omega arith)) in
    let (s', run, switched) =
      switch_lem (blocks 0) c active idle (ts ++ ds) s1 w.scheduled (free.nonzero 0) still in
    (s', rw ticked run, switched.scheduled, switched.restores)

-- `n` ticks of the core `c`, one after the other.
pub data Ticks (c : ℕ) : ℕ → Runtime → Runtime → Type 0 where
  no_tick : {s : Runtime} → Ticks c 0 s s
  a_tick :
      {n : ℕ} {s s' s'' : Runtime} (fuel : ℕ) (blocks : ℕ → ℕ) (ds : List ℕ)
      → AreFree blocks s.ready_q
      → TimersReady s fuel ds
      → scheduler_tick fuel blocks c s ≡ done s'
      → Ticks c n s' s''
      → Ticks c (suc n) s s''

-- The thread behind the first one has one place less before it.
requeue-place :
    (active idle x : ℕ) (ts ds : List ℕ) (k : ℕ) {t : ℕ}
    → get_elem? ts k ≡ some t
    → get_elem? (rest_of (requeue active idle ((x ∷ ts) ++ ds))) k ≡ some t
requeue-place active idle x ts ds k {t} at = elim (Bool-cases (active == idle)) [
  | inl same ↦ rw same front
  | inr differs ↦ rw differs (
      ground (
        arith,
        front,
        lt_of_get_elem? (ts ++ ds) k front,
        get_elem?-append (ts ++ ds) (active ∷ []) k,
      ))
]
  where
    front : get_elem? (ts ++ ds) k ≡ some t
    front = ground (arith, at, lt_of_get_elem? ts k at, get_elem?-append ts ds k)

requeue-first : (active idle x : ℕ) (ts : List ℕ) → next_of idle (requeue active idle (x ∷ ts)) ≡ x
requeue-first active idle x ts = elim (Bool-cases (active == idle)) [
  | inl same ↦ rw same refl
  | inr differs ↦ rw differs refl
]

-- The core `c` runs the thread `t`.
abbrev pub IsRunning : Runtime → (c t : ℕ) → Type 0
IsRunning s c t = (core : Core) × (get_elem? s.cores c ≡ some core) × (core.active_thread ≡ t)

-- Every ready thread gets its turn: one with `k` threads before it runs after `k + 1` ticks of the
-- core, whatever timers end meanwhile, if there is nothing between these ticks. At each of them the
-- timers are in order, and the new entries of the ready queue are at addresses that are not in use.
pub round_robin :
    (k c active idle : ℕ) (ts : List ℕ) {t : ℕ} {s s' : Runtime}
    → Scheduled s c active idle ts
    → get_elem? ts k ≡ some t
    → Ticks c (suc k) s s'
    → IsRunning s' c t
round_robin k c active idle [] v at ticks = absurd (cc)
round_robin zero c active idle (x ∷ ts) {t} {s} v at
      (a_tick {s'} fuel blocks ds free timers run no_tick) =
    let (s1, run', v', restores) =
      scheduler_tick_lem fuel blocks c active idle (x ∷ ts) ds s v free timers in
    let same : s1 ≡ s' = cc in
    let first : x ≡ t = cc in
    (
      v'.core,
      ap (λ r. get_elem? r.cores c) (sym same) ∙ v'.core_at,
      v'.is_active ∙ requeue-first active idle x (ts ++ ds) ∙ first,
    )
round_robin (suc k) c active idle (x ∷ ts) {t} {s} {s'} v at
      (a_tick {s' = next} fuel blocks ds free timers run rest) =
    let (s1, run', v', restores) =
      scheduler_tick_lem fuel blocks c active idle (x ∷ ts) ds s v free timers in
    let same : s1 ≡ next = cc in
    round_robin k c _ idle _ {s = s1} {s' = s'} v' (requeue-place active idle x ts ds k at)
      (rw same rest)
