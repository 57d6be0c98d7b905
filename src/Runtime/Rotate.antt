-- ===== src/Runtime/Rotate.antt =====
-- `_optimsoc_schedule` and the switch of threads in `_optimsoc_scheduler_tick`.
use optimsoc.Prelude.{
  ℕ, ◌≡◌, ◌≢◌, refl, inl, inr, true, false, some, List, [], ◌∷◌, ◌++◌, ◌==◌, ltb, if◌then◌else◌,
  length, get_elem?, set, get_elem?-set, length-set, lt_of_get_elem?, arith, done, Bool-cases,
}
use optimsoc.Registry.{load, update}
use optimsoc.Runtime.{Runtime, Thread, Core, Queue, dequeue, put_thread, context_restore}
use optimsoc.Runtime.Scheduler.{schedule}
use optimsoc.Runtime.Queues.{Holds, dequeue-Holds, dequeue-empty}

abbrev pub IsThread : Runtime → ℕ → Type 0
IsThread s t = (t ≢ 0) × (th : Thread) × (s.threads t ≡ some th)

-- A control block that is written is one of a thread.
pub IsThread-put :
    (s : Runtime) (p t : ℕ) (th : Thread) → IsThread s t → IsThread (put_thread p th s) t
unfolding update
IsThread-put s p t th (ne, old, there) = elim (Bool-cases (t == p)) [
  | inl hit ↦ (ne, th, rw hit refl)
  | inr miss ↦ (ne, old, rw miss there)
]

abbrev pub AreThreads : Runtime → List ℕ → Type 0
AreThreads s [] = Unit
AreThreads s (t ∷ ts) = IsThread s t × AreThreads s ts

-- The thread that runs next, and those that stay in the ready queue.
abbrev pub next_of : (idle : ℕ) → List ℕ → ℕ
next_of idle [] = idle
next_of idle (t ∷ ts) = t

abbrev pub rest_of : List ℕ → List ℕ
rest_of [] = []
rest_of (t ∷ ts) = ts

-- The ready queue with the thread that gives up its core, which is not queued where it is idle.
abbrev pub requeue : (active idle : ℕ) → List ℕ → List ℕ
requeue active idle ts = if active == idle then ts else ts ++ (active ∷ [])

-- The core `c` runs `active`, has the idle thread `idle`, and `ts` are ready, in this order.
pub record Scheduled (s : Runtime) (c active idle : ℕ) (ts : List ℕ) : Type 0 where
  pub core : Core
  pub core_at : get_elem? s.cores c ≡ some core
  pub is_active : core.active_thread ≡ active
  pub is_idle : core.idle_thread ≡ idle
  pub back : ℕ
  pub ready : Holds back s.ready_q ts
  pub active_thread : IsThread s active
  pub idle_thread : IsThread s idle
  pub ready_threads : AreThreads s ts

-- The core will leave its exception in the context of the thread `t`.
abbrev pub Restores : Runtime → (c t : ℕ) → Type 0
Restores s c t =
    (core : Core) × (th : Thread) × (get_elem? s.cores c ≡ some core)
    × (s.threads t ≡ some th)
    × (core.exception_ctx ≡ th.ctx)

pub AreThreads-append :
    (s : Runtime) (ts : List ℕ) (t : ℕ)
    → AreThreads s ts
    → IsThread s t
    → AreThreads s (ts ++ (t ∷ []))
AreThreads-append s [] t all one = (one, tt)
AreThreads-append s (u ∷ ts) t (first, all) one = (first, AreThreads-append s ts t all one)

pub AreThreads-kept :
    (s s' : Runtime) (ts : List ℕ)
    → ((t : ℕ) → IsThread s t → IsThread s' t)
    → AreThreads s ts
    → AreThreads s' ts
AreThreads-kept s s' [] keep all = tt
AreThreads-kept s s' (t ∷ ts) keep (first, all) = (keep t first, AreThreads-kept s s' ts keep all)

-- The state after the thread `n` was chosen and its context put in place.
abbrev pub installed : Runtime → (c n : ℕ) → Core → Thread → Queue → Runtime
installed s c n core th q = record s {
  ready_q = q;
  cores =
      set (set s.cores c (record core { active_thread = n })) c
        (record core { active_thread = n; exception_ctx = th.ctx });
}

pub installed-core :
    (s : Runtime) (c n : ℕ) (core : Core) (th : Thread) (q : Queue)
    → get_elem? s.cores c ≡ some core
    → get_elem? (installed s c n core th q).cores c
      ≡ some (record core { active_thread = n; exception_ctx = th.ctx })
installed-core s c n core th q at = ground (
  arith,
  lt_of_get_elem? s.cores c at,
  length-set s.cores c (record core { active_thread = n }),
  get_elem?-set (set s.cores c (record core { active_thread = n })) c c
      (record core { active_thread = n; exception_ctx = th.ctx }),
)

pub installed-others :
    (s : Runtime) (c n k : ℕ) (core : Core) (th : Thread) (q : Queue)
    → k ≢ c
    → get_elem? (installed s c n core th q).cores k ≡ get_elem? s.cores k
installed-others s c n k core th q ne = ground (
  arith,
  get_elem?-set s.cores c k (record core { active_thread = n }),
  get_elem?-set (set s.cores c (record core { active_thread = n })) c k
      (record core { active_thread = n; exception_ctx = th.ctx }),
)

schedule-installed :
    (s : Runtime) (c d n : ℕ) (core : Core) (th : Thread) (q : Queue)
    → dequeue s.ready_q ≡ done (d, q)
    → (if d == 0 then core.idle_thread else d) ≡ n
    → get_elem? s.cores c ≡ some core
    → n ≢ 0
    → s.threads n ≡ some th
    → schedule c s ≡ done (installed s c n core th q)
unfolding schedule context_restore load
schedule-installed s c d n core th q taken chosen at ne there =
    let inside : ltb c (length s.cores) ≡ true = ground (arith, lt_of_get_elem? s.cores c at) in
    let inside' : ltb c (length (set s.cores c (record core { active_thread = n }))) ≡ true =
      ground (arith, inside, length-set s.cores c (record core { active_thread = n })) in
    let again : get_elem? (set s.cores c (record core { active_thread = n })) c
        ≡ some (record core { active_thread = n }) =
      ground (arith, inside, get_elem?-set s.cores c c (record core { active_thread = n })) in
    let off : (n == 0) ≡ false = ground arith in
    rw (taken, at, chosen, off, inside, again, there, inside') refl

-- What `schedule` comes to: the first ready thread, or else the idle thread, runs next. `rest` are
-- the threads that stay.
pub schedule_lem :
    (s : Runtime) (c idle b : ℕ) (core : Core) (ts : List ℕ)
    → get_elem? s.cores c ≡ some core
    → core.idle_thread ≡ idle
    → Holds b s.ready_q ts
    → IsThread s idle
    → AreThreads s ts
    → (th : Thread) × (q : Queue) × (b' : ℕ) × (s.threads (next_of idle ts) ≡ some th)
      × (schedule c s ≡ done (installed s c (next_of idle ts) core th q))
      × Holds b' q (rest_of ts)
schedule_lem s c idle b core [] at is_idle v (ne, th, there) all = (
  th,
  s.ready_q,
  b,
  there,
  schedule-installed s c 0 idle core th s.ready_q (dequeue-empty v) is_idle at ne there,
  v,
)
schedule_lem s c idle b core (t ∷ ts) at is_idle v idle_there ((ne, th, there), all) =
    let (q, b', taken, v') = dequeue-Holds v in
    let off : (t == 0) ≡ false = ground arith in
    (th, q, b', there, schedule-installed s c t t core th q taken (rw off refl) at ne there, v')
