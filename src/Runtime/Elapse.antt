-- ===== src/Runtime/Elapse.antt =====
-- What a tick does to the timers: `_optimsoc_timer_tick` of libruntime/timer.c.
use optimsoc.Prelude.{
  ℕ, ◌≡◌, ◌≢◌, refl, ap, ◌⊎◌, inl, inr, Bool, true, false, Option, none, some, List, [], ◌∷◌, ◌++◌,
  ◌==◌, if◌then◌else◌, add32, arith,
}
use optimsoc.Registry.{update}
use optimsoc.Runtime.{Thread, Timer, Queue, thread_suspended}
use optimsoc.Runtime.Queues.{NotIn}

-- `d` is among the data.
abbrev pub IsIn : ℕ → List ℕ → Type 0
IsIn d [] = ⊥
IsIn d (c ∷ ts) = (c ≡ d) ⊎ ((c ≢ d) × IsIn d ts)

-- The data without the first `d`.
abbrev pub without : ℕ → List ℕ → List ℕ
without d [] = []
without d (c ∷ ts) = if c == d then ts else c ∷ without d ts

-- The data without each of the first list.
abbrev pub without_all : List ℕ → List ℕ → List ℕ
without_all [] ts = ts
without_all (d ∷ ds) ts = without_all ds (without d ts)

-- Whether a timer ends with this tick.
abbrev pub ends : Timer → Bool
ends timer = add32 timer.ticks 1 == timer.goal

abbrev due_first : Option Timer → List ℕ → List ℕ
due_first none ds = ds
due_first (some timer) ds = if ends timer then timer.thread ∷ ds else ds

-- The threads whose timers end with this tick, in the order of the timers.
abbrev pub due : (ℕ → Option Timer) → List ℕ → List ℕ
due timer_at [] = []
due timer_at (p ∷ ps) = due_first (timer_at p) (due timer_at ps)

abbrev pending_first : (p : ℕ) → Option Timer → List ℕ → List ℕ
pending_first p none ps = ps
pending_first p (some timer) ps = if ends timer then ps else p ∷ ps

-- The timers that do not end with this tick.
abbrev pub pending : (ℕ → Option Timer) → List ℕ → List ℕ
pending timer_at [] = []
pending timer_at (p ∷ ps) = pending_first p (timer_at p) (pending timer_at ps)

-- Each timer is there, and no two are the same.
abbrev pub AreTimers : (ℕ → Option Timer) → List ℕ → Type 0
AreTimers timer_at [] = Unit
AreTimers timer_at (p ∷ ps) =
    (p ≢ 0) × NotIn p ps × ((timer : Timer) × (timer_at p ≡ some timer)) × AreTimers timer_at ps

-- The threads are suspended and wait, and none stands there twice.
abbrev pub CanResume : (ℕ → Option Thread) → (ds ws : List ℕ) → Type 0
CanResume threads [] ws = Unit
CanResume threads (d ∷ ds) ws =
    (d ≢ 0)
    × IsIn d ws
    × NotIn d ds
    × ((th : Thread) × (threads d ≡ some th) × (th.state ≡ thread_suspended))
    × CanResume threads ds (without d ws)

-- The addresses of new entries: none is in use, and no two are the same.
pub record AreFree (blocks : ℕ → ℕ) (q : Queue) : Type 0 where
  pub nonzero : (i : ℕ) → blocks i ≢ 0
  pub unused : (i : ℕ) → q.entries (blocks i) ≡ none
  pub distinct : (i j : ℕ) → i ≢ j → blocks i ≢ blocks j

-- Where an element of a list first stands.
pub split_at :
    (d : ℕ) (ts : List ℕ)
    → IsIn d ts
    → (us vs : List ℕ) × (ts ≡ us ++ (d ∷ vs)) × NotIn d us × (us ++ vs ≡ without d ts)
split_at d [] nowhere = absurd nowhere
split_at d (c ∷ ts) (inl e) =
    let hit : (c == d) ≡ true = ground arith in ([], ts, ap (λ x. x ∷ ts) e, tt, rw hit refl)
split_at d (c ∷ ts) (inr (ne, later)) =
    let (us, vs, parts, out, rest) = split_at d ts later in
    let miss : (c == d) ≡ false = ground arith in
    (c ∷ us, vs, ap (λ xs. c ∷ xs) parts, (ne, out), rw miss (ap (λ xs. c ∷ xs) rest))

-- Another timer's count does not change which timers end.
pub due-update :
    (timer_at : ℕ → Option Timer) (p : ℕ) (v : Option Timer) (ps : List ℕ)
    → NotIn p ps
    → due (update timer_at p v) ps ≡ due timer_at ps
unfolding update
due-update timer_at p v [] out = refl
due-update timer_at p v (r ∷ ps) (ne, out) =
    let miss : (r == p) ≡ false = ground arith in rw (miss, due-update timer_at p v ps out) refl

pub pending-update :
    (timer_at : ℕ → Option Timer) (p : ℕ) (v : Option Timer) (ps : List ℕ)
    → NotIn p ps
    → pending (update timer_at p v) ps ≡ pending timer_at ps
unfolding update
pending-update timer_at p v [] out = refl
pending-update timer_at p v (r ∷ ps) (ne, out) =
    let miss : (r == p) ≡ false = ground arith in rw (miss, pending-update timer_at p v ps out) refl

pub AreTimers-update :
    (timer_at : ℕ → Option Timer) (p : ℕ) (v : Option Timer) (ps : List ℕ)
    → NotIn p ps
    → AreTimers timer_at ps
    → AreTimers (update timer_at p v) ps
unfolding update
AreTimers-update timer_at p v [] out all = tt
AreTimers-update timer_at p v (r ∷ ps) (ne, out) (nz, apart, (timer, there), all) =
    let miss : (r == p) ≡ false = ground arith in
    (nz, apart, (timer, rw miss there), AreTimers-update timer_at p v ps out all)

pub CanResume-update :
    (threads : ℕ → Option Thread) (p : ℕ) (v : Option Thread) (ds ws : List ℕ)
    → NotIn p ds
    → CanResume threads ds ws
    → CanResume (update threads p v) ds ws
unfolding update
CanResume-update threads p v [] ws out can = tt
CanResume-update threads p v (d ∷ ds) ws (ne, out) (nz, waits, once, (th, there, state), can) =
    let miss : (d == p) ≡ false = ground arith in
    (
      nz,
      waits,
      once,
      (th, rw miss there, state),
      CanResume-update threads p v ds (without d ws) out can,
    )
