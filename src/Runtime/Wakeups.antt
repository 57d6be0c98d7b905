-- ===== src/Runtime/Wakeups.antt =====
-- The whole of `_optimsoc_timer_tick` of libruntime/timer.c.
use mathlib.Core.Path.{subst}
use mathlib.Core.List.{append-nil, append_assoc}
use optimsoc.Prelude.{
  ℕ, zero, suc, ◌+◌, ◌≡◌, ◌≢◌, ◌<◌, refl, ap, ◌∙◌, sym, inl, inr, true, false, some, List, [], ◌∷◌,
  ◌++◌, ◌==◌, length, length-append, arith, done, Bool-cases,
}
use optimsoc.Registry.{load}
use optimsoc.LinkedList.{Entries, list_first_element, list_next_element}
use optimsoc.LinkedList.Linked.{Linked, last_or, IsLinked, Linked-split}
use optimsoc.LinkedList.Unlink.{list_remove-IsLinked}
use optimsoc.Runtime.{Runtime, Thread, Timer, Queue, thread_runnable, enqueue, discard}
use optimsoc.Runtime.Threads.{thread_resume}
use optimsoc.Runtime.Timers.{count_tick, timer_loop, tick_timers, timer_tick}
use optimsoc.Runtime.Queues.{
  Holds, NotIn, datas, datas-append, NotIn-Lacks, length-datas, enqueue-unused,
}
use optimsoc.Runtime.Suspend.{moved, thread_resume_lem}
use optimsoc.Runtime.Elapse.{
  without, ends, due, AreTimers, CanResume, AreFree, split_at, due-update, AreTimers-update,
  CanResume-update,
}
use optimsoc.Runtime.Ticks.{
  Elapsed, ticked, later, loop-stops, loop-goes_on, loop-resumes, Elapsed-goes_on, Elapsed-resumes,
}

abbrev first_data : List (ℕ × ℕ) → ℕ
first_data [] = 0
first_data ((a, d) ∷ xs) = d

abbrev first_at : (otherwise : ℕ) → List (ℕ × ℕ) → ℕ
first_at otherwise [] = otherwise
first_at otherwise ((a, d) ∷ xs) = a

-- The step of the iterator from the entry at `a`.
next_element_lem :
    (a d b n : ℕ) (xs : List (ℕ × ℕ)) (mem : Entries)
    → Linked mem b n ((a, d) ∷ xs) 0
    → list_next_element a mem ≡ done (first_data xs, first_at a xs)
unfolding list_next_element load
next_element_lem a d b n [] mem (at, nz, e, here, same, back, rest) =
    let off : (a == 0) ≡ false = ground arith in rw (off, here, rest) refl
next_element_lem a d b n ((c, f) ∷ xs) mem
      (at, nz, e, here, same, back, (at2, nz2, e2, here2, same2, back2, rest)) =
    let off : (a == 0) ≡ false = ground arith in
    let off2 : (c == 0) ≡ false = ground arith in rw (off, here, at2, off2, here2, same2) refl

-- None of the first data is among the second.
abbrev NoneIn : (rs ks : List ℕ) → Type 0
NoneIn [] ks = Unit
NoneIn (r ∷ rs) ks = NotIn r ks × NoneIn rs ks

NotIn-append : (r p : ℕ) (ks : List ℕ) → NotIn r ks → p ≢ r → NotIn r (ks ++ (p ∷ []))
NotIn-append r p [] out ne = (ne, tt)
NotIn-append r p (k ∷ ks) (differs, out) ne = (differs, NotIn-append r p ks out ne)

NoneIn-append : (p : ℕ) (rs ks : List ℕ) → NoneIn rs ks → NotIn p rs → NoneIn rs (ks ++ (p ∷ []))
NoneIn-append p [] ks none_in out = tt
NoneIn-append p (r ∷ rs) ks (first, none_in) (ne, out) =
    (NotIn-append r p ks first (λ e. ne (sym e)), NoneIn-append p rs ks none_in out)

NoneIn-nil : (rs : List ℕ) → NoneIn rs []
NoneIn-nil [] = tt
NoneIn-nil (r ∷ rs) = (tt, NoneIn-nil rs)

-- The addresses that are left after one was used.
pub AreFree-later :
    (blocks : ℕ → ℕ) (t : ℕ) (q q' : Queue)
    → AreFree blocks q
    → enqueue (blocks 0) t q ≡ done q'
    → AreFree (later blocks) q'
AreFree-later blocks t q q' free added = record {
  nonzero = λ i. free.nonzero (suc i);
  unused = λ i.
      enqueue-unused (blocks 0) t q q' added (blocks (suc i))
        (free.distinct (suc i) 0 (omega arith)) (free.unused (suc i));
  distinct = λ i j ne. free.distinct (suc i) (suc j) (omega arith);
}

-- What the loop may start from: its iterator stands behind the entries `ks`, and `xs` are to come.
record Before (s : Runtime) (blocks : ℕ → ℕ) (q : Queue) (ks xs : List (ℕ × ℕ)) (ts ws : List ℕ)
    : Type 0 where
  linked : IsLinked q.list (ks ++ xs) q.entries 0
  timers : AreTimers s.timer_at (datas xs)
  passed : NoneIn (datas xs) (datas ks)
  back : ℕ
  ready : Holds back s.ready_q ts
  wait : Holds 0 s.wait_q ws
  can_resume : CanResume s.threads (due s.timer_at (datas xs)) ws
  free : AreFree blocks s.ready_q

Before-end :
    (s : Runtime) (blocks : ℕ → ℕ) (q : Queue) (ks : List (ℕ × ℕ)) (ts ws : List ℕ)
    → Before s blocks q ks [] ts ws
    → Elapsed s (record s { timers = some q }) blocks (datas ks) [] ts ws
Before-end s blocks q ks ts ws v = record {
  timers = q;
  timers_at = refl;
  timers_hold = record { entries = ks ++ []; linked = v.linked; same = datas-append ks [] };
  back = v.back;
  ready = rw append-nil v.ready;
  wait = v.wait;
  cores = refl;
  other_threads = λ t apart. refl;
  are_threads = λ t one. one;
  unused = λ a gone free. gone;
  counted = λ p timer nowhere at. absurd nowhere;
  other_timers = λ p apart. refl;
}

Before-goes_on :
    (s : Runtime) (blocks : ℕ → ℕ) (q : Queue) (ks xs : List (ℕ × ℕ)) (a p : ℕ) (ts ws : List ℕ)
    (timer : Timer)
    → s.timer_at p ≡ some timer
    → ends timer ≡ false
    → Before s blocks q ks ((a, p) ∷ xs) ts ws
    → Before (ticked s p timer) blocks q (ks ++ ((a, p) ∷ [])) xs ts ws
Before-goes_on s blocks q ks xs a p ts ws timer there goes_on v =
    let (ne, out, (timer', at), rest) = v.timers in
    let counts = some (count_tick timer) in
    record {
      linked = rw (append_assoc ks ((a, p) ∷ [])) v.linked;
      timers = AreTimers-update s.timer_at p counts (datas xs) out rest;
      passed =
          rw (datas-append ks ((a, p) ∷ [])) (NoneIn-append p (datas xs) (datas ks) v.passed.1 out);
      back = v.back;
      ready = v.ready;
      wait = v.wait;
      can_resume =
          rw (due-update s.timer_at p counts (datas xs) out) (rw (there, goes_on) at v.can_resume);
      free = v.free;
    }

-- A timer that ends is taken from its list, and its thread resumed.
Before-resumes :
    (s : Runtime) (fuel : ℕ) (blocks : ℕ → ℕ) (q : Queue) (ks xs : List (ℕ × ℕ)) (a p : ℕ)
    (ts ws : List ℕ) (timer : Timer)
    → s.timer_at p ≡ some timer
    → ends timer ≡ true
    → length ks < fuel
    → length ws < fuel
    → Before s blocks q ks ((a, p) ∷ xs) ts ws
    → (q' : Queue) × (th : Thread) × (ready : Queue) × (wait : Queue) × (discard fuel p q
        ≡ done (true, q'))
      × (thread_resume fuel (blocks 0) timer.thread (ticked s p timer)
          ≡ done (moved (ticked s p timer) timer.thread th thread_runnable ready wait))
      × (enqueue (blocks 0) timer.thread s.ready_q ≡ done ready)
      × Before
          (moved (ticked s p timer) timer.thread th thread_runnable ready wait)
          (later blocks)
          q'
          ks
          xs
          (ts ++ (timer.thread ∷ []))
          (without timer.thread ws)
      × (length (without timer.thread ws) < length ws)
unfolding discard
Before-resumes s fuel blocks q ks xs a p ts ws timer there over few few' v =
    let t = timer.thread in
    let (ne, out, (timer', at), rest) = v.timers in
    let counts = some (count_tick timer) in
    let (nonzero, waits, once, (th, thread_at, suspended), can) =
      rw (there, over) at v.can_resume in
    let (us, vs, parts, first, left) = split_at t ws waits in
    let few_before : length us < length ws =
      omega (arith, ap length parts, length-append us (t ∷ vs)) in
    let few_left : length (without t ws) < length ws =
      omega
        (arith, ap length parts, ap length left, length-append us (t ∷ vs), length-append us vs) in
    let (l, mem, cut, linked) =
      list_remove-IsLinked a p 0 fuel ks xs v.linked (NotIn-Lacks p ks v.passed.0) (inl refl) few in
    let (ready, wait, back, run, added, ready_holds, wait_holds) =
      thread_resume_lem (ticked s p timer) fuel (blocks 0) t v.back 0 th ts us vs v.ready
        (rw parts at v.wait) first (inl refl) nonzero thread_at suspended (v.free.nonzero 0)
        (v.free.unused 0) (omega arith) in
    (
      record { list = l; entries = mem },
      th,
      ready,
      wait,
      rw cut refl,
      run,
      added,
      record {
        linked = linked;
        timers = AreTimers-update s.timer_at p counts (datas xs) out rest;
        passed = v.passed.1;
        back = back;
        ready = ready_holds;
        wait = subst (λ zs. Holds 0 wait zs) left wait_holds;
        can_resume = rw (due-update s.timer_at p counts (datas xs) out) (
            CanResume-update s.threads t (some (record th { state = thread_runnable }))
              (due s.timer_at (datas xs)) (without t ws) once can);
        free = AreFree-later blocks t s.ready_q ready v.free added;
      },
      few_left,
    )

timer_loop_lem :
    (fuel otherwise : ℕ) (s : Runtime) (blocks : ℕ → ℕ) (q : Queue) (ks xs : List (ℕ × ℕ))
    (ts ws : List ℕ)
    → length ks + (length xs + length xs) + length ws < fuel
    → Before s blocks q ks xs ts ws
    → (s' : Runtime) × (timer_loop fuel blocks (first_data xs) (first_at otherwise xs) q s
        ≡ done s')
      × Elapsed s s' blocks (datas ks) (datas xs) ts ws
timer_loop_lem zero otherwise s blocks q ks xs ts ws enough v = absurd (omega arith)
timer_loop_lem (suc fuel) otherwise s blocks q ks [] ts ws enough v =
    (_, loop-stops fuel otherwise blocks q s, Before-end s blocks q ks ts ws v)
timer_loop_lem (suc fuel) otherwise s blocks q ks ((a, p) ∷ xs) ts ws enough v =
    let (ne, out, (timer, there), rest) = v.timers in
    let (n, front, here) =
      Linked-split q.entries 0 q.list.head 0 ks ((a, p) ∷ xs) v.linked.linked in
    let next = next_element_lem a p (last_or 0 ks) n xs q.entries here in
    let longer : length (ks ++ ((a, p) ∷ [])) ≡ suc (length ks) =
      omega (arith, length-append ks ((a, p) ∷ [])) in
    elim (Bool-cases (ends timer)) [
      | inl over ↦
          let (q', th, ready, wait, cut, run, added, v', fewer) =
            Before-resumes s fuel blocks q ks xs a p ts ws timer there over (omega arith)
              (omega arith) v in
          let (s', loop, elapsed) =
            timer_loop_lem fuel a _ (later blocks) q' ks xs (ts ++ (timer.thread ∷ []))
              (without timer.thread ws) (omega arith) v' in
          (
            s',
            loop-resumes fuel p a (first_data xs) (first_at a xs) blocks q q' s _ timer ne there
                  next over cut run
                ∙ loop,
            Elapsed-resumes s s' blocks p (datas ks) (datas xs) ts ws timer th ready wait there over
                out added elapsed,
          )
      | inr goes_on ↦
          let v' = Before-goes_on s blocks q ks xs a p ts ws timer there goes_on v in
          let (s', loop, elapsed) =
            timer_loop_lem fuel a (ticked s p timer) blocks q (ks ++ ((a, p) ∷ [])) xs ts ws
              (omega arith) v' in
          (
            s',
            loop-goes_on fuel p a (first_data xs) (first_at a xs) blocks q s timer ne there next
                  goes_on
                ∙ loop,
            Elapsed-goes_on s s' blocks p (datas ks) (datas xs) ts ws timer there goes_on out
                (rw (datas-append ks ((a, p) ∷ [])) at elapsed),
          )
    ]

first_element_lem :
    (q : Queue) (xs : List (ℕ × ℕ))
    → IsLinked q.list xs q.entries 0
    → list_first_element q.list q.entries ≡ done (first_data xs, first_at 0 xs)
unfolding list_first_element load
first_element_lem q [] v = rw v.linked refl
first_element_lem q ((a, d) ∷ xs) v =
    let (at, nz, e, here, same, back, rest) = v.linked in
    let off : (a == 0) ≡ false = ground arith in rw (at, off, here, same) refl

-- A tick counts for every timer. Those that end with it leave the list of timers, and their threads go
-- from the waiting ones behind the ready ones, in the order of the timers. It always goes through: the
-- threads of the timers that end are suspended and wait, the new entries are at addresses that are not
-- in use, and the walks may make more steps than twice the timers and the waiting threads.
pub timer_tick_lem :
    (fuel b : ℕ) (s : Runtime) (blocks : ℕ → ℕ) (q : Queue) (ps ts ws : List ℕ)
    → s.timers ≡ some q
    → Holds 0 q ps
    → AreTimers s.timer_at ps
    → Holds b s.ready_q ts
    → Holds 0 s.wait_q ws
    → CanResume s.threads (due s.timer_at ps) ws
    → AreFree blocks s.ready_q
    → length ps + length ps + length ws < fuel
    → (s' : Runtime) × (timer_tick fuel blocks s ≡ done s') × Elapsed s s' blocks [] ps ts ws
unfolding timer_tick tick_timers
timer_tick_lem fuel b s blocks q ps ts ws there timers are_timers ready wait can free enough =
    let xs = timers.entries in
    let before : Before s blocks q [] xs ts ws = record {
      linked = timers.linked;
      timers = rw timers.same are_timers;
      passed = NoneIn-nil (datas xs);
      back = b;
      ready = ready;
      wait = wait;
      can_resume = rw timers.same can;
      free = free;
    } in
    let (s', run, elapsed) =
      timer_loop_lem fuel 0 s blocks q [] xs ts ws
        (omega (arith, length-datas xs, ap length timers.same)) before in
    (
      s',
      ap (λ o. tick_timers fuel blocks o s) there ∙ rw (first_element_lem q xs timers.linked) run,
      rw timers.same at elapsed,
    )
