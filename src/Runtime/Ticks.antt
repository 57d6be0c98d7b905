-- ===== src/Runtime/Ticks.antt =====
-- The loop of `_optimsoc_timer_tick` over the list of timers, in libruntime/timer.c.
use mathlib.Core.List.{append_assoc}
use optimsoc.Prelude.{
  ℕ, suc, ◌≡◌, ◌≢◌, refl, ap, ◌∙◌, sym, inl, inr, true, false, Option, none, some, List, [], ◌∷◌,
  ◌++◌, ◌==◌, arith, done,
}
use optimsoc.Registry.{load, update}
use optimsoc.LinkedList.{list_next_element}
use optimsoc.Runtime.{Runtime, Thread, Timer, Queue, thread_runnable, enqueue, discard}
use optimsoc.Runtime.Threads.{thread_resume}
use optimsoc.Runtime.Timers.{count_tick, timer_loop}
use optimsoc.Runtime.Queues.{Holds, NotIn, enqueue-unused}
use optimsoc.Runtime.Rotate.{IsThread, IsThread-put}
use optimsoc.Runtime.Suspend.{moved}
use optimsoc.Runtime.Elapse.{
  IsIn, without, without_all, ends, due, pending, due-update, pending-update,
}

-- The state with one more tick of the timer at `p`.
abbrev pub ticked : Runtime → (p : ℕ) → Timer → Runtime
ticked s p timer = record s { timer_at = update s.timer_at p (some (count_tick timer)) }

abbrev pub later : (ℕ → ℕ) → ℕ → ℕ
later blocks i = blocks (suc i)

pub loop-stops :
    (fuel iter : ℕ) (blocks : ℕ → ℕ) (q : Queue) (s : Runtime)
    → timer_loop (suc fuel) blocks 0 iter q s ≡ done (record s { timers = some q })
unfolding timer_loop
loop-stops fuel iter blocks q s = refl

pub loop-goes_on :
    (fuel p iter n iter' : ℕ) (blocks : ℕ → ℕ) (q : Queue) (s : Runtime) (timer : Timer)
    → p ≢ 0
    → s.timer_at p ≡ some timer
    → list_next_element iter q.entries ≡ done (n, iter')
    → ends timer ≡ false
    → timer_loop (suc fuel) blocks p iter q s ≡ timer_loop fuel blocks n iter' q (ticked s p timer)
unfolding timer_loop load count_tick
loop-goes_on fuel p iter n iter' blocks q s timer ne there next goes_on =
    let off : (p == 0) ≡ false = ground arith in rw (off, there, next, goes_on) refl

pub loop-resumes :
    (fuel p iter n iter' : ℕ) (blocks : ℕ → ℕ) (q q' : Queue) (s s' : Runtime) (timer : Timer)
    → p ≢ 0
    → s.timer_at p ≡ some timer
    → list_next_element iter q.entries ≡ done (n, iter')
    → ends timer ≡ true
    → discard fuel p q ≡ done (true, q')
    → thread_resume fuel (blocks 0) timer.thread (ticked s p timer) ≡ done s'
    → timer_loop (suc fuel) blocks p iter q s ≡ timer_loop fuel (later blocks) n iter' q' s'
unfolding timer_loop load count_tick
loop-resumes fuel p iter n iter' blocks q q' s s' timer ne there next over taken run =
    let off : (p == 0) ≡ false = ground arith in rw (off, there, next, over, taken, run) refl

-- What the ticks of the timers `ps` come to: those that end leave the list, their threads go from the
-- waiting ones behind the ready ones, and the others have counted the tick.
pub record Elapsed (s s' : Runtime) (blocks : ℕ → ℕ) (ks ps ts ws : List ℕ) : Type 0 where
  pub timers : Queue
  pub timers_at : s'.timers ≡ some timers
  pub timers_hold : Holds 0 timers (ks ++ pending s.timer_at ps)
  pub back : ℕ
  pub ready : Holds back s'.ready_q (ts ++ due s.timer_at ps)
  pub wait : Holds 0 s'.wait_q (without_all (due s.timer_at ps) ws)
  pub cores : s'.cores ≡ s.cores
  pub other_threads : (t : ℕ) → NotIn t (due s.timer_at ps) → s'.threads t ≡ s.threads t
  pub are_threads : (t : ℕ) → IsThread s t → IsThread s' t
  pub unused :
      (a : ℕ) → s.ready_q.entries a ≡ none → ((i : ℕ) → a ≢ blocks i) → s'.ready_q.entries a ≡ none
  pub counted :
      (p : ℕ) (timer : Timer)
      → IsIn p ps
      → s.timer_at p ≡ some timer
      → s'.timer_at p ≡ some (count_tick timer)
  pub other_timers : (p : ℕ) → NotIn p ps → s'.timer_at p ≡ s.timer_at p

-- The counts after the timer at `p` was ticked before those of `ps`.
abbrev Counts : (before after : ℕ → Option Timer) → List ℕ → Type 0
Counts before after ps =
    (p : ℕ) (timer : Timer) → IsIn p ps → before p ≡ some timer → after p ≡ some (count_tick timer)

abbrev Leaves : (before after : ℕ → Option Timer) → List ℕ → Type 0
Leaves before after ps = (p : ℕ) → NotIn p ps → after p ≡ before p

Leaves-first :
    (before after : ℕ → Option Timer) (p : ℕ) (v : Option Timer) (ps : List ℕ)
    → Leaves (update before p v) after ps
    → Leaves before after (p ∷ ps)
unfolding update
Leaves-first before after p v ps others r (ne, apart) =
    let miss : (r == p) ≡ false = ground arith in others r apart ∙ rw miss refl

Counts-first :
    (before after : ℕ → Option Timer) (p : ℕ) (timer : Timer) (ps : List ℕ)
    → before p ≡ some timer
    → NotIn p ps
    → Counts (update before p (some (count_tick timer))) after ps
    → Leaves (update before p (some (count_tick timer))) after ps
    → Counts before after (p ∷ ps)
unfolding update
Counts-first before after p timer ps there out counts leaves r timer' (inl e) at =
    let hit : (p == p) ≡ true = ground arith in
    let same : timer ≡ timer' = cc (ap before e, there, at) in
    rw (← e, ← same) (leaves p out ∙ rw hit refl)
Counts-first before after p timer ps there out counts leaves r timer' (inr (ne, more)) at =
    let miss : (r == p) ≡ false = ground arith in counts r timer' more (rw miss at)

pub Elapsed-goes_on :
    (s s' : Runtime) (blocks : ℕ → ℕ) (p : ℕ) (ks ps ts ws : List ℕ) (timer : Timer)
    → s.timer_at p ≡ some timer
    → ends timer ≡ false
    → NotIn p ps
    → Elapsed (ticked s p timer) s' blocks (ks ++ (p ∷ [])) ps ts ws
    → Elapsed s s' blocks ks (p ∷ ps) ts ws
Elapsed-goes_on s s' blocks p ks ps ts ws timer there goes_on out v =
    let ticked_timer = some (count_tick timer) in
    let same_due : due s.timer_at (p ∷ ps) ≡ due (ticked s p timer).timer_at ps =
      rw (there, goes_on) (sym (due-update s.timer_at p ticked_timer ps out)) in
    let same_pending : p ∷ pending (ticked s p timer).timer_at ps ≡ pending s.timer_at (p ∷ ps) =
      rw (there, goes_on) (ap (λ rs. p ∷ rs) (pending-update s.timer_at p ticked_timer ps out)) in
    record {
      timers = v.timers;
      timers_at = v.timers_at;
      timers_hold = rw (← same_pending) (rw (append_assoc ks (p ∷ [])) at v.timers_hold);
      back = v.back;
      ready = rw same_due v.ready;
      wait = rw same_due v.wait;
      cores = v.cores;
      other_threads = λ t apart. v.other_threads t (rw same_due at apart);
      are_threads = v.are_threads;
      unused = v.unused;
      counted = Counts-first s.timer_at s'.timer_at p timer ps there out v.counted v.other_timers;
      other_timers = Leaves-first s.timer_at s'.timer_at p ticked_timer ps v.other_timers;
    }

pub Elapsed-resumes :
    (s s' : Runtime) (blocks : ℕ → ℕ) (p : ℕ) (ks ps ts ws : List ℕ) (timer : Timer) (th : Thread)
    (ready wait : Queue)
    → s.timer_at p ≡ some timer
    → ends timer ≡ true
    → NotIn p ps
    → enqueue (blocks 0) timer.thread s.ready_q ≡ done ready
    → Elapsed
        (moved (ticked s p timer) timer.thread th thread_runnable ready wait)
        s'
        (later blocks)
        ks
        ps
        (ts ++ (timer.thread ∷ []))
        (without timer.thread ws)
    → Elapsed s s' blocks ks (p ∷ ps) ts ws
unfolding update
Elapsed-resumes s s' blocks p ks ps ts ws timer th ready wait there over out added v =
    let ticked_timer = some (count_tick timer) in
    let same_due : timer.thread ∷ due (ticked s p timer).timer_at ps ≡ due s.timer_at (p ∷ ps) =
      rw (there, over)
        (ap (λ ds. timer.thread ∷ ds) (due-update s.timer_at p ticked_timer ps out)) in
    let same_pending : pending (ticked s p timer).timer_at ps ≡ pending s.timer_at (p ∷ ps) =
      rw (there, over) (pending-update s.timer_at p ticked_timer ps out) in
    record {
      timers = v.timers;
      timers_at = v.timers_at;
      timers_hold = rw (← same_pending) v.timers_hold;
      back = v.back;
      ready = rw (← same_due) (rw (append_assoc ts (timer.thread ∷ [])) at v.ready);
      wait = rw (← same_due) v.wait;
      cores = v.cores;
      other_threads = λ t apart.
          let (ne, rest) = rw (← same_due) at apart in
          let miss : (t == timer.thread) ≡ false = ground arith in
          v.other_threads t rest ∙ rw miss refl;
      are_threads = λ t one. v.are_threads t (IsThread-put s timer.thread t _ one);
      unused = λ a gone free.
          v.unused a (enqueue-unused (blocks 0) timer.thread s.ready_q ready added a (free 0) gone)
            (λ i. free (suc i));
      counted = Counts-first s.timer_at s'.timer_at p timer ps there out v.counted v.other_timers;
      other_timers = Leaves-first s.timer_at s'.timer_at p ticked_timer ps v.other_timers;
    }
