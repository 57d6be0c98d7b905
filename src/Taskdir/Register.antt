-- ===== src/Taskdir/Register.antt =====
-- Registration of a task, with the table expanded where it is too small.
use optimsoc.Prelude.{
  leb→le, add32, mul32, ◌/◌, ℕ, zero, suc, ◌-◌, ◌^◌, ◌≡◌, ◌≢◌, ◌<◌, ◌≤◌, refl, ap, ◌∙◌, inl, inr,
  false, not, ◌&&◌, Option, none, some, List, [], ◌∷◌, ◌++◌, arith, ltb, leb, ◌==◌, if◌then◌else◌,
  length, set, take, replicate, get_elem?, length-append, lt_of_get_elem?, lt→ltb, done, Bool-cases,
}
use optimsoc.Taskdir.{
  AppNode, Taskdir, mutex_lock, task_register, enter_task, expand, resize, spare_entry,
  invalid_rank, invalid_nodeid, endpoint_table_init,
}
use optimsoc.Taskdir.View.{IsDir, IsWhole, place_of, place_at, view, is_some, inside_cases}
use optimsoc.Taskdir.Change.{Changed, Changed-set, Changed-same, place_of-valid}

length-replicate : (n : ℕ) (e : AppNode) → length (replicate n e) ≡ n
length-replicate zero e = refl
length-replicate (suc n) e = ap suc (length-replicate n e)

-- A list taken whole.
take-all : (n : ℕ) (tasks : List AppNode) → length tasks ≤ n → take n tasks ≡ tasks
take-all zero [] h = refl
take-all zero (e ∷ tasks) h = absurd (omega arith)
take-all (suc n) [] h = refl
take-all (suc n) (e ∷ tasks) h = ap (λ (t : List AppNode). e ∷ t) (take-all n tasks (omega arith))

-- Spare entries behind the table map no task.
place_at-spare :
    (n : ℕ) (tasks : List AppNode) (u : ℕ)
    → place_at (get_elem? (tasks ++ replicate n spare_entry) u) ≡ place_at (get_elem? tasks u)
place_at-spare zero [] u = refl
place_at-spare (suc n) [] zero = refl
place_at-spare (suc n) [] (suc u) = place_at-spare n [] u
place_at-spare n (e ∷ tasks) zero = refl
place_at-spare n (e ∷ tasks) (suc u) = place_at-spare n tasks u

spare-IsWhole :
    (n : ℕ) (tasks : List AppNode)
    → ((j : ℕ) (f : AppNode) → get_elem? tasks j ≡ some f → IsWhole f)
    → (i : ℕ) (e : AppNode) → get_elem? (tasks ++ replicate n spare_entry) i ≡ some e
    → IsWhole e
spare-IsWhole zero [] whole i e h = absurd (cc)
spare-IsWhole (suc n) [] whole zero e h = ground (arith, h)
spare-IsWhole (suc n) [] whole (suc i) e h = spare-IsWhole n [] whole i e h
spare-IsWhole n (x ∷ tasks) whole zero e h = whole zero e h
spare-IsWhole n (x ∷ tasks) whole (suc i) e h =
    spare-IsWhole n tasks (λ j f g. whole (suc j) f g) i e h

-- The table grows to the task, and the mapping stays.
expand_lem :
    {d : Taskdir} (taskid : ℕ)
    → IsDir d
    → d.size ≤ taskid
    → taskid < 2 ^ 28 - 1
    → (d' : Taskdir) × (expand taskid d ≡ done d')
      × IsDir d'
      × (taskid < d'.size)
      × ((u : ℕ) → view d' u ≡ view d u)
unfolding expand
expand_lem {d} taskid v beyond small =
    let n = suc taskid in
    let counted : add32 taskid 1 ≡ n = omega arith in
    let enough : ltb (mul32 n 16 / 16) n ≡ false = ground arith in
    let more = n - length d.tasks in
    (
      record d { tasks = resize n d.tasks; size = n },
      rw (counted, enough) refl,
      record {
        unlocked = v.unlocked;
        sized =
            length-append (take n d.tasks) (replicate more spare_entry)
            ∙ ground (
              arith,
              ap length (take-all n d.tasks (omega (arith, v.sized))),
              length-replicate more spare_entry,
              v.sized,
            );
        whole =
            rw (take-all n d.tasks (omega (arith, v.sized))) (spare-IsWhole more d.tasks v.whole);
      },
      omega arith,
      λ u. rw (take-all n d.tasks (omega (arith, v.sized))) (place_at-spare more d.tasks u),
    )

-- The second half of the registration, on a table that holds the task.
register_inside :
    {d : Taskdir} (taskid : ℕ) (identifier : List ℕ) (rank nodeid : ℕ)
    → IsDir d
    → taskid < d.size
    → rank ≢ invalid_rank
    → nodeid ≢ invalid_nodeid
    → (d' : Taskdir) × (enter_task taskid identifier rank nodeid d
        ≡ done (not (is_some (view d taskid)), d'))
      × Changed d d' taskid (if is_some (view d taskid) then view d taskid else some (rank, nodeid))
unfolding enter_task
register_inside {d} taskid identifier rank nodeid v h a b = elim (inside_cases v taskid) [
  | inl (out, nothing) ↦ absurd (ground arith)
  | inr (e, inside, here) ↦
      elim (Bool-cases ((e.rank == invalid_rank) && (e.nodeid == invalid_nodeid))) [
        | inl m ↦
            let new : AppNode = record {
              identifier = some identifier;
              rank = rank;
              nodeid = nodeid;
              table = some endpoint_table_init;
            } in
            let inside_tasks =
              lt→ltb taskid (length d.tasks) (lt_of_get_elem? d.tasks taskid here) in
            let free : place_of e ≡ none = ground arith in
            (
              record d { lock = 0; tasks = set d.tasks taskid new },
              rw (here, m, inside_tasks, free) refl,
              rw (here, free, ← place_of-valid new a b)
                  (Changed-set new taskid v here (ground arith)),
            )
        | inr taken ↦
            let there : place_of e ≡ some (e.rank, e.nodeid) =
              ground (arith, v.whole taskid e here) in
            (
              d,
              rw (here, taken, there, v.unlocked) refl,
              rw (here, there) (Changed-same taskid v (ap place_at here ∙ there)),
            )
      ]
]

-- A change of a directory with the same mapping.
Changed-via :
    {d d1 d' : Taskdir} {taskid : ℕ} {p : Option (ℕ × ℕ)}
    → ((u : ℕ) → view d1 u ≡ view d u)
    → Changed d1 d' taskid p
    → Changed d d' taskid p
Changed-via {d} {d1} {d'} {taskid} {p} same c = record {
  valid = c.valid;
  place = λ u. c.place u ∙ ap (λ (q : Option (ℕ × ℕ)). if u == taskid then p else q) (same u);
}

mutex_lock-free : {d : Taskdir} → IsDir d → mutex_lock d.lock ≡ done 1
unfolding mutex_lock
mutex_lock-free v = rw v.unlocked refl

-- In a valid directory registration puts a task that has no place at a rank and node that a task can
-- have, leaves every other task, and returns whether it did; the table grows to hold the task. The
-- task number is below 2^28 - 1, so that the table fits the address space.
pub task_register_lem :
    {d : Taskdir}
    → IsDir d
    → (taskid : ℕ) (identifier : List ℕ) (rank nodeid : ℕ) → taskid < 2 ^ 28 - 1
    → rank ≢ invalid_rank
    → nodeid ≢ invalid_nodeid
    → (d' : Taskdir) × (task_register taskid identifier rank nodeid d
        ≡ done (not (is_some (view d taskid)), d'))
      × Changed d d' taskid (if is_some (view d taskid) then view d taskid else some (rank, nodeid))
unfolding task_register
task_register_lem {d} v taskid identifier rank nodeid small a b =
    elim (Bool-cases (leb d.size taskid)) [
      | inl beyond ↦
          let (d1, grown, v1, inside, same) =
            expand_lem taskid v (leb→le d.size taskid beyond) small in
          let (d', run, changed) = register_inside taskid identifier rank nodeid v1 inside a b in
          (
            d',
            rw (mutex_lock-free v, beyond, grown, run, same taskid) refl,
            rw (← same taskid) (Changed-via same changed),
          )
      | inr held ↦
          let (d', run, changed) =
            register_inside taskid identifier rank nodeid v (ground (arith, held)) a b in
          (d', rw (mutex_lock-free v, held) run, changed)
    ]
