-- ===== src/Taskdir/Change.antt =====
-- Deletion and remapping of a task.
use optimsoc.Prelude.{
  zero, suc, [], ◌∷◌, ◌≢◌, ℕ, ◌≡◌, refl, ap, ◌∙◌, inl, inr, Bool, false, ◌&&◌, Option, none, some,
  List, arith, ◌==◌, if◌then◌else◌, length, set, get_elem?, get_elem?-set, length-set,
  lt_of_get_elem?, lt→ltb, done, Bool-cases,
}
use optimsoc.Taskdir.{
  AppNode, Taskdir, mapped_entry, mutex_lock, task_delete, task_remap, invalid_rank, invalid_nodeid,
}
use optimsoc.Taskdir.View.{IsWhole, IsDir, place_of, place_at, view, is_some, inside_cases}

-- The directory `d'` maps the task to `p`, and every other task as `d` does.
pub record Changed (d d' : Taskdir) (taskid : ℕ) (p : Option (ℕ × ℕ)) : Type 0 where
  pub valid : IsDir d'
  pub place : (u : ℕ) → view d' u ≡ (if u == taskid then p else view d u)

set-IsWhole :
    (tasks : List AppNode) (new : AppNode) (taskid i : ℕ) (e : AppNode)
    → ((j : ℕ) (f : AppNode) → get_elem? tasks j ≡ some f → IsWhole f)
    → IsWhole new
    → get_elem? (set tasks taskid new) i ≡ some e
    → IsWhole e
set-IsWhole [] new taskid i e whole w h = absurd (cc)
set-IsWhole (x ∷ tasks) new zero zero e whole w h = ground (arith, h, w)
set-IsWhole (x ∷ tasks) new zero (suc i) e whole w h = whole (suc i) e h
set-IsWhole (x ∷ tasks) new (suc taskid) zero e whole w h = whole zero e h
set-IsWhole (x ∷ tasks) new (suc taskid) (suc i) e whole w h =
    set-IsWhole tasks new taskid i e (λ j f g. whole (suc j) f g) w h

-- One entry was written.
pub Changed-set :
    {d : Taskdir} {e : AppNode} (new : AppNode) (taskid : ℕ)
    → IsDir d
    → get_elem? d.tasks taskid ≡ some e
    → IsWhole new
    → Changed d (record d { lock = 0; tasks = set d.tasks taskid new }) taskid (place_of new)
Changed-set {d} {e} new taskid v here w = record {
  valid = record {
    unlocked = refl;
    sized = length-set d.tasks taskid new ∙ v.sized;
    whole = λ i e' h. set-IsWhole d.tasks new taskid i e' v.whole w h;
  };
  place =
      λ u. ground (arith, get_elem?-set d.tasks taskid u new, lt_of_get_elem? d.tasks taskid here);
}

-- Nothing was written.
pub Changed-same :
    {d : Taskdir} (taskid : ℕ) {p : Option (ℕ × ℕ)}
    → IsDir d
    → view d taskid ≡ p
    → Changed d d taskid p
Changed-same {d} taskid {p} v e = record {
  valid = v;
  place = λ u. ground (arith, (λ (s : u ≡ taskid). ap (view d) s), e);
}

-- In a valid directory deletion takes the task out of the mapping, leaves every other task, and
-- returns whether the task was there.
pub task_delete_lem :
    {d : Taskdir}
    → IsDir d
    → (taskid : ℕ)
    → (d' : Taskdir) × (task_delete taskid d ≡ done (is_some (view d taskid), d'))
      × Changed d d' taskid none
unfolding task_delete mutex_lock
task_delete_lem {d} v taskid = elim (inside_cases v taskid) [
  | inl (out, nothing) ↦
      (d, rw (v.unlocked, out, nothing) refl, Changed-same taskid v (ap place_at nothing))
  | inr (e, inside, here) ↦ elim (Bool-cases (mapped_entry e)) [
    | inl m ↦ (
      _,
      rw
          (
            v.unlocked,
            inside,
            here,
            m,
            lt→ltb taskid (length d.tasks) (lt_of_get_elem? d.tasks taskid here),
          )
          refl,
      Changed-set (record e { rank = invalid_rank; nodeid = invalid_nodeid }) taskid v here refl,
    )
    | inr free ↦ (
      d,
      rw (v.unlocked, inside, here, free) refl,
      Changed-same taskid v
          (ap place_at here ∙ ap (λ (b : Bool). if b then some (e.rank, e.nodeid) else none) free),
    )
  ]
]

-- The task stands at this rank and node.
abbrev pub is_place : Option (ℕ × ℕ) → (rank nodeid : ℕ) → Bool
is_place none rank nodeid = false
is_place (some (r, n)) rank nodeid = (r == rank) && (n == nodeid)

is_place-place_of :
    (e : AppNode) (rank nodeid : ℕ)
    → rank ≢ invalid_rank
    → nodeid ≢ invalid_nodeid
    → is_place (place_of e) rank nodeid ≡ ((e.rank == rank) && (e.nodeid == nodeid))
is_place-place_of e rank nodeid a b = ground arith

pub place_of-valid :
    (e : AppNode)
    → e.rank ≢ invalid_rank
    → e.nodeid ≢ invalid_nodeid
    → place_of e ≡ some (e.rank, e.nodeid)
place_of-valid e a b = ground arith

-- In a valid directory remapping moves the task to the new rank and node if it stands at the old ones,
-- leaves every other task, and returns whether it did. Both places are ones that a task can have.
pub task_remap_lem :
    {d : Taskdir}
    → IsDir d
    → (taskid old_rank new_rank old_nodeid new_nodeid : ℕ) → old_rank ≢ invalid_rank
    → old_nodeid ≢ invalid_nodeid
    → (new_rank ≢ invalid_rank)
    → (new_nodeid ≢ invalid_nodeid)
    → (let here = is_place (view d taskid) old_rank old_nodeid in
        (d' : Taskdir) × (task_remap taskid old_rank new_rank old_nodeid new_nodeid d
          ≡ done (here, d'))
        × Changed d d' taskid (if here then some (new_rank, new_nodeid) else view d taskid))
unfolding task_remap mutex_lock
task_remap_lem {d} v taskid old_rank new_rank old_nodeid new_nodeid a b a' b' =
    elim (inside_cases v taskid) [
      | inl (out, nothing) ↦
          (d, rw (v.unlocked, out, nothing) refl, Changed-same taskid v (rw nothing refl))
      | inr (e, inside, here) ↦
          let same = is_place-place_of e old_rank old_nodeid a b in
          elim (Bool-cases ((e.rank == old_rank) && (e.nodeid == old_nodeid))) [
            | inl m ↦
                let new : AppNode = record e { rank = new_rank; nodeid = new_nodeid } in
                let inside_tasks =
                  lt→ltb taskid (length d.tasks) (lt_of_get_elem? d.tasks taskid here) in
                (
                  record d { lock = 0; tasks = set d.tasks taskid new },
                  rw (v.unlocked, inside, here, m, inside_tasks, same, m) refl,
                  rw (here, same, m, ← place_of-valid new a' b')
                      (Changed-set new taskid v here (ground arith)),
                )
            | inr free ↦ (
              d,
              rw (v.unlocked, inside, here, free, same, free) refl,
              Changed-same taskid v (rw (here, same, free) refl),
            )
          ]
    ]
