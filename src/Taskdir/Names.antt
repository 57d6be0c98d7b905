-- ===== src/Taskdir/Names.antt =====
-- The search for a task by its name.
use optimsoc.Prelude.{
  ℕ, zero, suc, ◌+◌, ◌≡◌, ◌≢◌, inl, inr, ap, Bool-cases, [], ◌∷◌, ◌<◌, ◌≤◌, refl, true, false, none,
  some, List, arith, get_elem?, lt_of_get_elem?, done, fault,
}
use native.Mathlib.Decide.{ℕ_discrete}
use optimsoc.Taskdir.{AppNode, Taskdir, mutex_lock, same_text, taskid_loop, taskid_lookup}
use optimsoc.Taskdir.View.{IsDir}

-- The comparison tells whether two texts are the same.
same_text_refl : (s : List ℕ) → same_text s s ≡ true
unfolding same_text
same_text_refl [] = refl
same_text_refl (x ∷ s) = ground (arith, same_text_refl s)

eq_of_same_text : (s t : List ℕ) → same_text s t ≡ true → s ≡ t
unfolding same_text
eq_of_same_text [] [] e = refl
eq_of_same_text [] (y ∷ t) e = absurd (cc)
eq_of_same_text (x ∷ s) [] e = absurd (cc)
eq_of_same_text (x ∷ s) (y ∷ t) e =
    let head : x ≡ y = ground arith in
    let rest : same_text s t ≡ true = ground arith in
    rw head (ap (λ (u : List ℕ). y ∷ u) (eq_of_same_text s t rest))

same_text-ne : (s t : List ℕ) → s ≢ t → same_text s t ≡ false
same_text-ne s t ne = elim (Bool-cases (same_text s t)) [
  | inl same ↦ absurd (ne (eq_of_same_text s t same))
  | inr differs ↦ differs
]

-- Entry `i` of the table has the name `text`.
abbrev pub Named : (tasks : List AppNode) (i : ℕ) (text : List ℕ) → Type 0
Named tasks i text = (e : AppNode) × (get_elem? tasks i ≡ some e) × (e.identifier ≡ some text)

taskid_loop_lem :
    (tasks : List AppNode) (identifier : List ℕ) (k i n : ℕ)
    → ((j : ℕ) → j < k → (text : List ℕ) × Named tasks j text × (text ≢ identifier))
    → Named tasks k identifier
    → i ≤ k
    → k < i + n
    → taskid_loop identifier i n tasks ≡ done (some k)
unfolding taskid_loop
taskid_loop_lem tasks identifier k i zero before here h g = absurd (omega arith)
taskid_loop_lem tasks identifier k i (suc n) before here h g = elim (ℕ_discrete i k) [
  | yes at ↦ let (e, found, named) = here in rw (at, found, named, same_text_refl identifier) refl
  | no other ↦
      let (text, (e, found, named), differs) = before i (omega arith) in
      rw (found, named, same_text-ne text identifier differs)
        (taskid_loop_lem tasks identifier k (suc i) n before here (omega arith) (omega arith))
]

-- In a valid directory the search returns the first entry of the table that has the name, whether its
-- task is still registered or was deleted, where every entry before it has a name, and another one.
pub taskid_lookup_lem :
    {d : Taskdir} (identifier : List ℕ) (k : ℕ)
    → IsDir d
    → ((j : ℕ) → j < k → (text : List ℕ) × Named d.tasks j text × (text ≢ identifier))
    → Named d.tasks k identifier
    → taskid_lookup identifier d ≡ done (some k, d)
unfolding taskid_lookup mutex_lock
taskid_lookup_lem {d} identifier k v before here =
    let (e, found, named) = here in
    rw
      (
        v.unlocked,
        taskid_loop_lem d.tasks identifier k 0 d.size before here (omega arith)
            (omega (arith, lt_of_get_elem? d.tasks k found, v.sized)),
      )
      refl

loop_unset :
    (identifier : List ℕ) (n : ℕ) (tasks : List AppNode) {e : AppNode}
    → 0 < n
    → get_elem? tasks 0 ≡ some e
    → e.identifier ≡ none
    → taskid_loop identifier 0 n tasks ≡ fault
unfolding taskid_loop
loop_unset identifier zero tasks h here unset = absurd (omega arith)
loop_unset identifier (suc n) tasks h here unset = rw (here, unset) refl

-- In a valid directory where the first task of the table was never registered the search reads a pointer that was never
-- set.
pub taskid_lookup-unset :
    {d : Taskdir} {e : AppNode} (identifier : List ℕ)
    → IsDir d
    → get_elem? d.tasks 0 ≡ some e
    → e.identifier ≡ none
    → taskid_lookup identifier d ≡ fault
unfolding taskid_lookup mutex_lock
taskid_lookup-unset {d} {e} identifier v here unset =
    rw
      (
        v.unlocked,
        loop_unset identifier d.size d.tasks
            (omega (arith, lt_of_get_elem? d.tasks 0 here, v.sized)) here unset,
      )
      refl
