-- ===== src/Taskdir/View.antt =====
-- The mapping from tasks to ranks and nodes that a task directory stands for.
use optimsoc.Prelude.{
  ◌⊎◌, inl, inr, Option-cases, le_of_get_elem?-none, lt_of_get_elem?, ℕ, ◌≡◌, refl, Bool, true,
  false, Option, none, some, arith, ltb, ◌==◌, if◌then◌else◌, length, get_elem?, done,
}
use optimsoc.Taskdir.{
  AppNode, invalid_rank, invalid_nodeid, Taskdir, mapped_entry, mutex_lock, mapping_lookup,
}

-- The rank and the node of an entry are both there or both missing.
abbrev pub IsWhole : AppNode → Type 0
IsWhole e = (e.rank == invalid_rank) ≡ (e.nodeid == invalid_nodeid)

-- Nobody holds the lock, the size is that of the table, and each entry is whole.
pub record IsDir (d : Taskdir) : Type 0 where
  pub unlocked : d.lock ≡ 0
  pub sized : length d.tasks ≡ d.size
  pub whole : (i : ℕ) (e : AppNode) → get_elem? d.tasks i ≡ some e → IsWhole e

-- The rank and node of a task.
abbrev pub place_of : AppNode → Option (ℕ × ℕ)
place_of e = if mapped_entry e then some (e.rank, e.nodeid) else none

abbrev pub place_at : Option AppNode → Option (ℕ × ℕ)
place_at none = none
place_at (some e) = place_of e

abbrev pub view : Taskdir → ℕ → Option (ℕ × ℕ)
view d taskid = place_at (get_elem? d.tasks taskid)

abbrev pub is_some : Option (ℕ × ℕ) → Bool
is_some none = false
is_some (some p) = true

-- A task outside the table, or an entry of it.
pub inside_cases :
    {d : Taskdir}
    → IsDir d
    → (taskid : ℕ)
    → ((ltb taskid d.size ≡ false) × (get_elem? d.tasks taskid ≡ none))
      ⊎ ((e : AppNode) × (ltb taskid d.size ≡ true) × (get_elem? d.tasks taskid ≡ some e))
inside_cases {d} v taskid = elim (Option-cases (get_elem? d.tasks taskid)) [
  | inl n ↦ inl (ground (arith, le_of_get_elem?-none d.tasks taskid n, v.sized), n)
  | inr (e, h) ↦ inr (e, ground (arith, lt_of_get_elem? d.tasks taskid h, v.sized), h)
]

-- In a valid directory the lookup returns what the mapping has, and leaves the directory as it was.
pub mapping_lookup_lem :
    {d : Taskdir} → IsDir d → (taskid : ℕ) → mapping_lookup taskid d ≡ done (view d taskid, d)
unfolding mapping_lookup mutex_lock
mapping_lookup_lem {d} v taskid = elim (inside_cases v taskid) [
  | inl (out, nothing) ↦ rw (v.unlocked, out, nothing) refl
  | inr (e, inside, here) ↦ rw (v.unlocked, inside, here) refl
]
