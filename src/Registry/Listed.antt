-- ===== src/Registry/Listed.antt =====
-- The handles that the list of libmp/endpoints.c holds, in order.
use optimsoc.Prelude.{
  if-done, ◌⊎◌, Option-cases, ℕ, zero, suc, ◌≡◌, ◌≢◌, ◌<◌, refl, Bool, true, false, ◌&&◌, Option,
  none, some, List, [], ◌∷◌, arith, ◌==◌, if◌then◌else◌, length, Run, done, inl, inr,
}
use optimsoc.Registry.{Handle, ListElem, Registry, load, walk, is_at, find, get}

-- A list element: its address, the address of its handle, and the handle.
pub record Item : Type 0 where
  pub at : ℕ
  pub pointer : ℕ
  pub value : Handle

-- The elements from `p` on.
abbrev pub Segment :
    (elems : ℕ → Option ListElem) (handles : ℕ → Option Handle) → ℕ → List Item → Type 0
Segment elems handles p [] = p ≡ 0
Segment elems handles p (x ∷ xs) =
    (p ≡ x.at)
    × (x.at ≢ 0)
    × (x.pointer ≢ 0)
    × (handles x.pointer ≡ some x.value)
    × (e : ListElem) × (elems x.at ≡ some e)
    × (e.handle ≡ x.pointer)
    × Segment elems handles e.next xs

-- The first handle that passes a test.
abbrev pub first_that : (test : Item → Bool) → List Item → Option ℕ
first_that test [] = none
first_that test (x ∷ xs) = if test x then some x.pointer else first_that test xs

abbrev pub stands_at : (domain node port : ℕ) → Item → Bool
stands_at domain node port x =
    (x.value.domain == domain) && (x.value.node == node) && (x.value.port == port)

-- A walk over the list stops at the first handle that passes.
pub walk_lem :
    (elems : ℕ → Option ListElem) (handles : ℕ → Option Handle) (test : ℕ → Run Bool)
    (passes : Item → Bool)
    → ((x : Item)
        → x.pointer ≢ 0
        → handles x.pointer ≡ some x.value
        → test x.pointer ≡ done (passes x))
    → (xs : List Item) (p fuel : ℕ) → Segment elems handles p xs
    → length xs < fuel
    → walk test elems fuel p ≡ done (first_that passes xs)
unfolding walk load
walk_lem elems handles test passes same xs p zero s h = absurd (omega arith)
walk_lem elems handles test passes same [] p (suc fuel) s h = rw s refl
walk_lem elems handles test passes same (x ∷ xs) p (suc fuel) s h =
    let (at, nonzero, there, holds, e, here, points, rest) = s in
    let off : (x.at == 0) ≡ false = ground arith in
    let more = walk_lem elems handles test passes same xs e.next fuel rest (omega arith) in
    rw (at, off, here, points, same x there holds, more)
      (if-done (passes x) (some x.pointer) (first_that passes xs))

-- The list of the registry.
pub record Listed (r : Registry) (xs : List Item) : Type 0 where
  pub segment : Segment r.elems r.handles r.eplist_first xs

pub find_lem :
    {r : Registry} {xs : List Item}
    → Listed r xs
    → (fuel domain node port : ℕ) → length xs < fuel
    → find fuel domain node port r ≡ done (first_that (stands_at domain node port) xs)
unfolding find is_at load
find_lem {r} {xs} l fuel domain node port enough =
    walk_lem r.elems r.handles (is_at r.handles domain node port) (stands_at domain node port)
      (λ x there holds. let off : (x.pointer == 0) ≡ false = ground arith in rw (off, holds) refl)
      xs r.eplist_first fuel l.segment enough

-- In a well-linked list `endpoint_get` returns the first handle for a domain, node and port, and no handle for an unknown
-- endpoint of the own tile. Nothing is asked for and nothing changes.
pub get-known :
    {r : Registry} {xs : List Item}
    → Listed r xs
    → (fuel tileid : ℕ) (remote_ep : Run ℕ) (e h domain node port : ℕ) → length xs < fuel
    → (first_that (stands_at domain node port) xs ≢ none) ⊎ (domain ≡ tileid)
    → get fuel tileid remote_ep e h domain node port r
      ≡ done (first_that (stands_at domain node port) xs, r)
unfolding get
get-known {r} {xs} l fuel tileid remote_ep e h domain node port enough known =
    elim (Option-cases (first_that (stands_at domain node port) xs)) [
      | inl unknown ↦
          let own : (domain == tileid) ≡ true = ground (arith, known, unknown) in
          rw (find_lem l fuel domain node port enough, unknown, own) refl
      | inr (found, there) ↦ rw (find_lem l fuel domain node port enough, there) refl
    ]
