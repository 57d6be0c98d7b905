-- ===== src/Registry/Ports.antt =====
-- The port that `endpoint_generate_portnum` chooses.
use optimsoc.Prelude.{
  ℕ, zero, suc, ◌+◌, ◌≡◌, ◌≢◌, ◌≤◌, ◌<◌, ◌⊎◌, inl, inr, refl, ap, ◌∙◌, true, false, Option, none,
  some, List, arith, ◌==◌, if◌then◌else◌, length, done, ◌>>=◌, Option-cases,
}
use native.Mathlib.Decide.{ℕ_discrete}
use optimsoc.Registry.{Registry, load, max_endpoints, portnum_loop, generate_portnum}
use optimsoc.Registry.Listed.{Item, Listed, first_that, walk_lem}

-- The first handle with a port.
abbrev pub holder : (port : ℕ) → List Item → Option ℕ
holder port xs = first_that (λ x. x.value.port == port) xs

portnum_loop_lem :
    {r : Registry} {xs : List Item}
    → Listed r xs
    → (fuel k from n : ℕ) → length xs < fuel
    → ((q : ℕ) → q < k → holder q xs ≢ none)
    → (k ≡ max_endpoints) ⊎ (holder k xs ≡ none)
    → from ≤ k
    → k ≤ max_endpoints
    → from + n ≡ max_endpoints
    → portnum_loop fuel from n r ≡ done (if k == max_endpoints then none else some k)
unfolding portnum_loop load
portnum_loop_lem {r} {xs} l fuel k from zero enough used free a b c =
    let last : (k == max_endpoints) ≡ true = ground arith in rw last refl
portnum_loop_lem {r} {xs} l fuel k from (suc n) enough used free a b c =
    let search =
      walk_lem r.elems r.handles (λ h. (load r.handles h >>= λ eph. done (eph.port == from)))
        (λ x. x.value.port == from)
        (λ x there holds. let off : (x.pointer == 0) ≡ false = ground arith in rw (off, holds) refl)
        xs r.eplist_first fuel l.segment enough in
    elim (ℕ_discrete from k) [
      | yes at ↦
          let inside : (k == max_endpoints) ≡ false = ground arith in
          let nobody : holder from xs ≡ none = elim free [
            | inl e ↦ absurd (omega arith)
            | inr f ↦ ap (λ (t : ℕ). holder t xs) at ∙ f
          ] in
          rw (search, nobody, inside) (ap (λ (t : ℕ). done (some t)) at)
      | no other ↦ elim (Option-cases (holder from xs)) [
        | inl nobody ↦ absurd (used from (omega arith) nobody)
        | inr (h, taken) ↦
            rw (search, taken)
              (portnum_loop_lem l fuel k (suc from) n enough used free (omega arith) b
                (omega arith))
      ]
    ]

-- In a well-linked list the port is the smallest that no handle has, and there is none where all 100 are in use. `k`
-- counts the ports in use before it.
pub generate_portnum_lem :
    {r : Registry} {xs : List Item}
    → Listed r xs
    → (fuel k : ℕ) → length xs < fuel
    → k ≤ max_endpoints
    → ((q : ℕ) → q < k → holder q xs ≢ none)
    → (k ≡ max_endpoints) ⊎ (holder k xs ≡ none)
    → generate_portnum fuel r ≡ done (if k == max_endpoints then none else some k)
unfolding generate_portnum
generate_portnum_lem l fuel k enough b used free =
    portnum_loop_lem l fuel k 0 max_endpoints enough used free (omega arith) b (omega arith)
