-- ===== src/LinkedList/Chain.antt =====
-- The entries that are reached from the head of a list, and writes to memory that keep them.
use optimsoc.Prelude.{ℕ, ◌≡◌, ◌≢◌, sym, Option, some, List, [], ◌∷◌, ◌++◌, arith}
use optimsoc.Registry.{update}
use optimsoc.LinkedList.{ListEntry, OptimsocList, Entries}

-- The entries from `p` on, as pairs of their address and their data.
abbrev pub Chain : Entries → ℕ → List (ℕ × ℕ) → Type 0
Chain mem p [] = p ≡ 0
Chain mem p ((a, d) ∷ xs) =
    (p ≡ a) × (a ≢ 0) × (e : ListEntry) × (mem a ≡ some e) × (e.data_ptr ≡ d) × Chain mem e.next xs

-- No entry has the address `a`.
abbrev pub Absent : ℕ → List (ℕ × ℕ) → Type 0
Absent a [] = Unit
Absent a ((b, d) ∷ xs) = (a ≢ b) × Absent a xs

abbrev pub Distinct : List (ℕ × ℕ) → Type 0
Distinct [] = Unit
Distinct ((a, d) ∷ xs) = Absent a xs × Distinct xs

-- The address of the last entry, with 0 for none.
abbrev pub last_of : List (ℕ × ℕ) → ℕ
last_of [] = 0
last_of ((a, d) ∷ []) = a
last_of ((a, d) ∷ (x ∷ xs)) = last_of (x ∷ xs)

-- The list head `l` stands for the entries `xs`.
pub record IsList (l : OptimsocList) (xs : List (ℕ × ℕ)) (mem : Entries) : Type 0 where
  pub chain : Chain mem l.head xs
  pub tail_last : l.tail ≡ last_of xs
  pub distinct : Distinct xs

-- A write elsewhere keeps the chain.
pub Chain-update :
    (mem : Entries) (p : ℕ) (v : Option ListEntry) (h : ℕ) (xs : List (ℕ × ℕ))
    → Absent p xs
    → Chain mem h xs
    → Chain (update mem p v) h xs
unfolding update
Chain-update mem p v h [] absent c = c
Chain-update mem p v h ((a, d) ∷ xs) (ne, absent) (at, nonzero, e, here, same, rest) =
    (at, nonzero, e, ground (arith, here), same, Chain-update mem p v e.next xs absent rest)

pub Absent-append :
    (a b d : ℕ) (xs : List (ℕ × ℕ)) → Absent a xs → a ≢ b → Absent a (xs ++ ((b, d) ∷ []))
Absent-append a b d [] absent ne = (ne, tt)
Absent-append a b d ((c, e) ∷ xs) (first, absent) ne = (first, Absent-append a b d xs absent ne)

pub Distinct-append :
    (b d : ℕ) (xs : List (ℕ × ℕ)) → Distinct xs → Absent b xs → Distinct (xs ++ ((b, d) ∷ []))
Distinct-append b d [] distinct absent = (tt, tt)
Distinct-append b d ((a, e) ∷ xs) (fresh, distinct) (ne, absent) =
    (Absent-append a b d xs fresh (λ s. ne (sym s)), Distinct-append b d xs distinct absent)

-- An absent address is not the last one either.
pub last_of-ne : (a : ℕ) (xs : List (ℕ × ℕ)) → a ≢ 0 → Absent a xs → a ≢ last_of xs
last_of-ne a [] nonzero absent = nonzero
last_of-ne a ((b, d) ∷ []) nonzero (ne, absent) = ne
last_of-ne a ((b, d) ∷ ((c, e) ∷ xs)) nonzero (ne, absent) =
    last_of-ne a ((c, e) ∷ xs) nonzero absent
