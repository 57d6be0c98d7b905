-- ===== src/LinkedList/Linked.antt =====
-- Stretches of a list that are linked in both directions, and the writes to memory that keep them.
use optimsoc.Prelude.{ℕ, ◌≡◌, ◌≢◌, refl, sym, ◌∙◌, Option, none, some, List, [], ◌∷◌, ◌++◌, arith}
use optimsoc.Registry.{update}
use optimsoc.LinkedList.{ListEntry, OptimsocList, Entries}
use optimsoc.LinkedList.Chain.{Chain, Absent, Distinct, IsList, last_of}

-- The entries from `h` on, whose first points back to `b` and whose last points to `n`.
abbrev pub Linked : Entries → (b h : ℕ) → List (ℕ × ℕ) → (n : ℕ) → Type 0
Linked mem b h [] n = h ≡ n
Linked mem b h ((a, d) ∷ xs) n =
    (h ≡ a)
    × (a ≢ 0)
    × (e : ListEntry) × (mem a ≡ some e)
    × (e.data_ptr ≡ d)
    × (e.prev ≡ b)
    × Linked mem a e.next xs n

-- The address of the last entry, with `b` for none.
abbrev pub last_or : ℕ → List (ℕ × ℕ) → ℕ
last_or b [] = b
last_or b ((a, d) ∷ xs) = last_or a xs

-- The list head `l` stands for the entries `xs`, whose first points back to `b`: 0, or an entry
-- that was removed.
pub record IsLinked (l : OptimsocList) (xs : List (ℕ × ℕ)) (mem : Entries) (b : ℕ) : Type 0 where
  pub linked : Linked mem b l.head xs 0
  pub tail_last : l.tail ≡ last_or 0 xs
  pub distinct : Distinct xs

pub Linked-update :
    (mem : Entries) (p : ℕ) (v : Option ListEntry) (b h : ℕ) (xs : List (ℕ × ℕ)) (n : ℕ)
    → Absent p xs
    → Linked mem b h xs n
    → Linked (update mem p v) b h xs n
unfolding update
Linked-update mem p v b h [] n absent c = c
Linked-update mem p v b h ((a, d) ∷ xs) n (ne, absent) (at, nz, e, here, same, back, rest) =
    (at, nz, e, ground (arith, here), same, back, Linked-update mem p v a e.next xs n absent rest)

pub Linked-append :
    (mem : Entries) (b h m n : ℕ) (xs ys : List (ℕ × ℕ))
    → Linked mem b h xs m
    → Linked mem (last_or b xs) m ys n
    → Linked mem b h (xs ++ ys) n
Linked-append mem b h m n [] ys c k = rw c k
Linked-append mem b h m n ((a, d) ∷ xs) ys (at, nz, e, here, same, back, rest) k =
    (at, nz, e, here, same, back, Linked-append mem a e.next m n xs ys rest k)

pub Linked-split :
    (mem : Entries) (b h n : ℕ) (xs ys : List (ℕ × ℕ))
    → Linked mem b h (xs ++ ys) n
    → (m : ℕ) × Linked mem b h xs m × Linked mem (last_or b xs) m ys n
Linked-split mem b h n [] ys c = (h, refl, c)
Linked-split mem b h n ((a, d) ∷ xs) ys (at, nz, e, here, same, back, rest) =
    let (m, front, end) = Linked-split mem a e.next n xs ys rest in
    (m, (at, nz, e, here, same, back, front), end)

-- The last entry of a stretch that is not empty.
pub Linked-last :
    (mem : Entries) (b h n : ℕ) (x : ℕ × ℕ) (xs : List (ℕ × ℕ))
    → Linked mem b h (x ∷ xs) n
    → (e : ListEntry) × (mem (last_or b (x ∷ xs)) ≡ some e) × (last_or b (x ∷ xs) ≢ 0)
Linked-last mem b h n (a, d) [] (at, nz, e, here, same, back, rest) = (e, here, nz)
Linked-last mem b h n (a, d) (y ∷ xs) (at, nz, e, here, same, back, rest) =
    Linked-last mem a e.next n y xs rest

pub last_or-ne : (a b : ℕ) (xs : List (ℕ × ℕ)) → a ≢ b → Absent a xs → a ≢ last_or b xs
last_or-ne a b [] ne absent = ne
last_or-ne a b ((c, d) ∷ xs) ne (apart, absent) = last_or-ne a c xs apart absent

-- A new `next` pointer in the last entry.
pub Linked-set_next :
    (mem : Entries) (b h m n : ℕ) (x : ℕ × ℕ) (xs : List (ℕ × ℕ)) (last : ListEntry)
    → Linked mem b h (x ∷ xs) m
    → Distinct (x ∷ xs)
    → mem (last_or b (x ∷ xs)) ≡ some last
    → Linked (update mem (last_or b (x ∷ xs)) (some (record last { next = n }))) b h (x ∷ xs) n
unfolding update
Linked-set_next mem b h m n (a, d) [] last (at, nz, e, here, same, back, rest) distinct there = (
  at,
  nz,
  record last { next = n },
  ground arith,
  data_kept e last d (sym here ∙ there) same,
  prev_kept e last b (sym here ∙ there) back,
  refl,
)
  where
    data_kept :
        (e last : ListEntry) (d : ℕ) → some e ≡ some last → e.data_ptr ≡ d → last.data_ptr ≡ d
    data_kept e last d both same = ground (arith, both, same)

    prev_kept : (e last : ListEntry) (b : ℕ) → some e ≡ some last → e.prev ≡ b → last.prev ≡ b
    prev_kept e last b both back = ground (arith, both, back)
Linked-set_next mem b h m n (a, d) ((c, f) ∷ xs) last (at, nz, e, here, same, back, rest)
      (apart, distinct) there =
    (
      at,
      nz,
      e,
      ground (arith, here, last_or-ne a c xs apart.0 apart.1),
      same,
      back,
      Linked-set_next mem a e.next m n (c, f) xs last rest distinct there,
    )

-- A new `prev` pointer in the first entry.
pub Linked-set_prev :
    (mem : Entries) (b b' a d n : ℕ) (xs : List (ℕ × ℕ)) (first : ListEntry)
    → Linked mem b a ((a, d) ∷ xs) n
    → Absent a xs
    → mem a ≡ some first
    → Linked (update mem a (some (record first { prev = b' }))) b' a ((a, d) ∷ xs) n
unfolding update
Linked-set_prev mem b b' a d n xs first (at, nz, e, here, same, back, rest) absent there = (
  refl,
  nz,
  record first { prev = b' },
  ground arith,
  data_kept e first d (sym here ∙ there) same,
  refl,
  next_kept e first _ (sym here ∙ there)
      (Linked-update mem a (some (record first { prev = b' })) a e.next xs n absent rest),
)
  where
    data_kept :
        (e first : ListEntry) (d : ℕ) → some e ≡ some first → e.data_ptr ≡ d → first.data_ptr ≡ d
    data_kept e first d both same = ground (arith, both, same)

    next_kept :
        (e first : ListEntry) (mem' : Entries)
        → some e ≡ some first
        → Linked mem' a e.next xs n
        → Linked mem' a first.next xs n
    next_kept e first mem' both c =
        let equal : e.next ≡ first.next = ground (arith, both) in rw (← equal) c

last_or-last_of : (b : ℕ) (x : ℕ × ℕ) (xs : List (ℕ × ℕ)) → last_or b (x ∷ xs) ≡ last_of (x ∷ xs)
last_or-last_of b (a, d) [] = refl
last_or-last_of b (a, d) ((c, e) ∷ xs) = last_or-last_of a (c, e) xs

Linked-Chain : (mem : Entries) (b h : ℕ) (xs : List (ℕ × ℕ)) → Linked mem b h xs 0 → Chain mem h xs
Linked-Chain mem b h [] c = c
Linked-Chain mem b h ((a, d) ∷ xs) (at, nz, e, here, same, back, rest) =
    (at, nz, e, here, same, Linked-Chain mem a e.next xs rest)

-- Forgetting the pointers back.
pub IsLinked-IsList :
    {l : OptimsocList} (xs : List (ℕ × ℕ)) {mem : Entries} {b : ℕ}
    → IsLinked l xs mem b
    → IsList l xs mem
IsLinked-IsList {l} [] {mem} {b} v = record {
  chain = v.linked;
  tail_last = v.tail_last;
  distinct = tt;
}
IsLinked-IsList {l} (x ∷ xs) {mem} {b} v = record {
  chain = Linked-Chain mem b l.head (x ∷ xs) v.linked;
  tail_last = v.tail_last ∙ last_or-last_of 0 x xs;
  distinct = v.distinct;
}

-- An address that holds nothing is not one of the entries'.
pub Absent-none :
    (mem : Entries) (b h p n : ℕ) (xs : List (ℕ × ℕ))
    → Linked mem b h xs n
    → mem p ≡ none
    → Absent p xs
Absent-none mem b h p n [] c gone = tt
Absent-none mem b h p n ((a, d) ∷ xs) (at, nz, e, here, same, back, rest) gone =
    (differs, Absent-none mem a e.next p n xs rest gone)
  where
    differs : p ≢ a
    differs s = ground (arith, here, gone, s)
