-- ===== src/LinkedList/Unlink.antt =====
-- Removing an entry from between others.
use optimsoc.Prelude.{
  ℕ, zero, suc, ◌≡◌, ◌≢◌, ◌<◌, refl, sym, ◌∙◌, ◌⊎◌, inl, inr, true, false, none, some, List, [],
  ◌∷◌, ◌++◌, arith, ◌==◌, length, done, ◌>>=◌,
}
use mathlib.Core.List.{append-nil}
use optimsoc.Registry.{load, update}
use optimsoc.LinkedList.{
  ListEntry, OptimsocList, Entries, set_next, set_prev, list_remove, list_remove_from, unlink,
}
use optimsoc.LinkedList.Chain.{Absent, Distinct}
use optimsoc.LinkedList.Linked.{
  Linked, last_or, IsLinked, Linked-update, Linked-append, Linked-split, Linked-last, last_or-ne,
  Linked-set_next, Linked-set_prev,
}

-- None of the entries has the data `d`.
abbrev pub Lacks : ℕ → List (ℕ × ℕ) → Type 0
Lacks d [] = Unit
Lacks d ((a, c) ∷ xs) = (c ≢ d) × Lacks d xs

-- No entry of the first list is one of the second.
abbrev Apart : (xs ys : List (ℕ × ℕ)) → Type 0
Apart [] ys = Unit
Apart ((a, d) ∷ xs) ys = Absent a ys × Apart xs ys

Absent-split : (p : ℕ) (xs ys : List (ℕ × ℕ)) → Absent p (xs ++ ys) → Absent p xs × Absent p ys
Absent-split p [] ys absent = (tt, absent)
Absent-split p ((a, d) ∷ xs) ys (ne, absent) =
    let (front, end) = Absent-split p xs ys absent in ((ne, front), end)

Absent-join : (p : ℕ) (xs ys : List (ℕ × ℕ)) → Absent p xs → Absent p ys → Absent p (xs ++ ys)
Absent-join p [] ys front end = end
Absent-join p ((a, d) ∷ xs) ys (ne, front) end = (ne, Absent-join p xs ys front end)

Distinct-split :
    (xs ys : List (ℕ × ℕ)) → Distinct (xs ++ ys) → Distinct xs × Distinct ys × Apart xs ys
Distinct-split [] ys distinct = (tt, distinct, tt)
Distinct-split ((a, d) ∷ xs) ys (absent, distinct) =
    let (front, end, apart) = Distinct-split xs ys distinct in
    let (before, after) = Absent-split a xs ys absent in ((before, front), end, (after, apart))

Distinct-join :
    (xs ys : List (ℕ × ℕ)) → Distinct xs → Distinct ys → Apart xs ys → Distinct (xs ++ ys)
Distinct-join [] ys front end apart = end
Distinct-join ((a, d) ∷ xs) ys (absent, front) end (after, apart) =
    (Absent-join a xs ys absent after, Distinct-join xs ys front end apart)

-- Without the first entry of the second list.
Apart-rest : (a d : ℕ) (xs ys : List (ℕ × ℕ)) → Apart xs ((a, d) ∷ ys) → Absent a xs × Apart xs ys
Apart-rest a d [] ys apart = (tt, tt)
Apart-rest a d ((c, e) ∷ xs) ys ((ne, absent), apart) =
    let (before, rest) = Apart-rest a d xs ys apart in (((λ s. ne (sym s)), before), (absent, rest))

Apart-last :
    (b : ℕ) (x : ℕ × ℕ) (xs ys : List (ℕ × ℕ)) → Apart (x ∷ xs) ys → Absent (last_or b (x ∷ xs)) ys
Apart-last b (a, d) [] ys (absent, apart) = absent
Apart-last b (a, d) (y ∷ xs) ys (absent, apart) = Apart-last a y xs ys apart

last_or-join :
    (b : ℕ) (xs : List (ℕ × ℕ)) (y : ℕ × ℕ) (ys : List (ℕ × ℕ))
    → last_or b (xs ++ (y ∷ ys)) ≡ last_or 0 (y ∷ ys)
last_or-join b [] y ys = refl
last_or-join b ((a, d) ∷ xs) y ys = last_or-join a xs y ys

-- What `unlink` and the `free` after it come to for the entry between `us` and `vs`.
abbrev Unlinked : (a b : ℕ) → ListEntry → OptimsocList → Entries → (us vs : List (ℕ × ℕ)) → Type 0
Unlinked a b e l mem us vs =
    (l' : OptimsocList) × (mem' : Entries) × (unlink a e l mem ≡ done (l', mem'))
    × IsLinked l' (us ++ vs) (update mem' a none) b

unlink-only :
    (a d b : ℕ) (e : ListEntry) (l : OptimsocList) (mem : Entries)
    → IsLinked l ((a, d) ∷ []) mem b
    → Unlinked a b e l mem [] []
unfolding unlink
unlink-only a d b e l mem v =
    let (at, nz, e', here, same, back, rest) = v.linked in
    let last : (a == l.tail) ≡ true = ground (arith, v.tail_last) in
    let first : (a == l.head) ≡ true = ground (arith, at) in
    (
      record { head = 0; tail = 0 },
      mem,
      rw (first, last) refl,
      record { linked = refl; tail_last = refl; distinct = tt },
    )

unlink-first :
    (a d c f : ℕ) (e : ListEntry) (l : OptimsocList) (mem : Entries) (vs : List (ℕ × ℕ))
    → mem a ≡ some e
    → IsLinked l ((a, d) ∷ (c, f) ∷ vs) mem 0
    → Unlinked a 0 e l mem [] ((c, f) ∷ vs)
unfolding unlink set_prev load
unlink-first a d c f e l mem vs there v =
    let (at, nz, e', here, same, back, (at2, nz2, e2, here2, same2, back2, rest)) = v.linked in
    let next_at : e.next ≡ c = ground (arith, there, here, at2) in
    let no_prev : (e.prev == 0) ≡ true = ground (arith, there, here, back) in
    let inner : (a == l.tail) ≡ false =
      ground (arith, v.tail_last, last_or-ne a c vs v.distinct.0.0 v.distinct.0.1) in
    let first : (a == l.head) ≡ true = ground (arith, at) in
    let off : (c == 0) ≡ false = ground arith in
    let written : Entries = update mem c (some (record e2 { prev = 0 })) in
    let head : Linked mem a c ((c, f) ∷ vs) 0 = (refl, nz2, e2, here2, same2, back2, rest) in
    (
      record l { head = e.next },
      written,
      rw (first, inner, no_prev, next_at, off, here2) refl,
      record {
        linked = rw next_at (
            Linked-update written a none 0 c ((c, f) ∷ vs) 0 v.distinct.0
              (Linked-set_prev mem a 0 c f 0 vs e2 head v.distinct.1.0 here2));
        tail_last = v.tail_last;
        distinct = v.distinct.1;
      },
    )

unlink-last :
    (a d b : ℕ) (e : ListEntry) (l : OptimsocList) (mem : Entries) (x : ℕ × ℕ) (us : List (ℕ × ℕ))
    → mem a ≡ some e
    → IsLinked l ((x ∷ us) ++ ((a, d) ∷ [])) mem b
    → Unlinked a b e l mem (x ∷ us) []
unfolding unlink set_next load
unlink-last a d b e l mem (p, q) us there v =
    let (m, front, (at, nz, e', here, same, back, end)) =
      Linked-split mem b l.head 0 ((p, q) ∷ us) ((a, d) ∷ []) v.linked in
    let (before, after, apart) = Distinct-split ((p, q) ∷ us) ((a, d) ∷ []) v.distinct in
    let (last, last_at, last_nz) = Linked-last mem b l.head m (p, q) us front in
    let (absent, others) = Apart-rest a d ((p, q) ∷ us) [] apart in
    let prev_at : e.prev ≡ last_or p us = ground (arith, there, here, back) in
    let no_next : (e.next == 0) ≡ true = ground (arith, there, here, end) in
    let has_prev : (last_or p us == 0) ≡ false = ground (arith, last_nz) in
    let inner : (a == l.head) ≡ false = ground (arith, front.0, absent.0) in
    let written : Entries = update mem (last_or p us) (some (record last { next = 0 })) in
    (
      record l { tail = e.prev },
      written,
      rw (inner, prev_at, has_prev, no_next, last_at) refl,
      record {
        linked = rw append-nil (
            Linked-update written a none b l.head ((p, q) ∷ us) 0 absent
              (Linked-set_next mem b l.head m 0 (p, q) us last front before last_at));
        tail_last = rw append-nil prev_at;
        distinct = rw append-nil before;
      },
    )

unlink-inner :
    (a d b c f : ℕ) (e : ListEntry) (l : OptimsocList) (mem : Entries) (x : ℕ × ℕ)
    (us vs : List (ℕ × ℕ))
    → mem a ≡ some e
    → IsLinked l ((x ∷ us) ++ ((a, d) ∷ (c, f) ∷ vs)) mem b
    → Unlinked a b e l mem (x ∷ us) ((c, f) ∷ vs)
unfolding unlink set_next set_prev load update
unlink-inner a d b c f e l mem (p, q) us vs there v =
    let (m, front, (at, nz, e', here, same, back, (at2, nz2, e2, here2, same2, back2, rest))) =
      Linked-split mem b l.head 0 ((p, q) ∷ us) ((a, d) ∷ (c, f) ∷ vs) v.linked in
    let (before, after, apart) = Distinct-split ((p, q) ∷ us) ((a, d) ∷ (c, f) ∷ vs) v.distinct in
    let (last, last_at, last_nz) = Linked-last mem b l.head m (p, q) us front in
    let (absent, others) = Apart-rest a d ((p, q) ∷ us) ((c, f) ∷ vs) apart in
    let (absent2, others2) = Apart-rest c f ((p, q) ∷ us) vs others in
    let behind : Absent (last_or p us) ((c, f) ∷ vs) =
      Apart-last b (p, q) us ((c, f) ∷ vs) others in
    let prev_at : e.prev ≡ last_or p us = ground (arith, there, here, back) in
    let next_at : e.next ≡ c = ground (arith, there, here, at2) in
    let has_prev : (last_or p us == 0) ≡ false = ground (arith, last_nz) in
    let has_next : (c == 0) ≡ false = ground arith in
    let inner : (a == l.head) ≡ false = ground (arith, front.0, absent.0) in
    let other : (c == last_or p us) ≡ false = ground (arith, behind.0) in
    let one : Entries = update mem (last_or p us) (some (record last { next = c })) in
    let two : Entries = update one c (some (record e2 { prev = last_or p us })) in
    let head : Linked mem a c ((c, f) ∷ vs) 0 = (refl, nz2, e2, here2, same2, back2, rest) in
    let still : one c ≡ some e2 = ground (arith, here2) in
    let left : Linked two b l.head ((p, q) ∷ us) c =
      Linked-update one c (some (record e2 { prev = last_or p us })) b l.head ((p, q) ∷ us) c
        absent2 (Linked-set_next mem b l.head m c (p, q) us last front before last_at) in
    let right : Linked two (last_or p us) c ((c, f) ∷ vs) 0 =
      Linked-set_prev one a (last_or p us) c f 0 vs e2
        (Linked-update mem (last_or p us) (some (record last { next = c })) a c ((c, f) ∷ vs) 0
          behind head)
        after.1.0 still in
    (
      l,
      two,
      rw (inner, prev_at, next_at, has_prev, has_next, last_at, other, here2) refl,
      record {
        linked =
            Linked-update two a none b l.head (((p, q) ∷ us) ++ ((c, f) ∷ vs)) 0
              (Absent-join a ((p, q) ∷ us) ((c, f) ∷ vs) absent after.0)
              (Linked-append two b l.head c 0 ((p, q) ∷ us) ((c, f) ∷ vs) left right);
        tail_last =
            v.tail_last
            ∙ last_or-join p us (a, d) ((c, f) ∷ vs)
            ∙ sym (last_or-join p us (c, f) vs);
        distinct = Distinct-join ((p, q) ∷ us) ((c, f) ∷ vs) before after.1 others;
      },
    )

-- Every case: an entry that points back to a freed one is not unlinked while others follow it.
unlink_lem :
    (a d b : ℕ) (e : ListEntry) (l : OptimsocList) (mem : Entries) (us vs : List (ℕ × ℕ))
    → mem a ≡ some e
    → IsLinked l (us ++ ((a, d) ∷ vs)) mem b
    → (b ≡ 0) ⊎ ((us ≢ []) ⊎ (vs ≡ []))
    → Unlinked a b e l mem us vs
unlink_lem a d b e l mem [] [] there v ok = unlink-only a d b e l mem v
unlink_lem a d b e l mem [] ((c, f) ∷ vs) there v (inl zero_back) =
    rw zero_back (unlink-first a d c f e l mem vs there (rw (← zero_back) v))
unlink_lem a d b e l mem [] ((c, f) ∷ vs) there v (inr (inl some_before)) =
    absurd (some_before refl)
unlink_lem a d b e l mem [] ((c, f) ∷ vs) there v (inr (inr none_after)) = absurd (cc)
unlink_lem a d b e l mem (x ∷ us) [] there v ok = unlink-last a d b e l mem x us there v
unlink_lem a d b e l mem (x ∷ us) ((c, f) ∷ vs) there v ok =
    unlink-inner a d b c f e l mem x us vs there v

-- The loop comes to the first entry with the data.
remove_from-reaches :
    (fuel a d b h : ℕ) (l : OptimsocList) (mem : Entries) (us vs : List (ℕ × ℕ))
    → Linked mem b h (us ++ ((a, d) ∷ vs)) 0
    → Lacks d us
    → length us < fuel
    → (e : ListEntry) × (mem a ≡ some e)
      × (list_remove_from fuel d h l mem
          ≡ (unlink a e l mem >>= λ (l', mem'). done (true, l', update mem' a none)))
unfolding list_remove_from load
remove_from-reaches zero a d b h l mem us vs c lacks enough = absurd (omega arith)
remove_from-reaches (suc fuel) a d b h l mem [] vs (at, nz, e, here, same, back, rest) lacks
      enough =
    let off : (a == 0) ≡ false = ground arith in
    let hit : (d == d) ≡ true = ground arith in (e, here, rw (at, off, here, same, hit) refl)
remove_from-reaches (suc fuel) a d b h l mem ((p, q) ∷ us) vs (at, nz, e, here, same, back, rest)
      (ne, lacks) enough =
    let off : (p == 0) ≡ false = ground arith in
    let miss : (q == d) ≡ false = ground arith in
    let (e', there, run) =
      remove_from-reaches fuel a d p e.next l mem us vs rest lacks (omega arith) in
    (e', there, rw (at, off, here, same, miss) run)

remove_from-misses :
    (fuel d b h : ℕ) (l : OptimsocList) (mem : Entries) (xs : List (ℕ × ℕ))
    → Linked mem b h xs 0
    → Lacks d xs
    → length xs < fuel
    → list_remove_from fuel d h l mem ≡ done (false, l, mem)
unfolding list_remove_from load
remove_from-misses zero d b h l mem xs c lacks enough = absurd (omega arith)
remove_from-misses (suc fuel) d b h l mem [] c lacks enough = rw c refl
remove_from-misses (suc fuel) d b h l mem ((p, q) ∷ xs) (at, nz, e, here, same, back, rest)
      (ne, lacks) enough =
    let off : (p == 0) ≡ false = ground arith in
    let miss : (q == d) ≡ false = ground arith in
    rw (at, off, here, same, miss)
      (remove_from-misses fuel d p e.next l mem xs rest lacks (omega arith))

-- Removing data takes its first entry out of a list that is linked in both directions, and says so.
-- If the first entry of the list points back to a freed one, that is not the one removed, or it is
-- the only one. The loop ends, given one step more than entries stand before.
pub list_remove-IsLinked :
    {l : OptimsocList} (a d b fuel : ℕ) (us vs : List (ℕ × ℕ)) {mem : Entries}
    → IsLinked l (us ++ ((a, d) ∷ vs)) mem b
    → Lacks d us
    → (b ≡ 0) ⊎ ((us ≢ []) ⊎ (vs ≡ []))
    → length us < fuel
    → (l' : OptimsocList) × (mem' : Entries) × (list_remove fuel d l mem ≡ done (true, l', mem'))
      × IsLinked l' (us ++ vs) mem' b
unfolding list_remove
list_remove-IsLinked {l} a d b fuel us vs {mem} v lacks ok enough =
    let (e, there, run) = remove_from-reaches fuel a d b l.head l mem us vs v.linked lacks enough in
    let (l', mem', cut, v') = unlink_lem a d b e l mem us vs there v ok in
    (l', update mem' a none, run ∙ rw cut refl, v')

-- Data that no entry has is not removed.
pub list_remove-missing :
    {l : OptimsocList} (d b fuel : ℕ) (xs : List (ℕ × ℕ)) {mem : Entries}
    → IsLinked l xs mem b
    → Lacks d xs
    → length xs < fuel
    → list_remove fuel d l mem ≡ done (false, l, mem)
unfolding list_remove
list_remove-missing {l} d b fuel xs {mem} v lacks enough =
    remove_from-misses fuel d b l.head l mem xs v.linked lacks enough
