-- ===== src/LinkedList/Remove.antt =====
-- The operations of the list where its entries are linked in both directions.
use optimsoc.Prelude.{
  ℕ, ◌≡◌, ◌≢◌, refl, sym, false, none, some, List, [], ◌∷◌, ◌++◌, arith, ◌==◌, if◌then◌else◌, done,
}
use optimsoc.Registry.{load, update}
use optimsoc.LinkedList.{
  ListEntry, OptimsocList, Entries, set_next, list_add_tail, list_add_head, set_prev,
  list_remove_head,
}
use optimsoc.LinkedList.Chain.{Absent, Distinct-append}
use optimsoc.LinkedList.Linked.{
  Linked, last_or, IsLinked, Linked-update, Linked-append, Linked-last, last_or-ne, Linked-set_next,
}

-- What the first entry points back to when one was added at the tail.
abbrev pub back_after_add : (b : ℕ) → List (ℕ × ℕ) → ℕ
back_after_add b [] = 0
back_after_add b (x ∷ xs) = b

pub back_after_add-zero : (xs : List (ℕ × ℕ)) → back_after_add 0 xs ≡ 0
back_after_add-zero [] = refl
back_after_add-zero (x ∷ xs) = refl

last_or-append : (b c d : ℕ) (xs : List (ℕ × ℕ)) → last_or b (xs ++ ((c, d) ∷ [])) ≡ c
last_or-append b c d [] = refl
last_or-append b c d ((a, e) ∷ xs) = last_or-append a c d xs

last_or-any : (b c : ℕ) (x : ℕ × ℕ) (xs : List (ℕ × ℕ)) → last_or b (x ∷ xs) ≡ last_or c (x ∷ xs)
last_or-any b c (a, d) xs = refl

-- Adding to the tail of a list that is linked in both directions appends the data, in an entry at an
-- address that is not in use, and leaves a list that is linked in both directions. Its first entry
-- points back as before, or nowhere if it is the new one.
pub list_add_tail-IsLinked :
    {l : OptimsocList} (xs : List (ℕ × ℕ)) {mem : Entries} {b : ℕ}
    → IsLinked l xs mem b
    → (fresh d : ℕ) → fresh ≢ 0
    → Absent fresh xs
    → (l' : OptimsocList) × (mem' : Entries) × (list_add_tail fresh d l mem ≡ done (l', mem'))
      × IsLinked l' (xs ++ ((fresh, d) ∷ [])) mem' (back_after_add b xs)
unfolding list_add_tail set_next load update
list_add_tail-IsLinked {l} [] {mem} {b} v fresh d ne absent = (
  record { head = fresh; tail = fresh },
  update mem fresh (some (record { data_ptr = d; next = 0; prev = l.tail })),
  rw v.tail_last refl,
  record {
    linked = (
      refl,
      ne,
      record { data_ptr = d; next = 0; prev = l.tail },
      ground arith,
      refl,
      v.tail_last,
      refl,
    );
    tail_last = refl;
    distinct = (tt, tt);
  },
)
list_add_tail-IsLinked {l} ((a, c) ∷ xs) {mem} {b} v fresh d ne absent =
    let (last, there, nonzero) = Linked-last mem b l.head 0 (a, c) xs v.linked in
    let new : ListEntry = record { data_ptr = d; next = 0; prev = l.tail } in
    let mem1 = update mem fresh (some new) in
    let mem2 = update mem1 (last_or a xs) (some (record last { next = fresh })) in
    let off : (last_or a xs == 0) ≡ false = ground arith in
    let apart : fresh ≢ last_or a xs = last_or-ne fresh a xs absent.0 absent.1 in
    let other : (last_or a xs == fresh) ≡ false = ground arith in
    let still : mem1 (last_or a xs) ≡ some last = ground (arith, there) in
    let kept = Linked-update mem fresh (some new) b l.head ((a, c) ∷ xs) 0 absent v.linked in
    (
      record l { tail = fresh },
      mem2,
      rw (v.tail_last, off, other, there) refl,
      record {
        linked =
            Linked-append mem2 b l.head fresh 0 ((a, c) ∷ xs) ((fresh, d) ∷ [])
              (Linked-set_next mem1 b l.head 0 fresh (a, c) xs last kept v.distinct still)
              (refl, ne, new, ground arith, refl, v.tail_last, refl);
        tail_last = sym (last_or-append 0 fresh d ((a, c) ∷ xs));
        distinct = Distinct-append fresh d ((a, c) ∷ xs) v.distinct absent;
      },
    )

-- Adding to the head of a list that is linked in both directions puts the data in front, and leaves a
-- list that is linked in both directions.
pub list_add_head-IsLinked :
    {l : OptimsocList} (xs : List (ℕ × ℕ)) {mem : Entries} {b : ℕ}
    → IsLinked l xs mem b
    → (fresh d : ℕ) → fresh ≢ 0
    → Absent fresh xs
    → (l' : OptimsocList) × (mem' : Entries) × (list_add_head fresh d l mem ≡ done (l', mem'))
      × IsLinked l' ((fresh, d) ∷ xs) mem' 0
unfolding list_add_head set_prev load update
list_add_head-IsLinked {l} [] {mem} {b} v fresh d ne absent =
    let new : ListEntry = record { data_ptr = d; next = l.head; prev = 0 } in
    (
      record { head = fresh; tail = fresh },
      update mem fresh (some new),
      rw v.linked refl,
      record {
        linked = (refl, ne, new, ground arith, refl, refl, v.linked);
        tail_last = refl;
        distinct = (tt, tt);
      },
    )
list_add_head-IsLinked {l} ((a, c) ∷ xs) {mem} {b} v fresh d ne (apart, absent) =
    let (at, nonzero, e, here, same, back, rest) = v.linked in
    let off : (a == 0) ≡ false = ground arith in
    let other : (a == fresh) ≡ false = ground arith in
    let new : ListEntry = record { data_ptr = d; next = l.head; prev = 0 } in
    let mem1 = update mem fresh (some new) in
    let first = some (record e { prev = fresh }) in
    (
      record l { head = fresh },
      update mem1 a first,
      rw (at, off, other, here) refl,
      record {
        linked = (
          refl,
          ne,
          new,
          ground (arith, apart),
          refl,
          refl,
          (
            at,
            nonzero,
            record e { prev = fresh },
            ground arith,
            same,
            refl,
            Linked-update mem1 a first a e.next xs 0 v.distinct.0
                (Linked-update mem fresh (some new) a e.next xs 0 absent rest),
          ),
        );
        tail_last = v.tail_last;
        distinct = ((apart, absent), v.distinct);
      },
    )

-- Removing at the head: the first entry that stays points back to the one that was freed.
pub list_remove_head-IsLinked :
    {l : OptimsocList} {a d : ℕ} (xs : List (ℕ × ℕ)) {mem : Entries} {b : ℕ}
    → IsLinked l ((a, d) ∷ xs) mem b
    → (l' : OptimsocList) × (list_remove_head l mem ≡ done (d, l', update mem a none))
      × IsLinked l' xs (update mem a none) a
unfolding list_remove_head load
list_remove_head-IsLinked {l} {a} {d} xs {mem} {b} v =
    let (at, nonzero, e, here, same, back, rest) = v.linked in
    let off : (a == 0) ≡ false = ground arith in
    (
      record { head = e.next; tail = if e.next == 0 then 0 else l.tail },
      rw (at, off, here, same) refl,
      record {
        linked = Linked-update mem a none a e.next xs 0 v.distinct.0 rest;
        tail_last = tail_rest xs e.next rest v.tail_last;
        distinct = v.distinct.1;
      },
    )
  where
    tail_rest :
        (xs : List (ℕ × ℕ)) (h : ℕ) {tail : ℕ}
        → Linked mem a h xs 0
        → tail ≡ last_or a xs
        → (if h == 0 then 0 else tail) ≡ last_or 0 xs
    tail_rest [] h c e = rw c refl
    tail_rest ((f, g) ∷ xs) h (at, nonzero, entry, here, same, back, rest) e =
        let off : (h == 0) ≡ false = ground (arith, at) in rw off e
