-- ===== src/LinkedList/Walk.antt =====
-- Walks from the head of the list: they end, given one step more than there are entries.
use optimsoc.Prelude.{
  if-done, ℕ, zero, suc, ◌+◌, ◌^◌, ◌≡◌, ◌≢◌, ◌<◌, refl, ap, ◌∙◌, Bool, true, false, none, some,
  List, [], ◌∷◌, arith, ◌==◌, if◌then◌else◌, add32, length, done, fault, ◌>>=◌,
}
use optimsoc.Registry.{load, update}
use optimsoc.LinkedList.{
  ListEntry, OptimsocList, Entries, set_next, list_remove_head, list_remove, list_remove_from,
  unlink, list_length, list_length_from, list_contains, list_contains_from,
}
use optimsoc.LinkedList.Chain.{Chain, IsList, last_of-ne}
use optimsoc.LinkedList.Queue.{list_remove_head-IsList}

-- Whether an entry has the data `d`.
abbrev pub has_data : ℕ → List (ℕ × ℕ) → Bool
has_data d [] = false
has_data d ((a, c) ∷ xs) = if c == d then true else has_data d xs

length_from_lem :
    (mem : Entries) (h count fuel : ℕ) (xs : List (ℕ × ℕ))
    → Chain mem h xs
    → length xs < fuel
    → count + length xs < 2 ^ 32
    → list_length_from fuel count h mem ≡ done (count + length xs)
unfolding list_length_from load
length_from_lem mem h count zero xs c enough small = absurd (omega arith)
length_from_lem mem h count (suc fuel) [] c enough small = rw c (ap done (omega arith))
length_from_lem mem h count (suc fuel) ((a, d) ∷ xs) (at, nonzero, e, here, same, rest) enough
      small =
    let off : (a == 0) ≡ false = ground arith in
    let one : add32 count 1 ≡ suc count = omega arith in
    rw
      (
        at,
        off,
        here,
        one,
        length_from_lem mem e.next (suc count) fuel xs rest (omega arith) (omega arith),
      )
      (ap done (omega arith))

contains_from_lem :
    (mem : Entries) (h d fuel : ℕ) (xs : List (ℕ × ℕ))
    → Chain mem h xs
    → length xs < fuel
    → list_contains_from fuel d h mem ≡ done (has_data d xs)
unfolding list_contains_from load
contains_from_lem mem h d zero xs c enough = absurd (omega arith)
contains_from_lem mem h d (suc fuel) [] c enough = rw c refl
contains_from_lem mem h d (suc fuel) ((a, c) ∷ xs) (at, nonzero, e, here, same, rest) enough =
    let off : (a == 0) ≡ false = ground arith in
    rw (at, off, here, same, contains_from_lem mem e.next d fuel xs rest (omega arith))
      (if-done (c == d) true (has_data d xs))

-- The length of a list is the number of its entries, where that fits 32 bits: the loop ends, given one
-- step more than there are entries.
pub list_length_lem :
    {l : OptimsocList} {xs : List (ℕ × ℕ)} {mem : Entries}
    → IsList l xs mem
    → (fuel : ℕ) → length xs < fuel
    → length xs < 2 ^ 32
    → list_length fuel l mem ≡ done (length xs)
unfolding list_length
list_length_lem {l} {xs} {mem} v fuel enough small =
    length_from_lem mem l.head 0 fuel xs v.chain enough (omega arith) ∙ ap done (omega arith)

-- A list contains exactly the data of its entries: the loop ends, given one step more than there are
-- entries.
pub list_contains_lem :
    {l : OptimsocList} {xs : List (ℕ × ℕ)} {mem : Entries}
    → IsList l xs mem
    → (d fuel : ℕ) → length xs < fuel
    → list_contains fuel d l mem ≡ done (has_data d xs)
unfolding list_contains
list_contains_lem {l} {xs} {mem} v d fuel enough =
    contains_from_lem mem l.head d fuel xs v.chain enough

unlink_dangling :
    (p : ℕ) (e : ListEntry) (l : OptimsocList) (mem : Entries)
    → p ≢ l.tail
    → e.prev ≢ 0
    → e.next ≢ 0
    → mem e.prev ≡ none
    → unlink p e l mem ≡ fault
unfolding unlink set_next load
unlink_dangling p e l mem inner back forth gone = ground (arith, gone)

-- In a list of at least three entries whose second points back to the first, removing the head and
-- then the data of the second writes to the freed entry.
pub list_remove-dangling :
    {l : OptimsocList} {a d b c x y : ℕ} {xs : List (ℕ × ℕ)} {mem : Entries} {second : ListEntry}
    → IsList l ((a, d) ∷ (b, c) ∷ (x, y) ∷ xs) mem
    → mem b ≡ some second
    → second.prev ≡ a
    → (fuel : ℕ)
    → (list_remove_head l mem >>= λ (_, l', mem'). list_remove (suc fuel) c l' mem') ≡ fault
unfolding list_remove list_remove_from load update
list_remove-dangling {l} {a} {d} {b} {c} {x} {y} {xs} {mem} {second} v there back fuel =
    let (l', run, v') = list_remove_head-IsList v in
    let mem' = update mem a none in
    let (at, nonzero, e, here, same, (at3, nonzero3, e3, here3, same3, rest)) = v'.chain in
    let apart : a ≢ b = v.distinct.0.0 in
    let ahead : e.prev ≡ a = ground (arith, here, there, back, apart) in
    let off : (b == 0) ≡ false = ground arith in
    let hit : (c == c) ≡ true = ground arith in
    let inner : b ≢ l'.tail =
      λ s. last_of-ne b ((x, y) ∷ xs) nonzero v'.distinct.0 (s ∙ v'.tail_last) in
    rw
      (
        run,
        at,
        off,
        here,
        same,
        hit,
        unlink_dangling b e l' mem' inner (ground arith) (ground arith) (ground arith),
      )
      refl
