-- ===== src/LinkedList/Queue.antt =====
-- Removing at the head of the list, on the sequence of entries that it stands for.
use optimsoc.Prelude.{ℕ, ◌≡◌, refl, false, none, List, [], ◌∷◌, arith, ◌==◌, if◌then◌else◌, done}
use optimsoc.Registry.{load, update}
use optimsoc.LinkedList.{OptimsocList, Entries, list_remove_head}
use optimsoc.LinkedList.Chain.{Chain, IsList, last_of, Chain-update}

tail-rest :
    (mem : Entries) (h a d tail : ℕ) (xs : List (ℕ × ℕ))
    → Chain mem h xs
    → tail ≡ last_of ((a, d) ∷ xs)
    → (if h == 0 then 0 else tail) ≡ last_of xs
tail-rest mem h a d tail [] c e = rw c refl
tail-rest mem h a d tail ((b, f) ∷ xs) (at, nonzero, entry, here, same, rest) e =
    let off : (h == 0) ≡ false = ground arith in rw off e

-- Removing at the head of a list that is not empty returns the first data and leaves a list of the
-- rest; the entry is freed.
pub list_remove_head-IsList :
    {l : OptimsocList} {a d : ℕ} {xs : List (ℕ × ℕ)} {mem : Entries}
    → IsList l ((a, d) ∷ xs) mem
    → (l' : OptimsocList) × (list_remove_head l mem ≡ done (d, l', update mem a none))
      × IsList l' xs (update mem a none)
unfolding list_remove_head load
list_remove_head-IsList {l} {a} {d} {xs} {mem} v =
    let (at, nonzero, e, here, same, rest) = v.chain in
    let off : (a == 0) ≡ false = ground arith in
    (
      record { head = e.next; tail = if e.next == 0 then 0 else l.tail },
      rw (at, off, here, same) refl,
      record {
        chain = Chain-update mem a none e.next xs v.distinct.0 rest;
        tail_last = tail-rest mem e.next a d l.tail xs rest v.tail_last;
        distinct = v.distinct.1;
      },
    )
