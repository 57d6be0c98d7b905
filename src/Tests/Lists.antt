-- ===== src/Tests/Lists.antt =====
-- A list of three entries, added at the tail.
use optimsoc.Prelude.{◌≡◌, refl, none, some, [], ◌∷◌, arith, done, fault, ◌>>=◌}
use optimsoc.Registry.{update}
use optimsoc.LinkedList.{
  ListEntry, OptimsocList, Entries, list_add_tail, list_remove_head, list_remove,
}
use optimsoc.LinkedList.Chain.{IsList}
use optimsoc.LinkedList.Linked.{IsLinked, IsLinked-IsList}
use optimsoc.LinkedList.Remove.{list_add_tail-IsLinked}
use optimsoc.LinkedList.Walk.{list_remove-dangling}

abbrev entry_a : ListEntry
entry_a = record { data_ptr = 100; next = 32; prev = 0 }

abbrev entry_b : ListEntry
entry_b = record { data_ptr = 200; next = 48; prev = 16 }

abbrev entry_c : ListEntry
entry_c = record { data_ptr = 300; next = 0; prev = 32 }

abbrev three : Entries
three = update (update (update (λ _. none) 16 (some entry_a)) 32 (some entry_b)) 48 (some entry_c)

abbrev list_of_three : OptimsocList
list_of_three = record { head = 16; tail = 48 }

three-IsLinked : IsLinked list_of_three ((16, 100) ∷ (32, 200) ∷ (48, 300) ∷ []) three 0
unfolding update
three-IsLinked = record {
  linked = (
    refl,
    omega arith,
    entry_a,
    refl,
    refl,
    refl,
    (
      refl,
      omega arith,
      entry_b,
      refl,
      refl,
      refl,
      (refl, omega arith, entry_c, refl, refl, refl, refl),
    ),
  );
  tail_last = refl;
  distinct = ((omega arith, (omega arith, tt)), ((omega arith, tt), (tt, tt)));
}

list_add_tail-IsLinked_example :
    (l' : OptimsocList) × (mem' : Entries) × (list_add_tail 64 400 list_of_three three
      ≡ done (l', mem'))
    × IsLinked l' ((16, 100) ∷ (32, 200) ∷ (48, 300) ∷ (64, 400) ∷ []) mem' 0
list_add_tail-IsLinked_example =
    list_add_tail-IsLinked ((16, 100) ∷ (32, 200) ∷ (48, 300) ∷ []) three-IsLinked 64 400
      (omega arith) (omega arith, (omega arith, (omega arith, tt)))

three-IsList : IsList list_of_three ((16, 100) ∷ (32, 200) ∷ (48, 300) ∷ []) three
three-IsList = IsLinked-IsList ((16, 100) ∷ (32, 200) ∷ (48, 300) ∷ []) three-IsLinked

list_remove-dangling_example :
    (list_remove_head list_of_three three >>= λ (_, l', mem'). list_remove 9 200 l' mem') ≡ fault
unfolding update
list_remove-dangling_example = list_remove-dangling three-IsList refl refl 8
