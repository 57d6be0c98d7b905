-- ===== src/LinkedList/Unused.antt =====
-- Addresses that no entry uses are still unused after entries were linked anew or removed.
use optimsoc.Prelude.{
  ℕ, zero, suc, ◌≡◌, ◌≢◌, refl, ap, ◌∙◌, sym, ◌⊎◌, inl, inr, Bool, true, false, ◌&&◌, none, some,
  ◌==◌, arith, Run, done, blocked, fault, ◌>>=◌, >>=-eq-done, Bool-cases,
}
use optimsoc.Registry.{load, update}
use optimsoc.LinkedList.{
  ListEntry, OptimsocList, Entries, set_next, set_prev, list_add_tail, unlink, list_remove,
  list_remove_from,
}

-- What holds nothing in `mem` holds nothing in `mem'`.
abbrev pub KeepsUnused : (mem mem' : Entries) → Type 0
KeepsUnused mem mem' = (a : ℕ) → mem a ≡ none → mem' a ≡ none

update-none : (mem : Entries) (p : ℕ) → KeepsUnused mem (update mem p none)
unfolding update
update-none mem p a gone = ground (arith, gone)

-- A write to an entry that was read.
written-KeepsUnused :
    (mem : Entries) (p : ℕ) (e e' : ListEntry)
    → load mem p ≡ done e
    → KeepsUnused mem (update mem p (some e'))
unfolding load update
written-KeepsUnused mem p e e' read a gone = elim (Bool-cases (a == p)) [
  | inl hit ↦ absurd (unread (Bool-cases (p == 0)) (same hit))
  | inr miss ↦ rw miss gone
]
  where
    same : (a == p) ≡ true → mem p ≡ none
    same hit = let equal : a ≡ p = ground (arith, hit) in rw (← equal) gone

    unread : ((p == 0) ≡ true) ⊎ ((p == 0) ≡ false) → mem p ≡ none → ⊥
    unread (inl null) nothing = let bad : fault ≡ done e = sym (rw null refl) ∙ read in absurd (cc)
    unread (inr off) nothing =
        let bad : fault ≡ done e = sym (rw (off, nothing) refl) ∙ read in absurd (cc)

set_next-KeepsUnused :
    (p n : ℕ) (mem mem' : Entries) → set_next p n mem ≡ done mem' → KeepsUnused mem mem'
unfolding set_next
set_next-KeepsUnused p n mem mem' h a gone =
    let (e, read, made) = >>=-eq-done (load mem p) _ h in
    let equal : update mem p (some (record e { next = n })) ≡ mem' = cc in
    rw (← equal) (written-KeepsUnused mem p e (record e { next = n }) read a gone)

set_prev-KeepsUnused :
    (p n : ℕ) (mem mem' : Entries) → set_prev p n mem ≡ done mem' → KeepsUnused mem mem'
unfolding set_prev
set_prev-KeepsUnused p n mem mem' h a gone =
    let (e, read, made) = >>=-eq-done (load mem p) _ h in
    let equal : update mem p (some (record e { prev = n })) ≡ mem' = cc in
    rw (← equal) (written-KeepsUnused mem p e (record e { prev = n }) read a gone)

-- A write and a step after it.
then-KeepsUnused :
    (l : OptimsocList) {l' : OptimsocList} {mem mem' : Entries} (m : Run Entries)
    → ((mem1 : Entries) → m ≡ done mem1 → KeepsUnused mem mem1)
    → ◌>>=◌ {B = OptimsocList × Entries} m (λ mem1. done (l, mem1)) ≡ done (l', mem')
    → KeepsUnused mem mem'
then-KeepsUnused l {l'} {mem} {mem'} m keeps h =
    let (mem1, run, made) = >>=-eq-done m _ h in
    let equal : mem1 ≡ mem' = ap (λ r. last_mem r) made in rw (← equal) (keeps mem1 run)
  where
    last_mem : Run (OptimsocList × Entries) → Entries
    last_mem (done (l1, mem1)) = mem1
    last_mem blocked = mem
    last_mem fault = mem

unlink-KeepsUnused :
    (p : ℕ) (e : ListEntry) (l l' : OptimsocList) (mem mem' : Entries)
    → unlink p e l mem ≡ done (l', mem')
    → KeepsUnused mem mem'
unfolding unlink
unlink-KeepsUnused p e l l' mem mem' h = elim (Bool-cases ((p == l.head) && (p == l.tail))) [
  | inl only ↦
      let made : done (record { head = 0; tail = 0 }, mem) ≡ done (l', mem') = rw only at h in
      λ a gone. let equal : mem ≡ mem' = cc in rw (← equal) gone
  | inr others ↦ elim (Bool-cases (e.prev == 0)) [
    | inl first ↦
        then-KeepsUnused (record l { head = e.next }) (set_prev e.next 0 mem)
          (set_prev-KeepsUnused e.next 0 mem) (rw (others, first) at h)
    | inr back ↦ elim (Bool-cases (e.next == 0)) [
      | inl last ↦
          then-KeepsUnused (record l { tail = e.prev }) (set_next e.prev 0 mem)
            (set_next-KeepsUnused e.prev 0 mem) (rw (others, back, last) at h)
      | inr forth ↦
          let (mem1, run, rest) =
            >>=-eq-done (set_next e.prev e.next mem) _ (rw (others, back, forth) at h) in
          λ a gone.
            then-KeepsUnused l (set_prev e.next e.prev mem1)
              (set_prev-KeepsUnused e.next e.prev mem1) rest a
              (set_next-KeepsUnused e.prev e.next mem mem1 run a gone)
    ]
  ]
]

list_remove_from-KeepsUnused :
    (fuel d p : ℕ) (l l' : OptimsocList) (mem mem' : Entries) (removed : Bool)
    → list_remove_from fuel d p l mem ≡ done (removed, l', mem')
    → KeepsUnused mem mem'
unfolding list_remove_from
list_remove_from-KeepsUnused zero d p l l' mem mem' removed h = absurd (cc)
list_remove_from-KeepsUnused (suc fuel) d p l l' mem mem' removed h =
    let rest_keeps =
      λ (e : ListEntry). list_remove_from-KeepsUnused fuel d e.next l l' mem mem' removed in
    elim (Bool-cases (p == 0)) [
      | inl null ↦
          let stop : done (false, l, mem) ≡ done (removed, l', mem') = rw null at h in
          λ a gone. let equal : mem ≡ mem' = cc in rw (← equal) gone
      | inr off ↦
          let (e, read, rest) = >>=-eq-done (load mem p) _ (rw off at h) in
          elim (Bool-cases (e.data_ptr == d)) [
            | inl hit ↦
                let ((l1, mem1), run, made) = >>=-eq-done (unlink p e l mem) _ (rw hit at rest) in
                let equal : update mem1 p none ≡ mem' = cc in
                λ a gone.
                  rw (← equal)
                    (update-none mem1 p a (unlink-KeepsUnused p e l l1 mem mem1 run a gone))
            | inr miss ↦ rest_keeps e (rw miss at rest)
          ]
    ]

pub list_remove-KeepsUnused :
    (fuel d : ℕ) (l l' : OptimsocList) (mem mem' : Entries) (removed : Bool)
    → list_remove fuel d l mem ≡ done (removed, l', mem')
    → KeepsUnused mem mem'
unfolding list_remove
list_remove-KeepsUnused fuel d l l' mem mem' removed h =
    list_remove_from-KeepsUnused fuel d l.head l l' mem mem' removed h

-- Where data are added, the address of the new entry is used from then on.
pub list_add_tail-KeepsUnused :
    (fresh d : ℕ) (l l' : OptimsocList) (mem mem' : Entries)
    → list_add_tail fresh d l mem ≡ done (l', mem')
    → (a : ℕ) → a ≢ fresh
    → mem a ≡ none
    → mem' a ≡ none
unfolding list_add_tail update
list_add_tail-KeepsUnused fresh d l l' mem mem' h a ne gone = elim (Bool-cases (l.tail == 0)) [
  | inl first ↦
      let made : done (record { head = fresh; tail = fresh }, mem1) ≡ done (l', mem') =
        rw first at h in
      let equal : mem1 ≡ mem' = cc in rw (← equal) still
  | inr off ↦
      then-KeepsUnused (record l { tail = fresh }) {mem = mem1} (set_next l.tail fresh mem1)
        (set_next-KeepsUnused l.tail fresh mem1) (rw off at h) a still
]
  where
    mem1 : Entries
    mem1 = update mem fresh (some (record { data_ptr = d; next = 0; prev = l.tail }))

    elsewhere : (e : ListEntry) → update mem fresh (some e) a ≡ none
    elsewhere e = ground (arith, gone)

    still : mem1 a ≡ none
    still = elsewhere (record { data_ptr = d; next = 0; prev = l.tail })
