-- ===== src/Runtime/Queues.antt =====
-- The operations of a queue on the sequence of data that it stands for.
use optimsoc.Prelude.{
  ℕ, ◌≡◌, ◌≢◌, ◌<◌, refl, ap, ◌∙◌, sym, ◌⊎◌, inl, inr, true, false, none, List, [], ◌∷◌, ◌++◌,
  length, arith, Bool, done, >>=-eq-done,
}
use optimsoc.Registry.{update}
use optimsoc.LinkedList.{list_init, list_add_tail, list_remove_head, list_remove}
use optimsoc.LinkedList.Chain.{Absent}
use optimsoc.LinkedList.Linked.{IsLinked, Absent-none}
use optimsoc.LinkedList.Remove.{
  back_after_add, back_after_add-zero, list_add_tail-IsLinked, list_remove_head-IsLinked,
}
use optimsoc.LinkedList.Unused.{KeepsUnused, list_add_tail-KeepsUnused, list_remove-KeepsUnused}
use optimsoc.LinkedList.Unlink.{Lacks, list_remove-IsLinked, list_remove-missing}
use optimsoc.Runtime.{Queue, new_queue, enqueue, dequeue, discard}

abbrev pub datas : List (ℕ × ℕ) → List ℕ
datas [] = []
datas ((a, d) ∷ xs) = d ∷ datas xs

-- `q` holds the data `ts`, in an order that both directions of its links have. Its first entry
-- points back to `b`, which is 0 or an entry that was freed.
pub record Holds (b : ℕ) (q : Queue) (ts : List ℕ) : Type 0 where
  pub entries : List (ℕ × ℕ)
  pub linked : IsLinked q.list entries q.entries b
  pub same : datas entries ≡ ts

-- `d` is not among the data.
abbrev pub NotIn : ℕ → List ℕ → Type 0
NotIn d [] = Unit
NotIn d (c ∷ ts) = (c ≢ d) × NotIn d ts

-- The data of two stretches.
pub datas-append : (xs ys : List (ℕ × ℕ)) → datas (xs ++ ys) ≡ datas xs ++ datas ys
datas-append [] ys = refl
datas-append ((a, d) ∷ xs) ys = ap (λ ts. d ∷ ts) (datas-append xs ys)

pub length-datas : (xs : List (ℕ × ℕ)) → length (datas xs) ≡ length xs
length-datas [] = refl
length-datas ((a, d) ∷ xs) = omega (arith, length-datas xs)

-- Data that no entry has.
pub NotIn-Lacks : (d : ℕ) (xs : List (ℕ × ℕ)) → NotIn d (datas xs) → Lacks d xs
NotIn-Lacks d [] out = tt
NotIn-Lacks d ((a, c) ∷ xs) (ne, out) = (ne, NotIn-Lacks d xs out)

-- Entries for a sequence that falls into two parts.
datas-split :
    (us : List ℕ) (d : ℕ) (vs : List ℕ) (xs : List (ℕ × ℕ))
    → datas xs ≡ us ++ (d ∷ vs)
    → (ys : List (ℕ × ℕ)) × (a : ℕ) × (zs : List (ℕ × ℕ)) × (xs ≡ ys ++ ((a, d) ∷ zs))
      × (datas ys ≡ us)
      × (datas zs ≡ vs)
datas-split us d vs [] h = absurd (cons_nil us h)
  where
    cons_nil : (us : List ℕ) → ¬ ([] ≡ us ++ (d ∷ vs))
    cons_nil [] h = cc
    cons_nil (u ∷ us) h = cc
datas-split [] d vs ((a, c) ∷ xs) h = ([], a, xs, ap (λ e. (a, e) ∷ xs) (cc), refl, cc)
datas-split (u ∷ us) d vs ((a, c) ∷ xs) h =
    let (ys, b, zs, parts, front, end) = datas-split us d vs xs (cc) in
    ((a, c) ∷ ys, b, zs, ap (λ es. (a, c) ∷ es) parts, cc (front), end)

pub new_queue-Holds : (fresh : ℕ) → Holds 0 (new_queue fresh 0) []
unfolding new_queue list_init
new_queue-Holds fresh = record {
  entries = [];
  linked = record { linked = refl; tail_last = refl; distinct = tt };
  same = refl;
}

-- Adding data, in an entry that is not in use.
pub enqueue-Holds :
    {b : ℕ} {q : Queue} {ts : List ℕ}
    → Holds b q ts
    → (fresh d : ℕ) → fresh ≢ 0
    → q.entries fresh ≡ none
    → (q' : Queue) × (b' : ℕ) × (enqueue fresh d q ≡ done q')
      × (b ≡ 0 → b' ≡ 0)
      × Holds b' q' (ts ++ (d ∷ []))
unfolding enqueue
enqueue-Holds {b} {q} {ts} v fresh d ne free =
    let xs = v.entries in
    let absent : Absent fresh xs =
      Absent-none q.entries b q.list.head fresh 0 xs v.linked.linked free in
    let (l, mem, run, v') = list_add_tail-IsLinked xs v.linked fresh d ne absent in
    (
      record { list = l; entries = mem },
      back_after_add b xs,
      rw run refl,
      λ zero_back. rw zero_back (back_after_add-zero xs),
      record {
        entries = xs ++ ((fresh, d) ∷ []);
        linked = v';
        same = datas-append xs ((fresh, d) ∷ []) ∙ ap (λ us. us ++ (d ∷ [])) v.same;
      },
    )

dequeue-entries :
    {b : ℕ} {q : Queue} {t : ℕ} {ts : List ℕ} (xs : List (ℕ × ℕ))
    → IsLinked q.list xs q.entries b
    → datas xs ≡ t ∷ ts
    → (q' : Queue) × (b' : ℕ) × (dequeue q ≡ done (t, q')) × Holds b' q' ts
unfolding dequeue
dequeue-entries {q} [] v h = absurd (cc)
dequeue-entries {q} {t} ((a, c) ∷ zs) v h =
    let (l, run, v') = list_remove_head-IsLinked zs v in
    let first : c ≡ t = cc in
    (
      record { list = l; entries = update q.entries a none },
      a,
      rw (run, first) refl,
      record { entries = zs; linked = v'; same = cc },
    )

-- Taking the first data.
pub dequeue-Holds :
    {b : ℕ} {q : Queue} {t : ℕ} {ts : List ℕ}
    → Holds b q (t ∷ ts)
    → (q' : Queue) × (b' : ℕ) × (dequeue q ≡ done (t, q')) × Holds b' q' ts
dequeue-Holds v = dequeue-entries v.entries v.linked v.same

-- Nothing is taken from an empty queue.
pub dequeue-empty : {b : ℕ} {q : Queue} → Holds b q [] → dequeue q ≡ done (0, q)
unfolding dequeue list_remove_head
dequeue-empty {b} {q} v = none_there v.entries v.linked v.same
  where
    none_there :
        (xs : List (ℕ × ℕ))
        → IsLinked q.list xs q.entries b
        → datas xs ≡ []
        → dequeue q ≡ done (0, q)
    none_there [] v same = rw v.linked refl
    none_there (x ∷ xs) v same = absurd (cc)

discard-entries :
    {b : ℕ} {q : Queue} (us : List ℕ) (d : ℕ) (vs : List ℕ) (fuel : ℕ) (ys : List (ℕ × ℕ)) (a : ℕ)
    (zs : List (ℕ × ℕ))
    → IsLinked q.list (ys ++ ((a, d) ∷ zs)) q.entries b
    → datas ys ≡ us
    → datas zs ≡ vs
    → NotIn d us
    → (b ≡ 0) ⊎ ((us ≢ []) ⊎ (vs ≡ []))
    → length us < fuel
    → (q' : Queue) × (discard fuel d q ≡ done (true, q')) × Holds b q' (us ++ vs)
unfolding discard
discard-entries {b} {q} us d vs fuel ys a zs v front end out ok enough =
    let (l, mem, run, v') =
      list_remove-IsLinked a d b fuel ys zs v (NotIn-Lacks d ys (rw front out)) (entries_ok ok)
        (omega (arith, length-datas ys, ap length front)) in
    (
      record { list = l; entries = mem },
      rw run refl,
      record { entries = ys ++ zs; linked = v'; same = datas-append ys zs ∙ rw (front, end) refl },
    )
  where
    no_entries : (zs : List (ℕ × ℕ)) → datas zs ≡ [] → zs ≡ []
    no_entries [] h = refl
    no_entries (z ∷ zs) h = absurd (cc)

    entries_ok : (b ≡ 0) ⊎ ((us ≢ []) ⊎ (vs ≡ [])) → (b ≡ 0) ⊎ ((ys ≢ []) ⊎ (zs ≡ []))
    entries_ok (inl zero_back) = inl zero_back
    entries_ok (inr (inl some_before)) = inr (inl λ s. some_before (sym front ∙ ap datas s))
    entries_ok (inr (inr none_after)) = inr (inr (no_entries zs (end ∙ none_after)))

-- Removing data from between others: not the first behind a freed entry, unless it is the only one.
pub discard-Holds :
    {b : ℕ} {q : Queue} (us : List ℕ) (d : ℕ) (vs : List ℕ)
    → Holds b q (us ++ (d ∷ vs))
    → NotIn d us
    → (b ≡ 0) ⊎ ((us ≢ []) ⊎ (vs ≡ []))
    → (fuel : ℕ) → length us < fuel
    → (q' : Queue) × (discard fuel d q ≡ done (true, q')) × Holds b q' (us ++ vs)
discard-Holds {b} {q} us d vs v out ok fuel enough =
    let (ys, a, zs, parts, front, end) = datas-split us d vs v.entries v.same in
    let v' : IsLinked q.list (ys ++ ((a, d) ∷ zs)) q.entries b = rw (← parts) v.linked in
    discard-entries us d vs fuel ys a zs v' front end out ok enough

-- Data that are not there are not removed.
pub discard-missing :
    {b : ℕ} {q : Queue} {ts : List ℕ} (d : ℕ)
    → Holds b q ts
    → NotIn d ts
    → (fuel : ℕ) → length ts < fuel
    → discard fuel d q ≡ done (false, q)
unfolding discard
discard-missing {b} {q} d v out fuel enough =
    let lacks = NotIn-Lacks d v.entries (rw v.same out) in
    let enough' : length v.entries < fuel =
      omega (arith, length-datas v.entries, ap length v.same) in
    let run = list_remove-missing d b fuel v.entries v.linked lacks enough' in rw run refl

-- Addresses that no entry uses, after data were added in the entry at `fresh`.
pub enqueue-unused :
    (fresh d : ℕ) (q q' : Queue)
    → enqueue fresh d q ≡ done q'
    → (a : ℕ) → a ≢ fresh
    → q.entries a ≡ none
    → q'.entries a ≡ none
unfolding enqueue
enqueue-unused fresh d q q' h a ne gone =
    let ((l, mem), run, made) = >>=-eq-done (list_add_tail fresh d q.list q.entries) _ h in
    let added : done (record { list = l; entries = mem }) ≡ done q' = made in
    let equal : record { list = l; entries = mem } ≡ q' = cc in
    ap (λ r. r.entries a) (sym equal)
    ∙ list_add_tail-KeepsUnused fresh d q.list l q.entries mem run a ne gone

-- Addresses that no entry uses, after data were removed.
pub discard-unused :
    (fuel d : ℕ) (q q' : Queue) (removed : Bool)
    → discard fuel d q ≡ done (removed, q')
    → KeepsUnused q.entries q'.entries
unfolding discard
discard-unused fuel d q q' removed h a gone =
    let ((r, l, mem), run, made) = >>=-eq-done (list_remove fuel d q.list q.entries) _ h in
    let left : done (r, record { list = l; entries = mem }) ≡ done (removed, q') = made in
    let equal : record { list = l; entries = mem } ≡ q' = cc in
    ap (λ s. s.entries a) (sym equal)
    ∙ list_remove-KeepsUnused fuel d q.list l q.entries mem r run a gone
