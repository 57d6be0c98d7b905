-- ===== src/Boot/Unique.antt =====
-- The node ids that the start of an application gives: gzll-kernel/src/app.c.
use optimsoc.Prelude.{
  ℕ, suc, ◌+◌, ◌-◌, ◌^◌, ◌≡◌, ◌≢◌, ◌<◌, ◌≤◌, refl, sym, inl, inr, false, List, [], ◌∷◌, ◌==◌,
  if◌then◌else◌, add32, sub32, arith, Bool-cases,
}
use optimsoc.Runtime.Queues.{NotIn}
use optimsoc.Boot.{BootMapping, NodeStart, boot_everywhere, start_here, boot_loop, app_bootstrap}

abbrev pub node_ids : List NodeStart → List ℕ
node_ids [] = []
node_ids (n ∷ ns) = n.nodeid ∷ node_ids ns

-- The number of nodes that the mappings start on all tiles together.
abbrev pub node_count : (numct : ℕ) → List BootMapping → ℕ
node_count numct [] = 0
node_count numct (m ∷ ms) = (if m.rank == boot_everywhere then numct else 1) + node_count numct ms

-- No two of the list are the same.
abbrev pub AllDiffer : List ℕ → Type 0
AllDiffer [] = Unit
AllDiffer (x ∷ xs) = NotIn x xs × AllDiffer xs

-- None of the first list is in the second.
abbrev pub Disjoint : List ℕ → List ℕ → Type 0
Disjoint [] ys = Unit
Disjoint (x ∷ xs) ys = NotIn x ys × Disjoint xs ys

-- All are at least `low`.
abbrev AtLeast : (low : ℕ) → List ℕ → Type 0
AtLeast low [] = Unit
AtLeast low (x ∷ xs) = (low ≤ x) × AtLeast low xs

AtLeast-lower : (low low' : ℕ) (xs : List ℕ) → low' ≤ low → AtLeast low xs → AtLeast low' xs
AtLeast-lower low low' [] h all = tt
AtLeast-lower low low' (x ∷ xs) h (first, all) = (omega arith, AtLeast-lower low low' xs h all)

AtLeast-NotIn : (x low : ℕ) (xs : List ℕ) → x < low → AtLeast low xs → NotIn x xs
AtLeast-NotIn x low [] h all = tt
AtLeast-NotIn x low (y ∷ xs) h (first, all) = (omega arith, AtLeast-NotIn x low xs h all)

Disjoint-cons : (y : ℕ) (xs ys : List ℕ) → NotIn y xs → Disjoint xs ys → Disjoint xs (y ∷ ys)
Disjoint-cons y [] ys out apart = tt
Disjoint-cons y (x ∷ xs) ys (ne, out) (first, apart) =
    (((λ e. ne (sym e)), first), Disjoint-cons y xs ys out apart)

-- What the loop does with its first mapping.
abbrev heads : (numct r idx off : ℕ) → BootMapping → List BootMapping → List ℕ
heads numct r idx off m ms =
    if m.rank == boot_everywhere
    then ((idx + off + r) ∷ node_ids (boot_loop numct r (suc idx) (off + numct - 1) ms))
    else if m.rank == r
    then ((idx + off) ∷ node_ids (boot_loop numct r (suc idx) off ms))
    else node_ids (boot_loop numct r (suc idx) off ms)

boot_loop-heads :
    (numct r idx off : ℕ) (m : BootMapping) (ms : List BootMapping)
    → 0 < numct
    → r < numct
    → idx + off + node_count numct (m ∷ ms) < 2 ^ 32
    → node_ids (boot_loop numct r idx off (m ∷ ms)) ≡ heads numct r idx off m ms
unfolding boot_loop start_here
boot_loop-heads numct r idx off m ms some_tile here fits =
    elim (Bool-cases (m.rank == boot_everywhere)) [
      | inl everywhere ↦
          let room : idx + off + numct < 2 ^ 32 = ground (arith, fits, everywhere) in
          let next : add32 idx 1 ≡ suc idx = omega arith in
          let offset : add32 off (sub32 numct 1) ≡ off + numct - 1 = omega arith in
          let id : add32 (add32 idx off) r ≡ idx + off + r = omega arith in
          elim (Bool-cases (m.rank == r)) [
            | inl same ↦ rw (same, everywhere, next, offset, id) refl
            | inr differs ↦ rw (differs, everywhere, next, offset, id) refl
          ]
      | inr elsewhere ↦
          let room : idx + off + 1 < 2 ^ 32 = ground (arith, fits, elsewhere) in
          let next : add32 idx 1 ≡ suc idx = omega arith in
          let id : add32 idx off ≡ idx + off = omega arith in
          elim (Bool-cases (m.rank == r)) [
            | inl same ↦ rw (same, elsewhere, next, id) refl
            | inr differs ↦ rw (differs, elsewhere, next) refl
          ]
    ]

boot_loop-AtLeast :
    (numct r idx off : ℕ) (ms : List BootMapping)
    → 0 < numct
    → r < numct
    → idx + off + node_count numct ms < 2 ^ 32
    → AtLeast (idx + off) (node_ids (boot_loop numct r idx off ms))
unfolding boot_loop
boot_loop-AtLeast numct r idx off [] some_tile here fits = tt
boot_loop-AtLeast numct r idx off (m ∷ ms) some_tile here fits =
    rw (boot_loop-heads numct r idx off m ms some_tile here fits)
      (elim (Bool-cases (m.rank == boot_everywhere)) [
        | inl everywhere ↦
            let later =
              boot_loop-AtLeast numct r (suc idx) (off + numct - 1) ms some_tile here
                (ground (arith, fits, everywhere)) in
            rw everywhere (omega arith, AtLeast-lower _ (idx + off) _ (omega arith) later)
        | inr elsewhere ↦
            let later =
              boot_loop-AtLeast numct r (suc idx) off ms some_tile here
                (ground (arith, fits, elsewhere)) in
            let lower = AtLeast-lower _ (idx + off) _ (omega arith) later in
            elim (Bool-cases (m.rank == r)) [
              | inl same ↦ rw (elsewhere, same) (omega arith, lower)
              | inr differs ↦ rw (elsewhere, differs) lower
            ]
      ])

boot_loop-AllDiffer :
    (numct r idx off : ℕ) (ms : List BootMapping)
    → 0 < numct
    → r < numct
    → idx + off + node_count numct ms < 2 ^ 32
    → AllDiffer (node_ids (boot_loop numct r idx off ms))
unfolding boot_loop
boot_loop-AllDiffer numct r idx off [] some_tile here fits = tt
boot_loop-AllDiffer numct r idx off (m ∷ ms) some_tile here fits =
    rw (boot_loop-heads numct r idx off m ms some_tile here fits)
      (elim (Bool-cases (m.rank == boot_everywhere)) [
        | inl everywhere ↦
            let room : suc idx + (off + numct - 1) + node_count numct ms < 2 ^ 32 =
              ground (arith, fits, everywhere) in
            rw everywhere (
              AtLeast-NotIn (idx + off + r) _ _ (omega arith)
                  (boot_loop-AtLeast numct r (suc idx) (off + numct - 1) ms some_tile here room),
              boot_loop-AllDiffer numct r (suc idx) (off + numct - 1) ms some_tile here room,
            )
        | inr elsewhere ↦
            let room : suc idx + off + node_count numct ms < 2 ^ 32 =
              ground (arith, fits, elsewhere) in
            let later = boot_loop-AllDiffer numct r (suc idx) off ms some_tile here room in
            elim (Bool-cases (m.rank == r)) [
              | inl same ↦
                  rw (elsewhere, same)
                    (
                      AtLeast-NotIn (idx + off) _ _ (omega arith)
                          (boot_loop-AtLeast numct r (suc idx) off ms some_tile here room),
                      later,
                    )
              | inr differs ↦ rw (elsewhere, differs) later
            ]
      ])

boot_loop-Disjoint :
    (numct r r' idx off : ℕ) (ms : List BootMapping)
    → 0 < numct
    → r < numct
    → r' < numct
    → r ≢ r'
    → idx + off + node_count numct ms < 2 ^ 32
    → Disjoint (node_ids (boot_loop numct r idx off ms)) (node_ids (boot_loop numct r' idx off ms))
unfolding boot_loop
boot_loop-Disjoint numct r r' idx off [] some_tile here there apart fits = tt
boot_loop-Disjoint numct r r' idx off (m ∷ ms) some_tile here there apart fits =
    rw
      (
        boot_loop-heads numct r idx off m ms some_tile here fits,
        boot_loop-heads numct r' idx off m ms some_tile there fits,
      )
      (elim (Bool-cases (m.rank == boot_everywhere)) [
        | inl everywhere ↦
            let room : suc idx + (off + numct - 1) + node_count numct ms < 2 ^ 32 =
              ground (arith, fits, everywhere) in
            let low = λ (k : ℕ) (h : k < numct).
              boot_loop-AtLeast numct k (suc idx) (off + numct - 1) ms some_tile h room in
            rw everywhere (
              (omega arith, AtLeast-NotIn (idx + off + r) _ _ (omega arith) (low r' there)),
              Disjoint-cons (idx + off + r') _ _
                  (AtLeast-NotIn (idx + off + r') _ _ (omega arith) (low r here))
                  (boot_loop-Disjoint numct r r' (suc idx) (off + numct - 1) ms some_tile here there
                    apart room),
            )
        | inr elsewhere ↦
            let room : suc idx + off + node_count numct ms < 2 ^ 32 =
              ground (arith, fits, elsewhere) in
            let low = λ (k : ℕ) (h : k < numct).
              boot_loop-AtLeast numct k (suc idx) off ms some_tile h room in
            let later =
              boot_loop-Disjoint numct r r' (suc idx) off ms some_tile here there apart room in
            elim (Bool-cases (m.rank == r)) [
              | inl same ↦
                  let other : (m.rank == r') ≡ false = ground (arith, same, apart) in
                  rw (elsewhere, same, other)
                    (AtLeast-NotIn (idx + off) _ _ (omega arith) (low r' there), later)
              | inr differs ↦ elim (Bool-cases (m.rank == r')) [
                | inl same ↦
                    rw (elsewhere, differs, same)
                      (Disjoint-cons (idx + off) _ _
                        (AtLeast-NotIn (idx + off) _ _ (omega arith) (low r here)) later)
                | inr other ↦ rw (elsewhere, differs, other) later
              ]
            ]
      ])

-- The ids of the nodes that an application starts with are globally unique: a tile starts no two nodes
-- with the same id, and two tiles share none, where all of them together are less than 2 ^ 32 and each
-- rank is below the number of compute tiles.
pub app_bootstrap_unique :
    (numct rank rank' : ℕ) (ms : List BootMapping)
    → 0 < numct
    → rank < numct
    → rank' < numct
    → rank ≢ rank'
    → node_count numct ms < 2 ^ 32
    → AllDiffer (node_ids (app_bootstrap numct rank ms))
      × Disjoint (node_ids (app_bootstrap numct rank ms)) (node_ids (app_bootstrap numct rank' ms))
unfolding app_bootstrap
app_bootstrap_unique numct rank rank' ms some_tile here there apart fits = (
  boot_loop-AllDiffer numct rank 0 0 ms some_tile here (omega arith),
  boot_loop-Disjoint numct rank rank' 0 0 ms some_tile here there apart (omega arith),
)
