-- ===== src/Runtime/Names.antt =====
-- The name that `optimsoc_thread_create` of libruntime/thread.c gives a thread.
use mathlib.Core.List.{append-nil, append_assoc}
use optimsoc.Prelude.{
  ℕ, zero, suc, ◌+◌, ◌*◌, ◌/◌, ◌%◌, ◌^◌, ◌≡◌, ◌≢◌, ◌<◌, ◌≤◌, refl, sym, ap, ◌∙◌, false, List, [],
  ◌∷◌, ◌++◌, ◌==◌, length, length-append, take, arith,
}
use native.Mathlib.Decide.{ℕ_discrete}
use optimsoc.Runtime.Threads.{digits_onto, thread_name}

-- The decimal digits of a number, as characters from '0', which is 48: no digit but the only one is a
-- leading zero.
pub data Decimal : ℕ → List ℕ → Type 0 where
  one_digit : {n : ℕ} → n < 10 → Decimal n ((48 + n) ∷ [])
  more_digits :
      {q r : ℕ} {ds : List ℕ}
      → Decimal q ds
      → q ≢ 0
      → r < 10
      → Decimal (10 * q + r) (ds ++ ((48 + r) ∷ []))

-- `10 ^ n`
abbrev tens : ℕ → ℕ
tens zero = 1
tens (suc n) = 10 * tens n

-- "thread "
abbrev pub thread_prefix : List ℕ
thread_prefix = 116 ∷ 104 ∷ 114 ∷ 101 ∷ 97 ∷ 100 ∷ 32 ∷ []

some_fuel_left : (fuel k : ℕ) → k ≢ 0 → k < tens fuel → 0 < fuel
some_fuel_left zero k ne h = absurd (omega arith)
some_fuel_left (suc fuel) k ne h = omega arith

Decimal-resp : {m n : ℕ} {ds : List ℕ} → m ≡ n → Decimal m ds → Decimal n ds
Decimal-resp {m} {n} {ds} e d = rw (← e) d

digits_onto_lem :
    (fuel n : ℕ) (text : List ℕ)
    → 0 < fuel
    → n < tens fuel
    → (ds : List ℕ) × (digits_onto fuel n text ≡ ds ++ text) × (length ds ≤ fuel) × Decimal n ds
digits_onto_lem zero n text some_fuel h = absurd (omega arith)
digits_onto_lem (suc fuel) n text some_fuel h = elim (ℕ_discrete (n / 10) 0) [
  | yes e ↦
      let same : n % 10 ≡ n = omega arith in
      ((48 + n) ∷ [], rw (e, same) refl, omega arith, one_digit (omega arith))
  | no ne ↦
      let less : n / 10 < tens fuel = omega arith in
      let off : (n / 10 == 0) ≡ false = ground arith in
      let (ds, digits, short, decimal) =
        digits_onto_lem fuel (n / 10) ((48 + n % 10) ∷ text) (some_fuel_left fuel (n / 10) ne less)
          less in
      let split : 10 * (n / 10) + n % 10 ≡ n = omega arith in
      (
        ds ++ ((48 + n % 10) ∷ []),
        rw off (digits ∙ sym (append_assoc ds ((48 + n % 10) ∷ []) text)),
        omega (arith, length-append ds ((48 + n % 10) ∷ [])),
        Decimal-resp split (more_digits decimal ne (omega arith)),
      )
]

take-all : (n : ℕ) (xs : List ℕ) → length xs ≤ n → take n xs ≡ xs
take-all zero [] h = refl
take-all zero (x ∷ xs) h = absurd (omega arith)
take-all (suc n) [] h = refl
take-all (suc n) (x ∷ xs) h = ap (λ (ys : List ℕ). x ∷ ys) (take-all n xs (omega arith))

take-prefix :
    (ds text : List ℕ)
    → text ≡ ds ++ []
    → length ds ≤ 56
    → take 63 (thread_prefix ++ text) ≡ thread_prefix ++ ds
take-prefix ds text e h =
    let same : text ≡ ds = e ∙ append-nil ds in
    ap (λ (t : List ℕ). thread_prefix ++ t) (ap (take 56) same ∙ take-all 56 ds h)

-- The name is "thread " and the id.
pub thread_name_lem :
    (id : ℕ) → id < 2 ^ 32 → (ds : List ℕ) × (thread_name id ≡ thread_prefix ++ ds) × Decimal id ds
unfolding thread_name
thread_name_lem id h =
    let (ds, digits, short, decimal) = digits_onto_lem 10 id [] (omega arith) (omega arith) in
    (ds, take-prefix ds (digits_onto 10 id []) digits (omega arith), decimal)
