-- ===== src/Prelude/Outcome.antt =====
-- What a piece of code comes to: it ends with a value, it still waits (spins) for another core or
-- for the network, or it does what C leaves undefined (`fault`).
use Prim.Native.Nat.{ℕ}
use mathlib.Core.Path.{◌≡◌, refl}
use mathlib.Core.Option.{Option, none, some}
use mathlib.Core.Bool.{Bool, true, false}
use mathlib.Core.List.{List}
use optimsoc.Prelude.Tests.{ltb, if◌then◌else◌}
use optimsoc.Prelude.Lists.{length, get_elem?, set}

pub data Run {ℓ} (A : Type ℓ) : Type ℓ where
  done : A → Run A
  blocked : Run A
  fault : Run A

infixl 5 ◌>>=◌
abbrev pub ◌>>=◌ {ℓ κ} : {A : Type ℓ} {B : Type κ} → Run A → (A → Run B) → Run B
done a >>= f = f a
blocked >>= f = blocked
fault >>= f = fault

pub >>=-eq-done {ℓ κ} :
    {A : Type ℓ} {B : Type κ} (m : Run A) (f : A → Run B) {b : B}
    → (m >>= f) ≡ done b
    → (a : A) × (m ≡ done a) × (f a ≡ done b)
>>=-eq-done (done a) f h = (a, refl, h)
>>=-eq-done blocked f h = absurd (cc)
>>=-eq-done fault f h = absurd (cc)

abbrev pub or_fault {ℓ} : {A : Type ℓ} → Option A → Run A
or_fault none = fault
or_fault (some a) = done a

-- `assert (b)`
abbrev pub assert {ℓ} : {A : Type ℓ} → Bool → Run A → Run A
assert true k = k
assert false k = fault

module _ {ℓ} {A : Type ℓ} where
  -- `xs[i]`
  abbrev pub read : List A → ℕ → Run A
  read xs i = or_fault (get_elem? xs i)

  -- `xs[i] = v`
  abbrev pub store : List A → ℕ → A → Run (List A)
  store xs i v = if ltb i (length xs) then done (set xs i v) else fault

pub if-done {ℓ} :
    {A : Type ℓ} (b : Bool) (x y : A) → (if b then done x else done y) ≡ done (if b then x else y)
if-done true x y = refl
if-done false x y = refl
