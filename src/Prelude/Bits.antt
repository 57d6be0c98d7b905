-- ===== src/Prelude/Bits.antt =====
-- `|` on fields that do not overlap is addition.
use Prim.Native.Nat.{
  ℕ, zero, suc, ◌+◌, ◌*◌, ◌/◌, ◌%◌, ◌^◌, ◌<◌, ◌≤◌, max, bit_or, digits, bit_or-bitwise,
}
use mathlib.Core.Path.{◌≡◌, refl, ap}
use native.Mathlib.Nat.{pow-suc}
use native.Mathlib.Omega.{arith}

-- What `bit_or` stands for, with the number of digits to read made explicit.
abbrev or_digits : ℕ → ℕ → ℕ → ℕ
or_digits count a b = digits (λ rest. rest) max count a b

-- Digits beyond the highest of `a` make no difference.
or_digits-enough : (count a b : ℕ) → a ≤ count → or_digits count a b ≡ or_digits a a b
or_digits-enough count a b h = by_size count a a b h (omega arith)
  where
    by_size : (m n a b : ℕ) → a ≤ m → a ≤ n → or_digits m a b ≡ or_digits n a b
    by_size zero zero zero b p q = refl
    by_size zero zero (suc a) b p q = absurd (omega arith)
    by_size zero (suc n) zero b p q = refl
    by_size zero (suc n) (suc a) b p q = absurd (omega arith)
    by_size (suc m) zero zero b p q = refl
    by_size (suc m) zero (suc a) b p q = absurd (omega arith)
    by_size (suc m) (suc n) zero b p q = refl
    by_size (suc m) (suc n) (suc a) b p q =
        omega (arith, by_size m n (suc a / 2) (b / 2) (omega arith) (omega arith))

bit_or-halves : (a b : ℕ) → bit_or a b ≡ 2 * bit_or (a / 2) (b / 2) + max (a % 2) (b % 2)
bit_or-halves zero b = omega (arith, bit_or-bitwise 0 b, bit_or-bitwise (0 / 2) (b / 2))
bit_or-halves (suc a) b = omega (
  arith,
  bit_or-bitwise (suc a) b,
  bit_or-bitwise (suc a / 2) (b / 2),
  or_digits-enough a (suc a / 2) (b / 2) (omega arith),
)

bit_or-zero_below : (bound a : ℕ) → a < bound → bit_or a 0 ≡ a
bit_or-zero_below zero a h = absurd (omega arith)
bit_or-zero_below (suc bound) zero h = refl
bit_or-zero_below (suc bound) (suc a) h =
    omega (arith, bit_or-halves (suc a) 0, bit_or-zero_below bound (suc a / 2) (omega arith))

shifted-half : (q k : ℕ) → q * 2 ^ suc k ≡ 2 * (q * 2 ^ k)
shifted-half q k = omega (arith, ap (λ (t : ℕ). q * t) (pow-suc 2 k))

-- A field above bit `k` joined to one below it.
pub bit_or-disjoint : (k q r : ℕ) → r < 2 ^ k → bit_or (q * 2 ^ k) r ≡ q * 2 ^ k + r
bit_or-disjoint zero q zero h = omega (arith, bit_or-zero_below (suc (q * 1)) (q * 1) (omega arith))
bit_or-disjoint zero q (suc r) h = absurd (omega arith)
bit_or-disjoint (suc k) q r h = omega (
  arith,
  bit_or-halves (q * 2 ^ suc k) r,
  shifted-half q k,
  ap (λ (t : ℕ). bit_or t (r / 2)) (halved q k),
  bit_or-disjoint k q (r / 2) (smaller k r h),
)
  where
    halved : (q k : ℕ) → q * 2 ^ suc k / 2 ≡ q * 2 ^ k
    halved q k = omega (arith, shifted-half q k)

    smaller : (k r : ℕ) → r < 2 ^ suc k → r / 2 < 2 ^ k
    smaller k r h = omega (arith, pow-suc 2 k)

zero-bit_or_below : (bound b : ℕ) → b < bound → bit_or 0 b ≡ b
zero-bit_or_below zero b h = absurd (omega arith)
zero-bit_or_below (suc bound) zero h = refl
zero-bit_or_below (suc bound) (suc b) h =
    omega (arith, bit_or-halves 0 (suc b), zero-bit_or_below bound (suc b / 2) (omega arith))

pub zero-bit_or : (b : ℕ) → bit_or 0 b ≡ b
zero-bit_or b = zero-bit_or_below (suc b) b (omega arith)

pow_suc_half : (k r : ℕ) → r < 2 ^ suc k → r / 2 < 2 ^ k
pow_suc_half k r h = omega (arith, pow-suc 2 k)

-- The same with the lower field first.
pub bit_or-disjoint_swap : (k q r : ℕ) → r < 2 ^ k → bit_or r (q * 2 ^ k) ≡ q * 2 ^ k + r
bit_or-disjoint_swap zero q zero h = omega (arith, zero-bit_or (q * 1))
bit_or-disjoint_swap zero q (suc r) h = absurd (omega arith)
bit_or-disjoint_swap (suc k) q r h = omega (
  arith,
  bit_or-halves r (q * 2 ^ suc k),
  shifted-half q k,
  ap (λ (t : ℕ). bit_or (r / 2) t) (halved q k),
  bit_or-disjoint_swap k q (r / 2) (pow_suc_half k r h),
)
  where
    halved : (q k : ℕ) → q * 2 ^ suc k / 2 ≡ q * 2 ^ k
    halved q k = omega (arith, shifted-half q k)
