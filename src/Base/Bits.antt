-- ===== src/Base/Bits.antt =====
-- The binary digits of `bit_and` and `bit_or`, for flag words.
use Prim.Native.Nat.{
  ℕ, zero, suc, ◌+◌, ◌*◌, ◌/◌, ◌%◌, ◌^◌, ◌≤◌, ◌<◌, min, max, bit_and, bit_or, digits, bitwise,
  bit_and-bitwise, bit_or-bitwise,
}
use mathlib.Core.Path.{◌≡◌, refl, ◌∙◌, ap}
use mathlib.Core.Bool.{Bool, true, ◌&&◌}
use net_module.Base.Tests.{◌==◌, ==_iff}
use native.Mathlib.Nat.{le_refl, pow-suc}
use native.Mathlib.Omega.{arith}

-- Digit `k`, from the lowest on.
unfoldable pub bit : ℕ → ℕ → ℕ
bit zero a = a % 2
bit (suc k) a = bit k (a / 2)

pub bit-le : (k a : ℕ) → bit k a ≤ 1
unfolding bit
bit-le zero a = omega arith
bit-le (suc k) a = bit-le k (a / 2)

-- Enough fuel for the digits of `a` is as good as any.
module _ (z : ℕ → ℕ) (f : ℕ → ℕ → ℕ) where
  enough_digits : (n m a b : ℕ) → a ≤ n → a ≤ m → digits z f n a b ≡ digits z f m a b
  enough_digits zero zero a b p q = refl
  enough_digits zero (suc m) zero b p q = refl
  enough_digits (suc n) zero zero b p q = refl
  enough_digits (suc n) (suc m) zero b p q = refl
  enough_digits zero (suc m) (suc a) b p q = absurd (omega arith)
  enough_digits (suc n) zero (suc a) b p q = absurd (omega arith)
  enough_digits (suc n) (suc m) (suc a) b p q =
      ap (λ (d : ℕ). d * 2 + f (suc a % 2) (b % 2))
        (enough_digits n m (suc a / 2) (b / 2) (omega arith) (omega arith))

  lowest_digit :
      (n m : ℕ)
      → bitwise z f (suc n) m ≡ bitwise z f (suc n / 2) (m / 2) * 2 + f (suc n % 2) (m % 2)
  lowest_digit n m =
      ap (λ (d : ℕ). d * 2 + f (suc n % 2) (m % 2))
        (enough_digits n (suc n / 2) (suc n / 2) (m / 2) (omega arith) (le_refl _))

pub bit_or-halves : (a b : ℕ) → bit_or a b ≡ bit_or (a / 2) (b / 2) * 2 + max (a % 2) (b % 2)
bit_or-halves zero b = rw (bit_or-bitwise zero b, bit_or-bitwise (zero / 2) (b / 2)) (omega arith)
bit_or-halves (suc a) b =
    rw (bit_or-bitwise (suc a) b, bit_or-bitwise (suc a / 2) (b / 2))
      (lowest_digit (λ y. y) max a b)

pub bit_and-halves : (a b : ℕ) → bit_and a b ≡ bit_and (a / 2) (b / 2) * 2 + min (a % 2) (b % 2)
bit_and-halves zero b =
    rw (bit_and-bitwise zero b, bit_and-bitwise (zero / 2) (b / 2)) (omega arith)
bit_and-halves (suc a) b =
    rw (bit_and-bitwise (suc a) b, bit_and-bitwise (suc a / 2) (b / 2))
      (lowest_digit (λ y. zero) min a b)

-- Digit by digit, `|` is the maximum and `&` the minimum.
pub bit-bit_or : (k a b : ℕ) → bit k (bit_or a b) ≡ max (bit k a) (bit k b)
unfolding bit
bit-bit_or zero a b = omega (arith, bit_or-halves a b)
bit-bit_or (suc k) a b =
    ap (bit k)
      (let e : bit_or a b / 2 ≡ bit_or (a / 2) (b / 2) = omega (arith, bit_or-halves a b) in e)
    ∙ bit-bit_or k (a / 2) (b / 2)

pub bit-bit_and : (k a b : ℕ) → bit k (bit_and a b) ≡ min (bit k a) (bit k b)
unfolding bit
bit-bit_and zero a b = omega (arith, bit_and-halves a b)
bit-bit_and (suc k) a b =
    ap (bit k)
      (let e : bit_and a b / 2 ≡ bit_and (a / 2) (b / 2) = omega (arith, bit_and-halves a b) in e)
    ∙ bit-bit_and k (a / 2) (b / 2)

bit_and-zero : (n a : ℕ) → a ≤ n → bit_and a 0 ≡ 0
bit_and-zero n zero h = refl
bit_and-zero zero (suc a) h = absurd (omega arith)
bit_and-zero (suc n) (suc a) h =
    omega (arith, bit_and-halves (suc a) 0, bit_and-zero n (suc a / 2) (omega arith))

-- `a & (1 << k)` is digit `k` in its place.
pub bit_and-pow : (k a : ℕ) → bit_and a (2 ^ k) ≡ bit k a * 2 ^ k
unfolding bit
bit_and-pow zero a = omega (arith, bit_and-halves a 1, bit_and-zero (a / 2) (a / 2) (le_refl _))
bit_and-pow (suc k) a = rw (pow-suc 2 k) (
    omega
      (arith, bit_and-halves a (2 ^ k * 2), ap (bit_and (a / 2)) (halved k), bit_and-pow k (a / 2)))
  where
    halved : (j : ℕ) → 2 ^ j * 2 / 2 ≡ 2 ^ j
    halved j = omega arith

-- `a & 3` keeps the two lowest digits.
pub bit_and_three : (a : ℕ) → bit_and a 3 ≡ bit 0 a + 2 * bit 1 a
unfolding bit
bit_and_three a = omega (arith, bit_and-halves a 3, bit_and-pow 0 (a / 2))

-- A Boolean property of every number below a bound, checked by evaluation.
unfoldable pub all_below : ℕ → (ℕ → Bool) → Bool
all_below zero p = true
all_below (suc n) p = p n && all_below n p

pub all_below_lem : (n : ℕ) (p : ℕ → Bool) (k : ℕ) → all_below n p ≡ true → k < n → p k ≡ true
unfolding all_below
all_below_lem zero p k h lt = absurd (omega arith)
all_below_lem (suc n) p k h lt = ground (arith, all_below_lem n p k)

-- The digits of a constant, by evaluation over the 32 places of a word.
pub bit_table :
    (w : ℕ) (d : ℕ → ℕ)
    → all_below 32 (λ k. bit k w == d k) ≡ true
    → (k : ℕ) → k < 32
    → bit k w ≡ d k
bit_table w d table k h =
    (==_iff (bit k w) (d k)).0 (all_below_lem 32 (λ j. bit j w == d j) k table h)

pub bit-zero : (k : ℕ) → bit k 0 ≡ 0
unfolding bit
bit-zero zero = refl
bit-zero (suc k) = bit-zero k
