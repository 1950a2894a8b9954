-- ===== src/Prelude/Bits.antt =====
-- Single bits of machine words: how `&`, `|` and a shifted one act on each of them.
use Prim.Native.Nat.{
  ℕ, zero, suc, ◌+◌, ◌-◌, ◌*◌, ◌/◌, ◌%◌, ◌^◌, ◌≤◌, ◌<◌, min, max, bit_and, bit_or, digits,
  bit_and-bitwise, bit_or-bitwise,
}
use native.Mathlib.Nat.{two-pow-succ, one-le-pow}
use native.Mathlib.Omega.{arith}
use mathlib.Core.Path.{◌≡◌, refl, ap, ◌∙◌}
use benmosh_os.Prelude.Tests.{◌==◌, if◌then◌else◌}

-- The digit `k` of `w`, counted from the lowest.
unfoldable pub bit : ℕ → ℕ → ℕ
bit w zero = w % 2
bit w (suc k) = bit (w / 2) k

pub bit-le-one : (k w : ℕ) → bit w k ≤ 1
unfolding bit
bit-le-one zero w = omega arith
bit-le-one (suc k) w = bit-le-one k (w / 2)

-- Any count of rounds from the first number on serves.
module _ (z : ℕ → ℕ) (f : ℕ → ℕ → ℕ) where
  digits_rounds : (m n a b : ℕ) → a ≤ m → a ≤ n → digits z f m a b ≡ digits z f n a b
  digits_rounds zero zero a b h k = refl
  digits_rounds zero (suc n) zero b h k = refl
  digits_rounds (suc m) zero zero b h k = refl
  digits_rounds (suc m) (suc n) zero b h k = refl
  digits_rounds zero n (suc a) b h k = absurd (omega arith)
  digits_rounds (suc m) zero (suc a) b h k = absurd (omega arith)
  digits_rounds (suc m) (suc n) (suc a) b h k =
      ap (λ t. t * 2 + f (suc a % 2) (b % 2))
        (digits_rounds m n (suc a / 2) (b / 2) (omega arith) (omega arith))

and_zero : (b : ℕ) → bit_and 0 b ≡ 0
and_zero b = bit_and-bitwise 0 b

or_zero : (b : ℕ) → bit_or 0 b ≡ b
or_zero b = bit_or-bitwise 0 b

-- One digit at a time.
pub bit_and_halves : (a b : ℕ) → bit_and a b ≡ bit_and (a / 2) (b / 2) * 2 + min (a % 2) (b % 2)
bit_and_halves zero b = omega (arith, and_zero b, and_zero (b / 2))
bit_and_halves (suc a) b = omega (
  arith,
  bit_and-bitwise (suc a) b,
  bit_and-bitwise (suc a / 2) (b / 2),
  digits_rounds (λ _. 0) min a (suc a / 2) (suc a / 2) (b / 2) (omega arith) (omega arith),
)

pub bit_or_halves : (a b : ℕ) → bit_or a b ≡ bit_or (a / 2) (b / 2) * 2 + max (a % 2) (b % 2)
bit_or_halves zero b = omega (arith, or_zero b, or_zero (b / 2))
bit_or_halves (suc a) b = omega (
  arith,
  bit_or-bitwise (suc a) b,
  bit_or-bitwise (suc a / 2) (b / 2),
  digits_rounds (λ c. c) max a (suc a / 2) (suc a / 2) (b / 2) (omega arith) (omega arith),
)

-- `&` and `|` act on each bit alone.
pub bit-and : (k a b : ℕ) → bit (bit_and a b) k ≡ min (bit a k) (bit b k)
unfolding bit
bit-and zero a b = omega (arith, bit_and_halves a b)
bit-and (suc k) a b =
    ap (λ t. bit t k) (omega (arith, bit_and_halves a b)) ∙ bit-and k (a / 2) (b / 2)

pub bit-or : (k a b : ℕ) → bit (bit_or a b) k ≡ max (bit a k) (bit b k)
unfolding bit
bit-or zero a b = omega (arith, bit_or_halves a b)
bit-or (suc k) a b = ap (λ t. bit t k) (omega (arith, bit_or_halves a b)) ∙ bit-or k (a / 2) (b / 2)

bit-zero : (k : ℕ) → bit 0 k ≡ 0
unfolding bit
bit-zero zero = refl
bit-zero (suc k) = bit-zero k

-- A shifted one.
pub bit-pow : (k j : ℕ) → bit (2 ^ k) j ≡ (if j == k then 1 else 0)
unfolding bit
bit-pow zero zero = refl
bit-pow zero (suc j) = ground (arith, bit-zero j)
bit-pow (suc k) zero = ground (arith, two-pow-succ k)
bit-pow (suc k) (suc j) =
    ap (λ t. bit t j) (omega (arith, two-pow-succ k)) ∙ bit-pow k j ∙ ground arith

pub two-pow-lt : (k n : ℕ) → k < n → 2 ^ k < 2 ^ n
two-pow-lt k zero h = absurd (omega arith)
two-pow-lt zero (suc n) h = omega (arith, two-pow-succ n, one-le-pow n 2)
two-pow-lt (suc k) (suc n) h =
    omega (arith, two-pow-succ n, two-pow-succ k, two-pow-lt k n (omega arith))

-- A word of `n` ones.
pub bit-ones : (n j : ℕ) → j < n → bit (2 ^ n - 1) j ≡ 1
unfolding bit
bit-ones zero j h = absurd (omega arith)
bit-ones (suc n) zero h = omega (arith, two-pow-succ n, one-le-pow n 2)
bit-ones (suc n) (suc j) h =
    ap (λ t. bit t j) (omega (arith, two-pow-succ n)) ∙ bit-ones n j (omega arith)

-- The complement of a shifted one in a word of `n` bits.
pub bit-mask : (n k j : ℕ) → k < n → j < n → bit (2 ^ n - 1 - 2 ^ k) j ≡ (if j == k then 0 else 1)
unfolding bit
bit-mask zero k j h i = absurd (omega arith)
bit-mask (suc n) zero zero h i = ground (arith, two-pow-succ n, one-le-pow n 2)
bit-mask (suc n) (suc k) zero h i =
    ground (arith, two-pow-succ n, two-pow-succ k, two-pow-lt k n (omega arith))
bit-mask (suc n) zero (suc j) h i =
    ap (λ t. bit t j) (omega (arith, two-pow-succ n)) ∙ bit-ones n j (omega arith) ∙ ground arith
bit-mask (suc n) (suc k) (suc j) h i =
    ap (λ t. bit t j) (omega (arith, two-pow-succ n, two-pow-succ k))
    ∙ bit-mask n k j (omega arith) (omega arith)
    ∙ ground arith

-- A word of `n` bits is the word of ones when no bit of it is clear.
pub eq-ones : (n w : ℕ) → w < 2 ^ n → ((j : ℕ) → j < n → bit w j ≡ 1) → w ≡ 2 ^ n - 1
unfolding bit
eq-ones zero w h all = omega arith
eq-ones (suc n) w h all = omega (
  arith,
  two-pow-succ n,
  all 0 (omega arith),
  eq-ones n (w / 2) (omega (arith, two-pow-succ n)) (λ j i. all (suc j) (omega arith)),
)

bit_and-zero : (m w : ℕ) → w ≤ m → bit_and w 0 ≡ 0
bit_and-zero m zero h = and_zero 0
bit_and-zero zero (suc w) h = absurd (omega arith)
bit_and-zero (suc m) (suc w) h =
    omega (arith, bit_and_halves (suc w) 0, bit_and-zero m (suc w / 2) (omega arith))

-- `w & (1 << k)` is zero exactly when bit `k` is clear.
pub bit_and-pow : (k w : ℕ) → bit_and w (2 ^ k) ≡ bit w k * 2 ^ k
unfolding bit
bit_and-pow zero w = omega (arith, bit_and_halves w 1, bit_and-zero (w / 2) (w / 2) (omega arith))
bit_and-pow (suc k) w =
    grind (arith, bit_and_halves w (2 ^ suc k), two-pow-succ k, bit_and-pow k (w / 2))

-- `&` and `|` stay within the width.
pub bit_and-lt : (n a b : ℕ) → a < 2 ^ n → bit_and a b < 2 ^ n
bit_and-lt zero a b h = let e : a ≡ 0 = omega arith in rw e (omega (arith, and_zero b))
bit_and-lt (suc n) a b h = omega (
  arith,
  bit_and_halves a b,
  two-pow-succ n,
  bit_and-lt n (a / 2) (b / 2) (omega (arith, two-pow-succ n)),
)

pub bit_or-lt : (n a b : ℕ) → a < 2 ^ n → b < 2 ^ n → bit_or a b < 2 ^ n
bit_or-lt zero a b h k = let e : a ≡ 0 = omega arith in rw e (omega (arith, or_zero b))
bit_or-lt (suc n) a b h k = omega (
  arith,
  bit_or_halves a b,
  two-pow-succ n,
  bit_or-lt n (a / 2) (b / 2) (omega (arith, two-pow-succ n)) (omega (arith, two-pow-succ n)),
)
