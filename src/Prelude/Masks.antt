-- ===== src/Prelude/Masks.antt =====
-- `&` with masks of ones, low and high, and the test for a power of 2.
use Prim.Native.Nat.{ℕ, zero, suc, bit_or, ◌+◌, ◌-◌, ◌*◌, ◌/◌, ◌%◌, ◌^◌, ◌≤◌, ◌<◌, bit_and}
use native.Mathlib.Nat.{two-pow-succ, one-le-pow, mul-add, div-div-eq-div-mul}
use native.Mathlib.Omega.{arith}
use mathlib.Core.Path.{◌≡◌, refl, ap, ◌∙◌}
use benmosh_os.Prelude.Bits.{bit_or_halves, bit_and_halves}
use benmosh_os.Prelude.Tests.{◌==◌, Bool-cases}
use mathlib.Core.Logic.{inl, inr}

-- A number below `2 ^ n` under a mask of `n` ones.
pub bit_and-ones : (n x : ℕ) → x < 2 ^ n → bit_and x (2 ^ n - 1) ≡ x
bit_and-ones zero x h = let e : x ≡ 0 = omega arith in rw e refl
bit_and-ones (suc n) x h =
    let half : (2 ^ suc n - 1) / 2 ≡ 2 ^ n - 1 = omega (arith, two-pow-succ n) in
    omega (
      arith,
      bit_and_halves x (2 ^ suc n - 1),
      ap (bit_and (x / 2)) half,
      two-pow-succ n,
      one-le-pow n 2,
      bit_and-ones n (x / 2) (omega (arith, two-pow-succ n)),
    )

-- `x & ~(2^k - 1)`: the multiple of `2 ^ k` below.
pub bit_and-high : (n k x : ℕ) → k ≤ n → x < 2 ^ n → bit_and x (2 ^ n - 2 ^ k) ≡ x / 2 ^ k * 2 ^ k
bit_and-high n zero x h small = omega (arith, bit_and-ones n x small)
bit_and-high zero (suc k) x h small = absurd (omega arith)
bit_and-high (suc n) (suc k) x h small = omega (
  arith,
  bit_and_halves x (2 ^ suc n - 2 ^ suc k),
  ap (bit_and (x / 2)) half,
  two-pow-succ n,
  two-pow-succ k,
  div-div-eq-div-mul x 2 (2 ^ k),
  bit_and-high n k (x / 2) (omega arith) (omega (arith, two-pow-succ n)),
  regroup,
)
  where
    half : (2 ^ suc n - 2 ^ suc k) / 2 ≡ 2 ^ n - 2 ^ k
    half = omega (arith, two-pow-succ n, two-pow-succ k)

    regroup : x / 2 ^ suc k * 2 ^ suc k ≡ x / 2 / 2 ^ k * 2 ^ k * 2
    regroup = grind (arith, div-div-eq-div-mul x 2 (2 ^ k), two-pow-succ k)

bit_and_self : (m x : ℕ) → x ≤ m → bit_and x x ≡ x
bit_and_self m zero h = refl
bit_and_self zero (suc x) h = absurd (omega arith)
bit_and_self (suc m) (suc x) h =
    omega (arith, bit_and_halves (suc x) (suc x), bit_and_self m (suc x / 2) (omega arith))

-- `x & (x - 1)` is 0 for a power of 2 only.
pub power_of_two : (m x : ℕ) → x ≤ m → 0 < x → bit_and x (x - 1) ≡ 0 → (k : ℕ) × (x ≡ 2 ^ k)
power_of_two zero x h pos e = absurd (omega arith)
power_of_two (suc m) x h pos e = elim (Bool-cases (x % 2 == 0)) [
  | inl even ↦
      let less : (x - 1) / 2 ≡ x / 2 - 1 = ground arith in
      let (k, eq) =
        power_of_two m (x / 2) (omega arith) (ground arith)
          (ground (arith, bit_and_halves x (x - 1), less)) in
      (suc k, ground (arith, two-pow-succ k))
  | inr odd ↦
      let less : (x - 1) / 2 ≡ x / 2 = ground arith in
      (
        0,
        ground (arith, bit_and_halves x (x - 1), less, bit_and_self (x / 2) (x / 2) (omega arith)),
      )
]

pub power_of_two-passes : (k : ℕ) → bit_and (2 ^ k) (2 ^ k - 1) ≡ 0
power_of_two-passes zero = refl
power_of_two-passes (suc k) =
    let half : 2 ^ suc k / 2 ≡ 2 ^ k = omega (arith, two-pow-succ k) in
    let less : (2 ^ suc k - 1) / 2 ≡ 2 ^ k - 1 = omega (arith, two-pow-succ k) in
    ground (
      arith,
      bit_and_halves (2 ^ suc k) (2 ^ suc k - 1),
      half,
      less,
      two-pow-succ k,
      power_of_two-passes k,
    )

-- `|` of a multiple of `2 ^ n` and a number below it is their sum.
or_nothing : (m a : ℕ) → a ≤ m → bit_or a 0 ≡ a
or_nothing zero a h = let e : a ≡ 0 = omega (arith, h) in rw e refl
or_nothing (suc m) a h = omega (arith, bit_or_halves a 0, or_nothing m (a / 2) (omega (arith, h)))

pub bit_or-low : (n a r : ℕ) → r < 2 ^ n → bit_or (a * 2 ^ n) r ≡ a * 2 ^ n + r
bit_or-low zero a r h =
    let e : r ≡ 0 = omega (arith, h) in
    rw e (omega (arith, or_nothing (a * 1) (a * 1) (omega arith)))
bit_or-low (suc n) a r h =
    let twice : a * 2 ^ suc n ≡ a * 2 ^ n + a * 2 ^ n =
      ap (λ x. a * x) (two-pow-succ n) ∙ mul-add a (2 ^ n) (2 ^ n) in
    let half : a * 2 ^ suc n / 2 ≡ a * 2 ^ n = omega (arith, twice) in
    omega (
      arith,
      bit_or_halves (a * 2 ^ suc n) r,
      ap (λ x. bit_or x (r / 2)) half,
      bit_or-low n a (r / 2) (omega (arith, h, two-pow-succ n)),
      twice,
    )
