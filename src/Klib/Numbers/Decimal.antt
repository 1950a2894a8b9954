-- ===== src/Klib/Numbers/Decimal.antt =====
-- klib/stdlib.c: what `itoa` writes, `atoi` reads.
mod Tests
use native.Mathlib.Nat.{pow-succ'}
use benmosh_os.Prelude.{
  ℕ, zero, suc, ◌+◌, ◌-◌, ◌*◌, ◌/◌, ◌%◌, ◌^◌, ◌≤◌, ◌<◌, ◌≡◌, ◌≢◌, refl, sym, ap, ◌∙◌, Bool, true,
  false, ◌&&◌, not, List, [], ◌∷◌, ◌++◌, leb, ltb, ◌==◌, if◌then◌else◌, sub32, arith, Bool-cases,
  inl, inr,
}
use benmosh_os.Klib.Numbers.{
  reverse_onto, reverse, is_negative, digit_char, digits, itoa, is_digit, atoi_loop, atoi,
}

reverse_onto-last :
    (cs : List ℕ) (c : ℕ) (tail : List ℕ)
    → reverse_onto (cs ++ c ∷ []) tail ≡ c ∷ reverse_onto cs tail
unfolding reverse_onto
reverse_onto-last [] c tail = refl
reverse_onto-last (d ∷ cs) c tail = reverse_onto-last cs c (d ∷ tail)

digit_char-positive : (n : ℕ) → n < 2 ^ 31 → digit_char n ≡ n % 10 + 48
unfolding digit_char
digit_char-positive n h = ground (arith, h)

-- One digit read.
atoi_loop-digit :
    (res d : ℕ) (str : List ℕ)
    → d < 10
    → res * 10 + d < 2 ^ 32
    → atoi_loop res ((d + 48) ∷ str) ≡ atoi_loop (res * 10 + d) str
unfolding atoi_loop
atoi_loop-digit res d str h small =
    let digit : is_digit (d + 48) ≡ true = ground (arith, h) in
    let next : (res * 10 + (d + 48 - 48)) % 2 ^ 32 ≡ res * 10 + d = omega (arith, small) in
    rw (digit, next) refl

enough : (rounds n : ℕ) → n < 10 ^ suc rounds → 1 ≤ n / 10 → 1 ≤ rounds
enough zero n h some = absurd (omega (arith, h, some))
enough (suc rounds) n h some = omega arith

-- The digits of `n`, read from the highest on.
digits-atoi_loop :
    (rounds n : ℕ) (tail : List ℕ)
    → n < 10 ^ rounds
    → n < 2 ^ 31
    → 1 ≤ rounds
    → atoi_loop 0 (reverse_onto (digits rounds n) tail) ≡ atoi_loop n tail
unfolding digits reverse_onto
digits-atoi_loop zero n tail h small some = absurd (omega (arith, some))
digits-atoi_loop (suc rounds) n tail h small some =
    let char = digit_char-positive n small in
    let positive : is_negative n ≡ false = ground (arith, small) in
    elim (Bool-cases (ltb 0 (n / 10))) [
      | inr e ↦
          let low : 0 * 10 + n % 10 ≡ n = ground (arith, e) in
          rw (char, e)
            (atoi_loop-digit 0 (n % 10) tail (omega arith) (omega arith)
              ∙ ap (λ x. atoi_loop x tail) low)
      | inl e ↦
          let whole : n / 10 * 10 + n % 10 ≡ n = omega arith in
          rw (char, e, positive)
            (digits-atoi_loop rounds (n / 10) ((n % 10 + 48) ∷ tail)
                (omega (arith, h, pow-succ' 10 rounds)) (omega (arith, small))
                (enough rounds n h (ground (arith, e)))
              ∙ atoi_loop-digit (n / 10) (n % 10) tail (omega arith) (omega (arith, small))
              ∙ ap (λ x. atoi_loop x tail) whole)
    ]

-- A string that does not start with a minus.
abbrev pub Unsigned : List ℕ → Type 0
Unsigned [] = Unit
Unsigned (c ∷ str) = 48 ≤ c

digits-Unsigned :
    (rounds n : ℕ) (tail : List ℕ)
    → n < 2 ^ 31
    → Unsigned tail
    → Unsigned (reverse_onto (digits rounds n) tail)
unfolding digits reverse_onto
digits-Unsigned zero n tail small h = h
digits-Unsigned (suc rounds) n tail small h =
    let char : 48 ≤ digit_char n = omega (arith, digit_char-positive n small) in
    elim (Bool-cases (ltb 0 (n / 10) && not (is_negative n))) [
      | inl e ↦
          rw e (digits-Unsigned rounds (n / 10) (digit_char n ∷ tail) (omega (arith, small)) char)
      | inr e ↦ rw e char
    ]

atoi-Unsigned : (str : List ℕ) → Unsigned str → atoi str ≡ atoi_loop 0 str
unfolding atoi atoi_loop
atoi-Unsigned [] h = refl
atoi-Unsigned (c ∷ str) h = let e : (c == 45) ≡ false = ground (arith, h) in rw e refl

atoi-minus : (str : List ℕ) → atoi (45 ∷ str) ≡ sub32 0 (atoi_loop 0 str)
unfolding atoi
atoi-minus str = refl

-- `atoi` reads back every `int` that `itoa` has written, but the lowest, -2^31.
pub itoa-atoi : (n : ℕ) → n < 2 ^ 32 → n ≢ 2 ^ 31 → atoi (itoa n) ≡ n
unfolding itoa atoi_loop
itoa-atoi n word lowest = elim (Bool-cases (is_negative n)) [
  | inr e ↦
      let small : n < 2 ^ 31 = ground (arith, e) in
      rw e (
        atoi-Unsigned (reverse (digits 10 n)) (digits-Unsigned 10 n [] small tt)
        ∙ digits-atoi_loop 10 n [] (omega (arith, small)) small (omega arith))
  | inl e ↦
      let m = sub32 0 n in
      let small : m < 2 ^ 31 = ground (arith, e, word, lowest) in
      rw e (
        ap atoi (reverse_onto-last (digits 10 m) 45 [])
        ∙ atoi-minus (reverse (digits 10 m))
        ∙ ap (sub32 0) (digits-atoi_loop 10 m [] (omega (arith, small)) small (omega arith))
        ∙ ground (arith, e, word))
]
