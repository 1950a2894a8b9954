-- ===== src/Klib/Numbers.antt =====
-- klib/stdlib.c: numbers as text. A string is the list of its characters without the null; an `int` is its 32-bit word in
-- two's complement.
pub mod Decimal
use benmosh_os.Prelude.{
  ℕ, zero, suc, ◌+◌, ◌-◌, ◌*◌, ◌/◌, ◌%◌, ◌^◌, Bool, true, false, ◌&&◌, not, List, [], ◌∷◌, ◌++◌,
  leb, ltb, ◌==◌, if◌then◌else◌, sub32,
}

-- `reverse` swaps the characters of a string from both ends.
pub reverse_onto : List ℕ → List ℕ → List ℕ
reverse_onto [] tail = tail
reverse_onto (c ∷ cs) tail = reverse_onto cs (c ∷ tail)

abbrev pub reverse : List ℕ → List ℕ
reverse cs = reverse_onto cs []

abbrev pub is_negative : ℕ → Bool
is_negative n = leb (2 ^ 31) n

-- `n % 10 + '0'`. The remainder of a negative number is negative.
pub digit_char : ℕ → ℕ
digit_char n = if is_negative n then 48 - (2 ^ 32 - n) % 10 else n % 10 + 48

-- The loop of `itoa`, the last digit first. A quotient is over 0 if the number is at least 10 and not negative.
pub digits : ℕ → ℕ → List ℕ
digits zero n = []
digits (suc rounds) n =
    let rest = digits rounds (n / 10) in
    digit_char n ∷ (if ltb 0 (n / 10) && not (is_negative n) then rest else [])

-- An `int` has at most ten digits.
pub itoa : ℕ → List ℕ
itoa n = if is_negative n then reverse (digits 10 (sub32 0 n) ++ 45 ∷ []) else reverse (digits 10 n)

abbrev pub is_digit : ℕ → Bool
is_digit c = leb 48 c && leb c 57

-- The loop of `atoi`, to the end or the first character that is no digit.
pub atoi_loop : ℕ → List ℕ → ℕ
atoi_loop res [] = res
atoi_loop res (c ∷ str) =
    let rest = atoi_loop ((res * 10 + (c - 48)) % 2 ^ 32) str in if is_digit c then rest else res

pub atoi : List ℕ → ℕ
atoi [] = 0
atoi (c ∷ str) =
    let rest = atoi_loop 0 (c ∷ str) in if c == 45 then sub32 0 (atoi_loop 0 str) else rest

-- The digit number `i` of eight, the highest first.
abbrev pub hex_char : ℕ → ℕ → ℕ
hex_char n i =
    let digit = n / 2 ^ ((7 - i) * 4) % 16 in if ltb digit 10 then 48 + digit else 65 + (digit - 10)

pub hex_chars : ℕ → ℕ → ℕ → List ℕ
hex_chars zero n i = []
hex_chars (suc rounds) n i = hex_char n i ∷ hex_chars rounds n (i + 1)

-- How many zeros to skip, at most seven.
pub leading_zeros : ℕ → List ℕ → ℕ
leading_zeros zero str = 0
leading_zeros (suc room) [] = 0
leading_zeros (suc room) (c ∷ str) =
    let rest = leading_zeros room str in if c == 48 then suc rest else 0

-- The eight characters, and where the number starts.
pub itoh : ℕ → List ℕ × ℕ
itoh n = (hex_chars 8 n 0, leading_zeros 7 (hex_chars 8 n 0))
