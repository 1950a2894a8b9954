-- ===== src/Klib/Numbers/Decimal/Tests.antt =====
-- Numbers as text at concrete inputs.
use benmosh_os.Prelude.{◌≡◌, refl, [], ◌∷◌, arith}
use benmosh_os.Klib.Numbers.{itoa, atoi, reverse_onto, digits, digit_char}
use benmosh_os.Klib.Numbers.Decimal.{itoa-atoi}

itoa-minus_42 : itoa 0xFFFF_FFD6 ≡ 45 ∷ 52 ∷ 50 ∷ []
unfolding itoa reverse_onto digits digit_char
itoa-minus_42 = refl

itoa-lowest : itoa 0x8000_0000 ≡ 45 ∷ 40 ∷ []
unfolding itoa reverse_onto digits digit_char
itoa-lowest = refl

itoa-atoi_example : atoi (itoa 0xFFFF_FFD6) ≡ 0xFFFF_FFD6
itoa-atoi_example = itoa-atoi 0xFFFF_FFD6 (omega arith) (λ e. omega (arith, e))
