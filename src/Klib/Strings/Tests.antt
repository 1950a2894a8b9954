-- ===== src/Klib/Strings/Tests.antt =====
-- The string routines on a short string, and the theorems at it.
use benmosh_os.Prelude.{
  ℕ, ◌+◌, ◌<◌, ltb, if◌then◌else◌, ◌-◌, ◌^◌, ◌≡◌, inr, refl, arith, some, update,
}
use benmosh_os.Klib.Bytes.Copies.{IsString, Outside}
use benmosh_os.Klib.Strings.{strcpy, strcmp, strncpy}
use benmosh_os.Klib.Strings.Copies.{Copied, strcpy-strcmp}
use benmosh_os.Klib.Strings.Bounded.{strncpy-bytes}

-- `ab` at 10.
abbrev text : ℕ → ℕ
text = update (update (λ a. 0) 10 97) 11 98

text-IsString : IsString text 10 2
text-IsString = record { chars = λ j b. ground (arith, b); null = refl }

-- `ab` and `ba` differ by -1 at their first characters.
strcmp-text : strcmp 3 10 20 (update (update text 20 98) 21 97) ≡ some (2 ^ 32 - 1)
unfolding strcmp
strcmp-text = refl

strcpy-strcmp_example :
    (m' : ℕ → ℕ) × (strcpy 3 20 10 text ≡ some m')
    × Copied 20 10 3 text m'
    × (strcmp 3 10 20 m' ≡ some 0)
strcpy-strcmp_example = strcpy-strcmp 2 3 20 10 text text-IsString (inr (omega arith)) (omega arith)

strncpy-bytes_example :
    ((j : ℕ) → j < 5 → strncpy 20 10 5 text (20 + j) ≡ (if ltb j 2 then text (10 + j) else 0))
    × ((a : ℕ) → Outside a 20 5 → strncpy 20 10 5 text a ≡ text a)
strncpy-bytes_example = strncpy-bytes 20 10 5 2 text text-IsString (inr (omega arith))
