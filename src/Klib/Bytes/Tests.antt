-- ===== src/Klib/Bytes/Tests.antt =====
-- The byte routines on a short string, and the theorems at it.
use benmosh_os.Prelude.{ℕ, refl, arith, update}
use benmosh_os.Klib.Bytes.Copies.{IsString}

-- `ab` at 10.
abbrev bytes : ℕ → ℕ
bytes = update (update (λ a. 0) 10 97) 11 98

bytes-IsString : IsString bytes 10 2
bytes-IsString = record { chars = λ j b. ground (arith, b); null = refl }
