-- ===== src/Prelude/Lists.antt =====
-- Lists measured and indexed by native numbers, under the library's names.
use Prim.Native.Nat.{ℕ, zero, suc, ◌+◌}
use mathlib.Core.Path.{◌≡◌, sym}
use mathlib.Core.Logic.{◌≢◌}
use mathlib.Core.List.{List, [], ◌∷◌, ◌++◌}
use native.Mathlib.Omega.{arith}

module _ {ℓ} {A : Type ℓ} where
  abbrev pub length : List A → ℕ
  length [] = 0
  length (x ∷ xs) = suc (length xs)

  abbrev pub get_or : List A → ℕ → A → A
  get_or [] i d = d
  get_or (x ∷ xs) zero d = x
  get_or (x ∷ xs) (suc i) d = get_or xs i d

  pub length-append : (xs ys : List A) → length (xs ++ ys) ≡ length xs + length ys
  length-append [] ys = omega arith
  length-append (x ∷ xs) ys = omega (arith, length-append xs ys)

-- `c` is none of the list.
abbrev pub Apart : ℕ → List ℕ → Type 0
Apart c [] = Unit
Apart c (d ∷ cs) = (c ≢ d) × Apart c cs

-- All of the list are different.
abbrev pub Distinct : List ℕ → Type 0
Distinct [] = Unit
Distinct (c ∷ cs) = Apart c cs × Distinct cs

pub Distinct-append : (cs : List ℕ) (c : ℕ) → Distinct cs → Apart c cs → Distinct (cs ++ c ∷ [])
Distinct-append [] c h a = (tt, tt)
Distinct-append (d ∷ cs) c (once, h) (ne, a) =
    (Apart-append d c cs once (λ e. ne (sym e)), Distinct-append cs c h a)
  where
    Apart-append : (d c : ℕ) (cs : List ℕ) → Apart d cs → d ≢ c → Apart d (cs ++ c ∷ [])
    Apart-append d c [] a ne = (ne, tt)
    Apart-append d c (x ∷ xs) (nx, a) ne = (nx, Apart-append d c xs a ne)
