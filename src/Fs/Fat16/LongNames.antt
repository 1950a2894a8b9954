-- ===== src/Fs/Fat16/LongNames.antt =====
-- Long names in fs/fat16.c: the fragments that `fat16_insert_entry` writes are read back by the search for a name.
pub mod Assembly
pub mod Reading
pub mod Search
use benmosh_os.Prelude.{
  ℕ, zero, suc, ◌+◌, ◌-◌, ◌*◌, ◌/◌, ◌%◌, ◌^◌, ◌≤◌, ◌<◌, ◌≡◌, ◌≢◌, ◌⊎◌, inl, inr, refl, sym, ap, ◌∙◌,
  Bool, true, false, arith, ◌==◌, ltb, leb, Bool-cases, if◌then◌else◌, List, [], ◌∷◌, length,
  update,
}
use benmosh_os.Fs.Volume.{Bytes, get16, put16}
use benmosh_os.Fs.Volume.Transfers.{get16-put16, get16-put16_far, put16-other}
use benmosh_os.Fs.Fat16.Find.{lfn_char, copy_units, copy_fragment}
use benmosh_os.Fs.Fat16.Insert.{name_unit, put_units, lfn_record}

-- The characters of a name that survive the way through 16-bit units.
abbrev pub Plain : List ℕ → Type 0
Plain [] = Unit
Plain (c ∷ name) = (1 ≤ c) × (c < 255) × Plain name

-- The character of a name at a position, 0 behind its end.
pub char_at : List ℕ → ℕ → ℕ
char_at [] pos = 0
char_at (c ∷ name) zero = c
char_at (c ∷ name) (suc pos) = char_at name pos

pub name_unit-lt : (name : List ℕ) (pos : ℕ) → Plain name → name_unit name pos < 2 ^ 16
unfolding name_unit
name_unit-lt [] zero h = omega arith
name_unit-lt [] (suc pos) h = omega arith
name_unit-lt (c ∷ name) zero (lo, hi, h) = ground (arith, lo, hi)
name_unit-lt (c ∷ name) (suc pos) (lo, hi, h) = name_unit-lt name pos h

pub lfn_char-name_unit :
    (name : List ℕ) (pos : ℕ) → Plain name → lfn_char (name_unit name pos) ≡ char_at name pos
unfolding name_unit char_at
lfn_char-name_unit [] zero h = refl
lfn_char-name_unit [] (suc pos) h = refl
lfn_char-name_unit (c ∷ name) zero (lo, hi, h) = ground (arith, lo, hi)
lfn_char-name_unit (c ∷ name) (suc pos) (lo, hi, h) = lfn_char-name_unit name pos h

-- What a run of units in a record holds, and what it leaves alone.
pub put_units-far :
    (n : ℕ) (name : List ℕ) (pos at : ℕ) (entry : Bytes) (p : ℕ)
    → (p + 2 ≤ at) ⊎ (at + 2 * n ≤ p)
    → get16 (put_units n name pos at entry) p ≡ get16 entry p
unfolding put_units
put_units-far zero name pos at entry p h = refl
put_units-far (suc n) name pos at entry p (inl h) =
    put_units-far n name (pos + 1) (at + 2) _ p (inl (omega (arith, h)))
    ∙ get16-put16_far at p _ entry (inl h)
put_units-far (suc n) name pos at entry p (inr h) =
    put_units-far n name (pos + 1) (at + 2) _ p (inr (omega (arith, h)))
    ∙ get16-put16_far at p _ entry (inr (omega (arith, h)))

pub put_units-byte :
    (n : ℕ) (name : List ℕ) (pos at : ℕ) (entry : Bytes) (k : ℕ)
    → (k < at) ⊎ (at + 2 * n ≤ k)
    → put_units n name pos at entry k ≡ entry k
unfolding put_units
put_units-byte zero name pos at entry k h = refl
put_units-byte (suc n) name pos at entry k (inl h) =
    put_units-byte n name (pos + 1) (at + 2) _ k (inl (omega (arith, h)))
    ∙ put16-other at _ entry k (inl h)
put_units-byte (suc n) name pos at entry k (inr h) =
    put_units-byte n name (pos + 1) (at + 2) _ k (inr (omega (arith, h)))
    ∙ put16-other at _ entry k (inr (omega (arith, h)))

pub put_units-unit :
    (n : ℕ) (name : List ℕ) (pos at : ℕ) (entry : Bytes) (j : ℕ)
    → Plain name
    → j < n
    → get16 (put_units n name pos at entry) (at + 2 * j) ≡ name_unit name (pos + j)
unfolding put_units
put_units-unit zero name pos at entry j plain h = absurd (omega (arith, h))
put_units-unit (suc n) name pos at entry zero plain h =
    let here : at + 2 * 0 ≡ at = omega arith in
    let start : pos + 0 ≡ pos = omega arith in
    rw (here, start)
      (put_units-far n name (pos + 1) (at + 2) _ at (inl (omega arith))
        ∙ get16-put16 at (name_unit name pos) entry (name_unit-lt name pos plain))
put_units-unit (suc n) name pos at entry (suc j) plain h =
    let place : at + 2 * suc j ≡ (at + 2) + 2 * j = omega arith in
    let unit : pos + suc j ≡ (pos + 1) + j = omega arith in
    rw (place, unit) (put_units-unit n name (pos + 1) (at + 2) _ j plain (omega (arith, h)))

-- What a copy of units leaves in the buffer.
pub copy_units-other :
    (n : ℕ) (entry : Bytes) (from offset : ℕ) (buffer : Bytes) (k : ℕ)
    → (k < offset) ⊎ (offset + n ≤ k)
    → copy_units n entry from offset buffer k ≡ buffer k
unfolding copy_units
copy_units-other zero entry from offset buffer k h = refl
copy_units-other (suc n) entry from offset buffer k (inl h) =
    copy_units-other n entry (from + 2) (offset + 1) _ k (inl (omega (arith, h)))
    ∙ ground (arith, h)
copy_units-other (suc n) entry from offset buffer k (inr h) =
    copy_units-other n entry (from + 2) (offset + 1) _ k (inr (omega (arith, h)))
    ∙ ground (arith, h)

pub copy_units-unit :
    (n : ℕ) (entry : Bytes) (from offset : ℕ) (buffer : Bytes) (j : ℕ)
    → j < n
    → copy_units n entry from offset buffer (offset + j) ≡ lfn_char (get16 entry (from + 2 * j))
unfolding copy_units
copy_units-unit zero entry from offset buffer j h = absurd (omega (arith, h))
copy_units-unit (suc n) entry from offset buffer zero h =
    let here : offset + 0 ≡ offset = omega arith in
    let unit : from + 2 * 0 ≡ from = omega arith in
    rw (here, unit)
      (copy_units-other n entry (from + 2) (offset + 1) _ offset (inl (omega arith)) ∙ ground arith)
copy_units-unit (suc n) entry from offset buffer (suc j) h =
    let here : offset + suc j ≡ (offset + 1) + j = omega arith in
    let unit : from + 2 * suc j ≡ (from + 2) + 2 * j = omega arith in
    rw (here, unit) (copy_units-unit n entry (from + 2) (offset + 1) _ j (omega (arith, h)))
