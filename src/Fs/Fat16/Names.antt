-- ===== src/Fs/Fat16/Names.antt =====
-- fs/fat16.c, layer 2: short names of 8 and 3 characters, their checksum, and how names are compared.
use benmosh_os.Prelude.{
  ℕ, zero, suc, ◌+◌, ◌-◌, ◌/◌, ◌%◌, Bool, true, false, Option, none, some, ◌&&◌, List, [], ◌∷◌,
  ◌++◌, map, leb, ltb, ◌==◌, if◌then◌else◌, length,
}
use benmosh_os.Fs.Volume.{Bytes}

-- `n` bytes of a buffer from `o` on.
pub slice : Bytes → ℕ → ℕ → List ℕ
slice b o zero = []
slice b o (suc n) = b o ∷ slice b (o + 1) n

pub lower : ℕ → ℕ
lower c = if leb 65 c && leb c 90 then c + 32 else c

pub upper : ℕ → ℕ
upper c = if leb 97 c && leb c 122 then c - 32 else c

-- The characters that are no padding.
pub unpad : List ℕ → List ℕ
unpad [] = []
unpad (c ∷ cs) = let rest = unpad cs in if c == 32 then rest else c ∷ rest

abbrev pub starts_blank : List ℕ → Bool
starts_blank [] = true
starts_blank (c ∷ cs) = c == 32

-- A base name and an extension, joined by a dot if there is an extension.
pub join_sfn : List ℕ → List ℕ → List ℕ
join_sfn base ext = if starts_blank ext then unpad base else unpad base ++ 46 ∷ unpad ext

-- The comparison loop, to the first null of `name` or the end of the target.
pub same_name : List ℕ → List ℕ → Bool
same_name [] [] = true
same_name [] (t ∷ target) = false
same_name (c ∷ name) [] = c == 0
same_name (c ∷ name) (t ∷ target) =
    let rest = same_name name target in
    if c == 0 then false else if lower c == lower t then rest else false

pub match_sfn : Bytes → List ℕ → Bool
match_sfn entry target = same_name (map lower (join_sfn (slice entry 0 8) (slice entry 8 3))) target

pub checksum_step : ℕ → ℕ → ℕ
checksum_step sum c = ((if sum % 2 == 1 then 0x80 else 0) + sum / 2 + c) % 256

pub checksum_from : ℕ → List ℕ → ℕ
checksum_from sum [] = sum
checksum_from sum (c ∷ cs) = checksum_from (checksum_step sum c) cs

-- Over the 11 bytes of a short name.
pub lfn_checksum : List ℕ → ℕ
lfn_checksum short_name = checksum_from 0 short_name

-- Up to `room` characters before the first dot, blanks left out, in upper case.
pub base_name : ℕ → List ℕ → List ℕ
base_name zero lfn = []
base_name (suc room) [] = []
base_name (suc room) (c ∷ lfn) =
    let rest = base_name (if c == 32 then suc room else room) lfn in
    if c == 46 then [] else if c == 32 then rest else upper c ∷ rest

pub after_last_dot : List ℕ → Option (List ℕ)
after_last_dot [] = none
after_last_dot (c ∷ lfn) = elim (after_last_dot lfn) [
  | some ext ↦ some ext
  | none ↦ if c == 46 then some lfn else none
]

-- The first `n` of a list.
pub take : ℕ → List ℕ → List ℕ
take zero cs = []
take (suc n) [] = []
take (suc n) (c ∷ cs) = c ∷ take n cs

-- To `n` bytes, with blanks.
pub pad : ℕ → List ℕ → List ℕ
pad zero cs = []
pad (suc n) [] = 32 ∷ pad n []
pad (suc n) (c ∷ cs) = c ∷ pad n cs

pub tail_digits : ℕ → List ℕ
tail_digits attempt =
    if ltb attempt 10
    then (attempt + 48) ∷ []
    else if ltb attempt 100
    then (attempt / 10 + 48) ∷ (attempt % 10 + 48) ∷ []
    else ((attempt / 100 + 48) % 256) ∷ (attempt / 10 % 10 + 48) ∷ (attempt % 10 + 48) ∷ []

pub short_base : List ℕ → ℕ → List ℕ
short_base lfn attempt =
    let base = base_name 8 lfn in
    let suffix_len = 1 + length (tail_digits attempt) in
    let keep_len = if ltb 8 (length base + suffix_len) then 8 - suffix_len else length base in
    pad 8 (take keep_len base ++ 126 ∷ tail_digits attempt)

pub short_ext : List ℕ → List ℕ
short_ext lfn = elim (after_last_dot lfn) [
  | none ↦ pad 3 []
  | some ext ↦ pad 3 (map upper (take 3 ext))
]

-- The 11 bytes of the name.
pub generate_short_name : List ℕ → ℕ → List ℕ
generate_short_name lfn attempt = short_base lfn attempt ++ short_ext lfn
