-- ===== src/Klib/Strings.antt =====
-- klib/string.c: memsetw, strcmp, strcpy and strncpy on byte memory. The loops that go on to a null take a number of
-- rounds; those of the others count to a bound that the caller gives.
pub mod Copies
pub mod Bounded
mod Tests
use benmosh_os.Prelude.{
  ℕ, zero, suc, ◌+◌, ◌*◌, ◌/◌, ◌%◌, Bool, true, false, not, ◌&&◌, ◌==◌, if◌then◌else◌, update,
  sub32, Option, none, some,
}

-- A word of two bytes, the low one first.
pub set_word : ℕ → ℕ → (ℕ → ℕ) → ℕ → ℕ
set_word a val m = update (update m a (val % 256)) (a + 1) (val / 256 % 256)

-- The loop of `memsetw` from `i` on.
pub memsetw_loop : ℕ → ℕ → ℕ → ℕ → (ℕ → ℕ) → ℕ → ℕ
memsetw_loop zero dest val i m = m
memsetw_loop (suc rounds) dest val i m =
    memsetw_loop rounds dest val (i + 1) (set_word (dest + i * 2) val m)

pub memsetw : ℕ → ℕ → ℕ → (ℕ → ℕ) → ℕ → ℕ
memsetw dest val count m = memsetw_loop count dest val 0 m

-- The difference at the first byte where the strings differ or end, an `int` as its 32-bit word.
pub strcmp : ℕ → ℕ → ℕ → (ℕ → ℕ) → Option ℕ
strcmp zero s1 s2 m = none
strcmp (suc rounds) s1 s2 m =
    let rest = strcmp rounds (s1 + 1) (s2 + 1) m in
    if not (m s1 == 0) && (m s1 == m s2) then rest else some (sub32 (m s1) (m s2))

-- The memory after the loop and the null behind it.
pub strcpy : ℕ → ℕ → ℕ → (ℕ → ℕ) → Option (ℕ → ℕ)
strcpy zero dest src m = none
strcpy (suc rounds) dest src m =
    let rest = strcpy rounds (dest + 1) (src + 1) (update m dest (m src)) in
    if m src == 0 then some (update m dest 0) else rest

-- The second loop of `strncpy`: nulls from `i` on.
pub pad : ℕ → ℕ → ℕ → (ℕ → ℕ) → ℕ → ℕ
pad zero dest i m = m
pad (suc rounds) dest i m = pad rounds dest (i + 1) (update m (dest + i) 0)

-- The first loop of `strncpy` from `i` on, with the second behind it.
pub strncpy_loop : ℕ → ℕ → ℕ → ℕ → (ℕ → ℕ) → ℕ → ℕ
strncpy_loop zero dest src i m = m
strncpy_loop (suc rounds) dest src i m =
    let rest = strncpy_loop rounds dest src (i + 1) (update m (dest + i) (m (src + i))) in
    if m (src + i) == 0 then pad (suc rounds) dest i m else rest

-- A count that is negative copies nothing, as 0 does.
pub strncpy : ℕ → ℕ → ℕ → (ℕ → ℕ) → ℕ → ℕ
strncpy dest src n m = strncpy_loop n dest src 0 m
