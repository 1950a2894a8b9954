-- ===== src/Klib/Bytes.antt =====
-- klib/string.c: memcpy, memset, memcmp and strlen on byte memory. The loops of the first three count to
-- a bound that the caller gives; that of `strlen` takes a number of rounds.
pub mod Copies
mod Tests
use benmosh_os.Prelude.{
  ℕ, zero, suc, ◌+◌, ◌%◌, Bool, true, false, ◌==◌, if◌then◌else◌, update, Option, none, some,
}

-- The loop of `memcpy` from `i` on.
pub memcpy_loop : ℕ → ℕ → ℕ → ℕ → (ℕ → ℕ) → ℕ → ℕ
memcpy_loop zero dest src i m = m
memcpy_loop (suc rounds) dest src i m =
    memcpy_loop rounds dest src (i + 1) (update m (dest + i) (m (src + i)))

pub memcpy : ℕ → ℕ → ℕ → (ℕ → ℕ) → ℕ → ℕ
memcpy dest src count m = memcpy_loop count dest src 0 m

pub memset_loop : ℕ → ℕ → ℕ → ℕ → (ℕ → ℕ) → ℕ → ℕ
memset_loop zero dest val i m = m
memset_loop (suc rounds) dest val i m =
    memset_loop rounds dest val (i + 1) (update m (dest + i) val)

pub memset : ℕ → ℕ → ℕ → (ℕ → ℕ) → ℕ → ℕ
memset dest val count m = memset_loop count dest val 0 m

-- 1 at the first difference, 0 when there is none.
pub memcmp : ℕ → ℕ → ℕ → (ℕ → ℕ) → ℕ
memcmp zero s1 s2 m = 0
memcmp (suc count) s1 s2 m =
    let rest = memcmp count (s1 + 1) (s2 + 1) m in if m s1 == m s2 then rest else 1

-- The loop of `strlen`, for at most the rounds given.
pub strlen_loop : ℕ → ℕ → ℕ → (ℕ → ℕ) → Option ℕ
strlen_loop zero str len m = none
strlen_loop (suc rounds) str len m =
    let rest = strlen_loop rounds str (len + 1) m in if m (str + len) == 0 then some len else rest

pub strlen : ℕ → ℕ → (ℕ → ℕ) → Option ℕ
strlen rounds str m = strlen_loop rounds str 0 m
