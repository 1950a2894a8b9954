-- ===== src/Fs/Volume.antt =====
-- What fs/fat16.c works on: the disk behind `ata_read_sector` and `ata_write_sector`, its cache of the
-- volume's geometry, and its error codes. A function that may fail is an action that returns a value, fails
-- with a code or has used up its rounds; what it wrote before stays written.
pub mod Transfers
use Prim.Native.Nat.{ℕ, suc, ◌+◌, ◌*◌, ◌/◌, ◌%◌, ◌^◌}
use mathlib.Core.Bool.{Bool, true, false}
use mathlib.Core.Option.{Option, none, some}
use benmosh_os.Prelude.{if◌then◌else◌, update}

-- The codes of fat16.h but `EOK`.
pub data Errno : Type 0 where
  enoent eio enomem eexist enotdir eisdir einval enospc enotempty : Errno

pub data Outcome (A : Type 0) : Type 0 where
  done : A → Outcome A
  fail : Errno → Outcome A
  running : Outcome A

-- `fat16_cache_t`
pub record Cache : Type 0 where
  pub fat_start_sector : ℕ
  pub root_dir_sector : ℕ
  pub data_start_sector : ℕ
  pub root_dir_size_sectors : ℕ
  pub sectors_per_fat : ℕ
  pub fat_count : ℕ
  pub sectors_per_cluster : ℕ
  pub total_sectors : ℕ
  pub total_clusters : ℕ
  pub initialized : Bool

-- The bytes of a sector by their offsets.
abbrev pub Bytes : Type 0
Bytes = ℕ → ℕ

-- The transfer number `n` since the start fails when `faults n` is true.
pub record Fs : Type 0 where
  pub sectors : ℕ → Bytes
  pub faults : ℕ → Bool
  pub transfers : ℕ
  pub cache : Cache

abbrev pub Action : Type 0 → Type 0
Action A = Fs → Outcome A × Fs

module _ {A : Type 0} where
  abbrev pub pure : A → Action A
  pure a s = (done a, s)

  abbrev pub throw : Errno → Action A
  throw e s = (fail e, s)

  abbrev pub hang : Action A
  hang s = (running, s)

  -- For code that looks at the result of a call, or at nothing of it.
  abbrev pub succeeded : Outcome A → Outcome (Option A)
  succeeded (done a) = done (some a)
  succeeded (fail e) = done none
  succeeded running = running

  abbrev pub attempt : Action A → Action (Option A)
  attempt m s = let (r, t) = m s in (succeeded r, t)

module _ {A B : Type 0} where
  abbrev pub and_then : Outcome A → (A → Action B) → Action B
  and_then (done a) f = f a
  and_then (fail e) f = throw e
  and_then running f = hang

  infixl 5 ◌>>=◌ ◌>>◌
  abbrev pub ◌>>=◌ : Action A → (A → Action B) → Action B
  m >>= f = λ s. let (r, t) = m s in and_then r f t

  abbrev pub ◌>>◌ : Action A → Action B → Action B
  m >> n = m >>= λ _. n

abbrev pub get_cache : Action Cache
get_cache s = (done s.cache, s)

abbrev pub put_cache : Cache → Action Unit
put_cache c s = (done tt, record s { cache = c })

abbrev pub count_transfer : Fs → Fs
count_transfer s = record s { transfers = suc s.transfers }

-- The drive takes 28 bits of a sector number.
pub read_sector : ℕ → Action Bytes
read_sector n s =
    if s.faults s.transfers
    then (fail eio, count_transfer s)
    else (done (s.sectors (n % 2 ^ 28)), count_transfer s)

pub write_sector : ℕ → Bytes → Action Unit
write_sector n buffer s =
    if s.faults s.transfers
    then (fail eio, count_transfer s)
    else (done tt, record (count_transfer s) { sectors = update s.sectors (n % 2 ^ 28) buffer })

-- Little-endian fields of a buffer.
unfoldable pub get16 : Bytes → ℕ → ℕ
get16 b o = b o + 256 * b (o + 1)

pub put16 : ℕ → ℕ → Bytes → Bytes
put16 o v b = update (update b o (v % 256)) (o + 1) (v / 256 % 256)

unfoldable pub get32 : Bytes → ℕ → ℕ
unfolding get16
get32 b o = get16 b o + 65536 * get16 b (o + 2)

pub put32 : ℕ → ℕ → Bytes → Bytes
unfolding put16
put32 o v b = put16 (o + 2) (v / 65536) (put16 o v b)
