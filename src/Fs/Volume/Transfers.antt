-- ===== src/Fs/Volume/Transfers.antt =====
-- Transfers of a drive that does not fail, and the bytes of 16-bit fields.
use benmosh_os.Prelude.{
  ℕ, ◌+◌, ◌%◌, ◌^◌, ◌≤◌, ◌<◌, ◌≡◌, ◌≢◌, refl, true, false, arith, update, Bool-cases, inl, inr, ◌⊎◌,
}
use benmosh_os.Fs.Volume.{
  Fs, Bytes, Errno, eio, done, fail, count_transfer, read_sector, write_sector, get16, get32, put32,
  put16,
}

-- No transfer of the drive fails, and the geometry of the volume is known.
unfoldable pub Works : Fs → Type 0
Works s = ((n : ℕ) → s.faults n ≡ false) × (s.cache.initialized ≡ true)

-- The volume with one more sector written.
abbrev pub stored : ℕ → Bytes → Fs → Fs
stored n buffer s = record (count_transfer s) { sectors = update s.sectors (n % 2 ^ 28) buffer }

pub read_sector-Works :
    (n : ℕ) (s : Fs) → Works s → read_sector n s ≡ (done (s.sectors (n % 2 ^ 28)), count_transfer s)
unfolding read_sector Works
read_sector-Works n s (w, _) = rw (w s.transfers) refl

pub write_sector-Works :
    (n : ℕ) (b : Bytes) (s : Fs) → Works s → write_sector n b s ≡ (done tt, stored n b s)
unfolding write_sector Works
write_sector-Works n b s (w, _) = rw (w s.transfers) refl

pub count_transfer-Works : (s : Fs) → Works s → Works (count_transfer s)
unfolding Works
count_transfer-Works s w = w

pub stored-Works : (n : ℕ) (b : Bytes) (s : Fs) → Works s → Works (stored n b s)
unfolding Works
stored-Works n b s w = w

pub Works-initialized : (s : Fs) → Works s → s.cache.initialized ≡ true
unfolding Works
Works-initialized s (_, i) = i

pub get16-put16 : (o v : ℕ) (b : Bytes) → v < 2 ^ 16 → get16 (put16 o v b) o ≡ v
unfolding get16 put16
get16-put16 o v b h = ground arith

pub get32-put32 : (o v : ℕ) (b : Bytes) → v < 2 ^ 32 → get32 (put32 o v b) o ≡ v
unfolding get32 put32 get16 put16
get32-put32 o v b h = ground (arith, h)

pub get16-put16_ne :
    (o p v : ℕ) (b : Bytes) → o % 2 ≡ 0 → p % 2 ≡ 0 → p ≢ o → get16 (put16 o v b) p ≡ get16 b p
unfolding get16 put16
get16-put16_ne o p v b ho hp ne = ground (arith, ho, hp, ne)

pub read_sector-sectors : (n : ℕ) (s : Fs) → (read_sector n s).1.sectors ≡ s.sectors
unfolding read_sector
read_sector-sectors n s = elim (Bool-cases (s.faults s.transfers)) [
  | inl e ↦ rw e refl
  | inr e ↦ rw e refl
]

-- A transfer fails with one code only.
pub read_sector-OnlyEio : (n : ℕ) (s : Fs) (e : Errno) → (read_sector n s).0 ≡ fail e → e ≡ eio
unfolding read_sector
read_sector-OnlyEio n s e h = elim (Bool-cases (s.faults s.transfers)) [ inl f ↦ cc | inr f ↦ cc ]

pub write_sector-OnlyEio :
    (n : ℕ) (b : Bytes) (s : Fs) (e : Errno) → (write_sector n b s).0 ≡ fail e → e ≡ eio
unfolding write_sector
write_sector-OnlyEio n b s e h = elim (Bool-cases (s.faults s.transfers)) [
  | inl f ↦ cc
  | inr f ↦ cc
]

pub put16-other : (o v : ℕ) (b : Bytes) (k : ℕ) → (k < o) ⊎ (o + 2 ≤ k) → put16 o v b k ≡ b k
unfolding put16
put16-other o v b k (inl h) = ground (arith, h)
put16-other o v b k (inr h) = ground (arith, h)

pub get16-put16_far :
    (o p v : ℕ) (b : Bytes) → (p + 2 ≤ o) ⊎ (o + 2 ≤ p) → get16 (put16 o v b) p ≡ get16 b p
unfolding get16 put16
get16-put16_far o p v b (inl h) = ground (arith, h)
get16-put16_far o p v b (inr h) = ground (arith, h)

pub read_sector-cases :
    (n : ℕ) (s : Fs)
    → (read_sector n s ≡ (fail eio, count_transfer s))
      ⊎ (read_sector n s ≡ (done (s.sectors (n % 2 ^ 28)), count_transfer s))
unfolding read_sector
read_sector-cases n s = elim (Bool-cases (s.faults s.transfers)) [
  | inl e ↦ inl (rw e refl)
  | inr e ↦ inr (rw e refl)
]
