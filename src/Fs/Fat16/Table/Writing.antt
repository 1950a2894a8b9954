-- ===== src/Fs/Fat16/Table/Writing.antt =====
-- What `fat16_write_fat_entry` does to the table of fs/fat16.c.
use native.Mathlib.Nat.{mul-le-mul_right}
use benmosh_os.Prelude.{
  ℕ, zero, suc, ◌+◌, ◌*◌, ◌%◌, ◌^◌, ◌≤◌, ◌<◌, ◌≡◌, ◌≢◌, refl, sym, ap, ◌∙◌, arith, ◌==◌, Bool-cases,
  inl, inr,
}
use benmosh_os.Fs.Volume.{Fs, Bytes, done, Cache, count_transfer, put16}
use benmosh_os.Fs.Volume.Transfers.{
  Works, read_sector-Works, get16-put16, get16-put16_ne, count_transfer-Works,
}
use benmosh_os.Fs.Fat16.{fat_sector, fat_offset, fat16_read_fat_entry, fat16_write_fat_entry}
use benmosh_os.Fs.Fat16.Table.{
  entry_of, mirror, ensure_init-Works, fat16_read_fat_entry-Works, put_mirrors, write_mirrors-Works,
  put_mirrors-Works, put_mirrors-cache, put_mirrors-other, put_mirrors-copy,
}

-- The geometry of a volume: there is a table, and the copies end within the 28 bits of a sector number.
unfoldable pub Sized : Cache → Type 0
Sized c = (1 ≤ c.fat_count) × (c.fat_start_sector + c.fat_count * c.sectors_per_fat ≤ 2 ^ 28)

-- The cluster has an entry in the table.
abbrev pub InTable : Cache → ℕ → Type 0
InTable c cluster = fat_sector cluster < c.sectors_per_fat

-- The sector of the table with the new entry in it.
abbrev pub new_table : ℕ → ℕ → Fs → Bytes
new_table cluster value s =
    put16 (fat_offset cluster) value
      (s.sectors ((s.cache.fat_start_sector + fat_sector cluster) % 2 ^ 28))

-- The volume after the write of an entry.
pub with_entry : ℕ → ℕ → Fs → Fs
with_entry cluster value s =
    put_mirrors s.cache.fat_count 0 (fat_sector cluster) (new_table cluster value s)
      (count_transfer s)

pub fat16_write_fat_entry-Works :
    (cluster value : ℕ) (s : Fs)
    → Works s
    → fat16_write_fat_entry cluster value s ≡ (done tt, with_entry cluster value s)
unfolding fat16_write_fat_entry with_entry
fat16_write_fat_entry-Works cluster value s w =
    rw
      (ensure_init-Works s w, read_sector-Works (s.cache.fat_start_sector + fat_sector cluster) s w)
      (write_mirrors-Works s.cache.fat_count 0 (fat_sector cluster) (new_table cluster value s)
        (count_transfer s) (count_transfer-Works s w))

pub with_entry-Works : (cluster value : ℕ) (s : Fs) → Works s → Works (with_entry cluster value s)
unfolding with_entry
with_entry-Works cluster value s w =
    put_mirrors-Works s.cache.fat_count 0 (fat_sector cluster) (new_table cluster value s)
      (count_transfer s) (count_transfer-Works s w)

pub with_entry-cache : (cluster value : ℕ) (s : Fs) → (with_entry cluster value s).cache ≡ s.cache
unfolding with_entry
with_entry-cache cluster value s =
    put_mirrors-cache s.cache.fat_count 0 (fat_sector cluster) (new_table cluster value s)
      (count_transfer s)

copies :
    (cluster value : ℕ) (s : Fs) (m : ℕ)
    → m < s.cache.fat_count
    → (with_entry cluster value s).sectors (mirror s.cache (fat_sector cluster) m)
      ≡ new_table cluster value s
unfolding with_entry
copies cluster value s m h =
    put_mirrors-copy s.cache.fat_count 0 (fat_sector cluster) (new_table cluster value s)
      (count_transfer s) m (omega arith) (omega (arith, h))

Sized-some : (c : Cache) → Sized c → 0 < c.fat_count
unfolding Sized
Sized-some c (some, _) = some

-- The first copy, where entries are read.
first_copy :
    (cluster value : ℕ) (s : Fs)
    → Sized s.cache
    → (with_entry cluster value s).sectors
        ((s.cache.fat_start_sector + fat_sector cluster) % 2 ^ 28)
      ≡ new_table cluster value s
first_copy cluster value s g =
    let place : (s.cache.fat_start_sector + fat_sector cluster) % 2 ^ 28
        ≡ mirror s.cache (fat_sector cluster) 0 =
      omega arith in
    ap (with_entry cluster value s).sectors place ∙ copies cluster value s 0 (Sized-some s.cache g)

pub with_entry-same :
    (cluster value : ℕ) (s : Fs)
    → Sized s.cache
    → value < 2 ^ 16
    → entry_of (with_entry cluster value s) cluster ≡ value
unfolding entry_of
with_entry-same cluster value s g v =
    rw (with_entry-cache cluster value s, first_copy cluster value s g)
      (get16-put16 (fat_offset cluster) value
        (s.sectors ((s.cache.fat_start_sector + fat_sector cluster) % 2 ^ 28)) v)

-- The places of two entries in different sectors of the table, one in any copy.
apart :
    (c : Cache) (m x y : ℕ)
    → c.fat_start_sector + c.fat_count * c.sectors_per_fat ≤ 2 ^ 28
    → m < c.fat_count
    → x < c.sectors_per_fat
    → y < c.sectors_per_fat
    → x ≢ y
    → mirror c x m ≢ (c.fat_start_sector + y) % 2 ^ 28
apart c zero x y room lo hx hy ne e =
    let bound = mul-le-mul_right c.sectors_per_fat lo in ne (omega (arith, room, bound, hx, hy, e))
apart c (suc m) x y room lo hx hy ne e =
    let bound = mul-le-mul_right c.sectors_per_fat lo in omega (arith, room, bound, hx, hy, e)

Sized-room : (c : Cache) → Sized c → c.fat_start_sector + c.fat_count * c.sectors_per_fat ≤ 2 ^ 28
unfolding Sized
Sized-room c (_, room) = room

-- A sector that is no copy of the sector of the entry stays as it is.
pub with_entry-elsewhere :
    (cluster value : ℕ) (s : Fs) (k : ℕ)
    → ((m : ℕ) → m < s.cache.fat_count → mirror s.cache (fat_sector cluster) m ≢ k)
    → (with_entry cluster value s).sectors k ≡ s.sectors k
unfolding with_entry
with_entry-elsewhere cluster value s k h =
    put_mirrors-other s.cache.fat_count 0 (fat_sector cluster) (new_table cluster value s)
      (count_transfer s) k (λ m _ hi. h m (omega (arith, hi)))

pub with_entry-other :
    (cluster other value : ℕ) (s : Fs)
    → Sized s.cache
    → InTable s.cache cluster
    → InTable s.cache other
    → other ≢ cluster
    → entry_of (with_entry cluster value s) other ≡ entry_of s other
unfolding entry_of
with_entry-other cluster other value s g i j ne =
    elim (Bool-cases (fat_sector other == fat_sector cluster)) [
      | inl e ↦
          let same : fat_sector other ≡ fat_sector cluster = ground (arith, e) in
          rw (with_entry-cache cluster value s, same, first_copy cluster value s g)
            (get16-put16_ne (fat_offset cluster) (fat_offset other) value
              (s.sectors ((s.cache.fat_start_sector + fat_sector cluster) % 2 ^ 28)) (omega arith)
              (omega arith) (λ f. ne (omega (arith, same, f))))
      | inr e ↦
          let differ : fat_sector cluster ≢ fat_sector other = (λ f. ground (arith, e, f)) in
          rw
            (
              with_entry-cache cluster value s,
              with_entry-elsewhere cluster value s _
                  (λ m h. apart s.cache m _ _ (Sized-room s.cache g) h i j differ),
            )
            refl
    ]

-- On a drive that does not fail, a write of an entry succeeds; a read of that entry then gives the value, a
-- read of any other entry of the table what it gave before, and all copies of the sector of the entry
-- are the same. This needs at least one table, tables within 28-bit sector numbers, a cluster that the
-- table has an entry for, and a 16-bit value.
pub fat16_write_fat_entry-fat16_read_fat_entry :
    (cluster value : ℕ) (s : Fs)
    → Works s
    → Sized s.cache
    → InTable s.cache cluster
    → value < 2 ^ 16
    → let (r, t) = fat16_write_fat_entry cluster value s in
      (r ≡ done tt)
      × ((fat16_read_fat_entry cluster t).0 ≡ done value)
      × ((other : ℕ)
          → InTable s.cache other
          → other ≢ cluster
          → (fat16_read_fat_entry other t).0 ≡ (fat16_read_fat_entry other s).0)
      × ((m : ℕ)
          → m < s.cache.fat_count
          → t.sectors (mirror s.cache (fat_sector cluster) m)
            ≡ t.sectors (mirror s.cache (fat_sector cluster) 0))
fat16_write_fat_entry-fat16_read_fat_entry cluster value s w g i v =
    let t = with_entry cluster value s in
    let wt = with_entry-Works cluster value s w in
    rw (fat16_write_fat_entry-Works cluster value s w) (
      refl,
      ap (λ r. r.0) (fat16_read_fat_entry-Works cluster t wt)
          ∙ ap done (with_entry-same cluster value s g v),
      λ other j ne.
          ap (λ r. r.0) (fat16_read_fat_entry-Works other t wt)
          ∙ ap done (with_entry-other cluster other value s g i j ne)
          ∙ sym (ap (λ r. r.0) (fat16_read_fat_entry-Works other s w)),
      λ m h. copies cluster value s m h ∙ sym (copies cluster value s 0 (Sized-some s.cache g)),
    )
