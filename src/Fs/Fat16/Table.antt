-- ===== src/Fs/Fat16/Table.antt =====
-- The allocation table of fs/fat16.c on a drive that does not fail: what its entries are, and what a write does
-- to each copy of it.
pub mod Writing
use benmosh_os.Prelude.{
  ℕ, zero, suc, ◌+◌, ◌*◌, ◌/◌, ◌%◌, ◌^◌, ◌≤◌, ◌<◌, ◌≡◌, ◌≢◌, refl, sym, ap, ◌∙◌, Bool, true, false,
  arith, ◌==◌, update, update_self, update_ne, Bool-cases, inl, inr, if◌then◌else◌,
}
use benmosh_os.Fs.Volume.{
  Fs, Bytes, Outcome, done, Cache, count_transfer, read_sector, write_sector, get16, put16,
}
use benmosh_os.Fs.Volume.Transfers.{
  Works, stored, read_sector-Works, write_sector-Works, stored-Works, Works-initialized,
}
use benmosh_os.Fs.Fat16.{
  ensure_init, fat_sector, fat_offset, fat16_read_fat_entry, fat16_write_fat_entry, write_mirrors,
}

-- The entry of a cluster in the first table.
unfoldable pub entry_of : Fs → ℕ → ℕ
entry_of s cluster =
    get16 (s.sectors ((s.cache.fat_start_sector + fat_sector cluster) % 2 ^ 28))
      (fat_offset cluster)

-- The same disk and geometry: only the count of transfers may differ.
pub Same : Fs → Fs → Type 0
Same s t = (t.sectors ≡ s.sectors) × (t.cache ≡ s.cache)

pub Same-entry_of : (s t : Fs) → Same s t → (c : ℕ) → entry_of t c ≡ entry_of s c
unfolding Same entry_of
Same-entry_of s t (e, f) c = rw (e, f) refl

pub Same-refl : (s : Fs) → Same s s
unfolding Same
Same-refl s = (refl, refl)

pub Same-cache : (s t : Fs) → Same s t → t.cache ≡ s.cache
unfolding Same
Same-cache s t (e, f) = f

pub Same-sectors : (s t : Fs) → Same s t → t.sectors ≡ s.sectors
unfolding Same
Same-sectors s t (e, f) = e

pub Same-count_transfer : (s : Fs) → Same s (count_transfer s)
unfolding Same
Same-count_transfer s = (refl, refl)

pub Same-trans : (s t u : Fs) → Same s t → Same t u → Same s u
unfolding Same
Same-trans s t u (e, f) (g, h) = (g ∙ e, h ∙ f)

pub table_entries :
    (s : Fs) (n : ℕ) (j : ℕ)
    → j < 256
    → get16 (s.sectors ((s.cache.fat_start_sector + n) % 2 ^ 28)) (2 * j) ≡ entry_of s (n * 256 + j)
unfolding entry_of
table_entries s n j h =
    let a : (n * 256 + j) * 2 / 512 ≡ n = omega (arith, h) in
    let b : (n * 256 + j) * 2 % 512 ≡ 2 * j = omega (arith, h) in rw (a, b) refl

-- The sector of copy `i` of the table that has number `offset` in it.
abbrev pub mirror : Cache → ℕ → ℕ → ℕ
mirror c offset i = (c.fat_start_sector + i * c.sectors_per_fat + offset) % 2 ^ 28

pub ensure_init-known : (s : Fs) → s.cache.initialized ≡ true → ensure_init s ≡ (done tt, s)
unfolding ensure_init
ensure_init-known s known = rw known refl

pub ensure_init-Works : (s : Fs) → Works s → ensure_init s ≡ (done tt, s)
ensure_init-Works s w = ensure_init-known s (Works-initialized s w)

pub fat16_read_fat_entry-Works :
    (cluster : ℕ) (s : Fs)
    → Works s
    → fat16_read_fat_entry cluster s ≡ (done (entry_of s cluster), count_transfer s)
unfolding fat16_read_fat_entry entry_of
fat16_read_fat_entry-Works cluster s w =
    rw
      (ensure_init-Works s w, read_sector-Works (s.cache.fat_start_sector + fat_sector cluster) s w)
      refl

-- The volume after the loop over the copies.
pub put_mirrors : ℕ → ℕ → ℕ → Bytes → Fs → Fs
put_mirrors zero i offset buffer s = s
put_mirrors (suc n) i offset buffer s =
    put_mirrors n (i + 1) offset buffer
      (stored (s.cache.fat_start_sector + i * s.cache.sectors_per_fat + offset) buffer s)

pub write_mirrors-Works :
    (n i offset : ℕ) (buffer : Bytes) (s : Fs)
    → Works s
    → write_mirrors n i offset buffer s ≡ (done tt, put_mirrors n i offset buffer s)
unfolding write_mirrors put_mirrors
write_mirrors-Works zero i offset buffer s w = refl
write_mirrors-Works (suc n) i offset buffer s w =
    let sec = s.cache.fat_start_sector + i * s.cache.sectors_per_fat + offset in
    rw (write_sector-Works sec buffer s w) (
      write_mirrors-Works n (i + 1) offset buffer (stored sec buffer s)
        (stored-Works sec buffer s w))

pub put_mirrors-Works :
    (n i offset : ℕ) (buffer : Bytes) (s : Fs) → Works s → Works (put_mirrors n i offset buffer s)
unfolding put_mirrors
put_mirrors-Works zero i offset buffer s w = w
put_mirrors-Works (suc n) i offset buffer s w =
    let sec = s.cache.fat_start_sector + i * s.cache.sectors_per_fat + offset in
    put_mirrors-Works n (i + 1) offset buffer (stored sec buffer s) (stored-Works sec buffer s w)

pub put_mirrors-cache :
    (n i offset : ℕ) (buffer : Bytes) (s : Fs) → (put_mirrors n i offset buffer s).cache ≡ s.cache
unfolding put_mirrors
put_mirrors-cache zero i offset buffer s = refl
put_mirrors-cache (suc n) i offset buffer s =
    put_mirrors-cache n (i + 1) offset buffer
      (stored (s.cache.fat_start_sector + i * s.cache.sectors_per_fat + offset) buffer s)

-- A sector that is in none of the copies stays as it is.
pub put_mirrors-other :
    (n i offset : ℕ) (buffer : Bytes) (s : Fs) (k : ℕ)
    → ((m : ℕ) → i ≤ m → m < i + n → mirror s.cache offset m ≢ k)
    → (put_mirrors n i offset buffer s).sectors k ≡ s.sectors k
unfolding put_mirrors
put_mirrors-other zero i offset buffer s k h = refl
put_mirrors-other (suc n) i offset buffer s k h =
    put_mirrors-other n (i + 1) offset buffer _ k
      (λ m lo hi. h m (omega (arith, lo)) (omega (arith, hi)))
    ∙ update_ne s.sectors (mirror s.cache offset i) k buffer (h i (omega arith) (omega arith))

update_kept :
    (f : ℕ → Bytes) (p k : ℕ) (buffer : Bytes) → f k ≡ buffer → update f p buffer k ≡ buffer
update_kept f p k buffer h = elim (Bool-cases (p == k)) [ inl e ↦ rw e refl | inr e ↦ rw e h ]

put_mirrors-kept :
    (n i offset : ℕ) (buffer : Bytes) (s : Fs) (k : ℕ)
    → s.sectors k ≡ buffer
    → (put_mirrors n i offset buffer s).sectors k ≡ buffer
unfolding put_mirrors
put_mirrors-kept zero i offset buffer s k h = h
put_mirrors-kept (suc n) i offset buffer s k h =
    put_mirrors-kept n (i + 1) offset buffer _ k
      (update_kept s.sectors (mirror s.cache offset i) k buffer h)

-- Each copy gets the buffer.
pub put_mirrors-copy :
    (n i offset : ℕ) (buffer : Bytes) (s : Fs) (m : ℕ)
    → i ≤ m
    → m < i + n
    → (put_mirrors n i offset buffer s).sectors (mirror s.cache offset m) ≡ buffer
unfolding put_mirrors
put_mirrors-copy zero i offset buffer s m lo hi = absurd (omega (arith, lo, hi))
put_mirrors-copy (suc n) i offset buffer s m lo hi =
    let after = stored (s.cache.fat_start_sector + i * s.cache.sectors_per_fat + offset) buffer s in
    elim (Bool-cases (i == m)) [
      | inl e ↦
          let same : m ≡ i = ground (arith, e) in
          put_mirrors-kept n (i + 1) offset buffer after (mirror s.cache offset m)
            (rw same (update_self s.sectors (mirror s.cache offset i) buffer))
      | inr e ↦
          put_mirrors-copy n (i + 1) offset buffer after m (ground (arith, e, lo))
            (omega (arith, hi))
    ]
