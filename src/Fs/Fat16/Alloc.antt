-- ===== src/Fs/Fat16/Alloc.antt =====
-- What `fat16_alloc_cluster` of fs/fat16.c returns, on a drive that does not fail.
use benmosh_os.Prelude.{
  ℕ, zero, suc, ◌+◌, ◌*◌, ◌%◌, ◌^◌, ◌≤◌, ◌<◌, ◌≡◌, ◌≢◌, ◌⊎◌, inl, inr, refl, sym, ap, ◌∙◌, arith,
  ltb, Bool-cases,
}
use benmosh_os.Fs.Volume.{Fs, Outcome, done, count_transfer, Action, attempt, pure, ◌>>◌}
use benmosh_os.Fs.Volume.Transfers.{Works, read_sector-Works, count_transfer-Works}
use benmosh_os.Fs.Fat16.{
  Scan, found, past_end, exhausted, scan_table, alloc_sectors, fat16_alloc_cluster,
  fat16_write_fat_entry,
}
use benmosh_os.Fs.Fat16.Table.{
  Same, Same-refl, Same-trans, Same-count_transfer, Same-entry_of, Same-cache, Same-sectors,
  table_entries, entry_of, ensure_init-Works,
}
use benmosh_os.Fs.Fat16.Table.Writing.{
  Sized, InTable, with_entry, fat16_write_fat_entry-Works, with_entry-same, with_entry-other,
}
use benmosh_os.Fs.Fat16.Search.{NoFree, Answer, scan_table-Answer}

-- What an outcome says of a search from cluster `lo` on: a free cluster that is the first of its kind and has
-- been marked, or none and nothing has changed.
abbrev pub Search : Fs → ℕ → Outcome ℕ × Fs → Type 0
Search s lo r =
    ((c : ℕ) × (t : Fs) × Same s t
      × Works t
      × (r ≡ (done c, with_entry c 0xFFFF t))
      × (lo ≤ c)
      × (c < s.cache.sectors_per_fat * 256)
      × (2 ≤ c)
      × (c < s.cache.total_clusters + 2)
      × (entry_of s c ≡ 0)
      × NoFree (entry_of s) lo c)
    ⊎ ((t : Fs) × Same s t
        × Works t
        × (r ≡ (done 0, t))
        × ((j : ℕ)
            → lo ≤ j
            → j < s.cache.sectors_per_fat * 256
            → j < s.cache.total_clusters + 2
            → 2 ≤ j
            → entry_of s j ≢ 0))

joined :
    (s : Fs) (lo mid j : ℕ)
    → NoFree (entry_of s) lo mid
    → lo ≤ j
    → 2 ≤ j
    → (mid ≤ j → entry_of (count_transfer s) j ≢ 0)
    → entry_of s j ≢ 0
joined s lo mid j below le two above = elim (Bool-cases (ltb j mid)) [
  | inl e ↦ below j le (ground (arith, e)) two
  | inr e ↦ λ f.
      above (ground (arith, e)) (Same-entry_of s (count_transfer s) (Same-count_transfer s) j ∙ f)
]

-- A table without a free entry up to the sector where the search goes on.
Search-weaken :
    (s : Fs) (lo mid : ℕ) (r : Outcome ℕ × Fs)
    → lo ≤ mid
    → NoFree (entry_of s) lo mid
    → Search (count_transfer s) mid r
    → Search s lo r
Search-weaken s lo mid r le none_free (inl (c, t, same, w, e, ge, lt, two, total, free, rest)) =
    let same' = Same-trans s (count_transfer s) t (Same-count_transfer s) same in
    inl (
      c,
      t,
      same',
      w,
      e,
      omega (arith, le, ge),
      lt,
      two,
      total,
      sym (Same-entry_of s _ (Same-count_transfer s) c) ∙ free,
      λ j le lt two. joined s lo mid j none_free le two (λ ge. rest j ge lt two),
    )
Search-weaken s lo mid r le none_free (inr (t, same, w, e, rest)) = inr (
  t,
  Same-trans s (count_transfer s) t (Same-count_transfer s) same,
  w,
  e,
  λ j le lt total two. joined s lo mid j none_free le two (λ ge. rest j ge lt total two),
)

pub alloc_sectors-Search :
    (rounds n : ℕ) (s : Fs)
    → Works s
    → n + rounds ≡ s.cache.sectors_per_fat
    → s.cache.sectors_per_fat ≤ 256
    → Search s (n * 256) (alloc_sectors rounds n s)
unfolding alloc_sectors
alloc_sectors-Search zero n s w hn small =
    inr (s, Same-refl s, w, refl, λ j le lt _ _. absurd (omega (arith, hn, le, lt)))
alloc_sectors-Search (suc rounds) n s w hn small =
    let table = s.sectors ((s.cache.fat_start_sector + n) % 2 ^ 28) in
    let answer =
      scan_table-Answer (entry_of s) s.cache.total_clusters n 256 0 table (omega (arith, hn, small))
        (omega arith) (table_entries s n) in
    rw (read_sector-Works (s.cache.fat_start_sector + n) s w) (
      go (scan_table 256 n 0 s.cache.total_clusters table) answer (
        alloc_sectors-Search rounds (n + 1) (count_transfer s) (count_transfer-Works s w)
          (omega (arith, hn)) small))
  where
    go :
        (r : Scan)
        → Answer (entry_of s) s.cache.total_clusters (n * 256 + 0) (n * 256 + 256) r
        → Search
            (count_transfer s)
            ((n + 1) * 256)
            (alloc_sectors rounds (n + 1) (count_transfer s))
        → Search s (n * 256) (
            (elim r as (λ _. Action ℕ) [
              | exhausted ↦ alloc_sectors rounds (n + 1)
              | past_end ↦ pure 0
              | found cluster ↦ attempt (fat16_write_fat_entry cluster 0xFFFF) >> pure cluster
            ])
              (count_transfer s))
    go (found c) (ge, lt, two, total, free, rest) more =
        rw (fat16_write_fat_entry-Works c 0xFFFF (count_transfer s) (count_transfer-Works s w)) (
          inl (
            c,
            count_transfer s,
            Same-count_transfer s,
            count_transfer-Works s w,
            refl,
            omega (arith, ge),
            omega (arith, lt, hn),
            two,
            total,
            free,
            λ j le. rest j (omega (arith, le)),
          ))
    go past_end rest more = inr (
      count_transfer s,
      Same-count_transfer s,
      count_transfer-Works s w,
      refl,
      λ j le _ lt two. rest j (omega (arith, le)) lt two,
    )
    go exhausted rest more =
        Search-weaken s (n * 256) ((n + 1) * 256) _ (omega arith)
          (λ j le lt. rest j (omega (arith, le)) (omega (arith, lt))) more

-- The first free cluster of `s` from 2 on, below the end of the volume and that of the table, is returned, its entry reads
-- 0xFFFF and all other entries read as before; or 0 is returned, nothing changes, and no entry is
-- free up to the nearer end.
abbrev pub Allocates : Fs → Outcome ℕ × Fs → Type 0
Allocates s r =
    ((c : ℕ) × (r.0 ≡ done c)
      × (2 ≤ c)
      × (c < s.cache.total_clusters + 2)
      × (c < s.cache.sectors_per_fat * 256)
      × (entry_of s c ≡ 0)
      × ((j : ℕ) → 2 ≤ j → j < c → entry_of s j ≢ 0)
      × (entry_of r.1 c ≡ 0xFFFF)
      × ((j : ℕ) → InTable s.cache j → j ≢ c → entry_of r.1 j ≡ entry_of s j))
    ⊎ ((r.0 ≡ done 0)
        × (r.1.sectors ≡ s.sectors)
        × ((j : ℕ) → InTable s.cache j → 2 ≤ j → j < s.cache.total_clusters + 2 → entry_of s j ≢ 0))

Search-Allocates : (s : Fs) → Sized s.cache → (r : Outcome ℕ × Fs) → Search s 0 r → Allocates s r
Search-Allocates s g r (inl (c, t, same, wt, e, ge, lt, two, total, free, rest)) =
    let gt : Sized t.cache = rw (Same-cache s t same) g in
    let inside : InTable t.cache c = rw (Same-cache s t same) (omega (arith, lt)) in
    let marked : entry_of r.1 c ≡ 0xFFFF = rw e (with_entry-same c 0xFFFF t gt (omega arith)) in
    inl (
      c,
      ap (λ x. x.0) e,
      two,
      total,
      lt,
      free,
      λ j le l. rest j (omega arith) l le,
      marked,
      λ j i ne. rw e (
          with_entry-other c j 0xFFFF t gt inside (rw (Same-cache s t same) i) ne
          ∙ Same-entry_of s t same j),
    )
Search-Allocates s g r (inr (t, same, wt, e, rest)) = inr (
  ap (λ x. x.0) e,
  ap (λ x. x.1.sectors) e ∙ Same-sectors s t same,
  λ j i two total. rest j (omega arith) (omega (arith, i)) total two,
)

-- On a drive that does not fail, an allocation returns the first free cluster of the table, from 2 on, up to
-- the last cluster of the volume and within the table, and then the entry of that cluster reads 0xFFFF and all other entries read
-- as before; or it returns 0, changes nothing, and the table has no free entry up to the nearer end.
-- This needs at least one table, tables within 28-bit sector numbers, and a table of at most 256 sectors.
pub fat16_alloc_cluster-Allocates :
    (s : Fs)
    → Works s
    → Sized s.cache
    → s.cache.sectors_per_fat ≤ 256
    → Allocates s (fat16_alloc_cluster s)
unfolding fat16_alloc_cluster
fat16_alloc_cluster-Allocates s w g small = rw (ensure_init-Works s w) (
    Search-Allocates s g _ (alloc_sectors-Search s.cache.sectors_per_fat 0 s w (omega arith) small))
