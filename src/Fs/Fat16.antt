-- ===== src/Fs/Fat16.antt =====
-- fs/fat16.c, its first layer: the geometry of the volume, the entries of the allocation table, and the
-- chains of clusters. The other layers are the modules below.
pub mod Table
pub mod Search
pub mod Alloc
pub mod Chains
pub mod Names
pub mod Directory
pub mod Find
pub mod ReadOnly
pub mod Refusals
pub mod LongNames
pub mod Ending
pub mod Contents
pub mod Visiting
pub mod Path
pub mod Insert
pub mod Files
use benmosh_os.Prelude.{
  ℕ, zero, suc, ◌+◌, ◌-◌, ◌*◌, ◌/◌, ◌%◌, ◌^◌, Bool, true, false, Option, none, some, ◌&&◌, ◌||◌,
  not, leb, ltb, ◌==◌, if◌then◌else◌, sub32, add32,
}
use benmosh_os.Fs.Volume.{
  Cache, Bytes, Fs, Action, pure, throw, hang, attempt, and_then, ◌>>=◌, ◌>>◌, get_cache, put_cache,
  read_sector, write_sector, get16, get32, put16,
}

-- The geometry in the boot sector.
pub parse_bpb : Bytes → Cache
parse_bpb b =
    let fat_start = get16 b 14 in
    let per_fat = get16 b 22 in
    let root = fat_start + b 16 * per_fat in
    let root_size = get16 b 17 * 32 / 512 in
    let total = if get16 b 19 == 0 then get32 b 32 else get16 b 19 in
    record {
      fat_start_sector = fat_start;
      root_dir_sector = root;
      data_start_sector = root + root_size;
      root_dir_size_sectors = root_size;
      sectors_per_fat = per_fat;
      fat_count = b 16;
      sectors_per_cluster = b 13;
      total_sectors = total;
      total_clusters = sub32 total (root + root_size) / b 13 % 2 ^ 16;
      initialized = true;
    }

-- A failed read leaves the cache as it was.
pub fat16_init : Action Unit
fat16_init = do
  b ← attempt (read_sector 0)
  elim b [ none ↦ pure tt | some buffer ↦ put_cache (parse_bpb buffer) ]

pub ensure_init : Action Unit
ensure_init = do c ← get_cache; if c.initialized then pure tt else fat16_init

-- Where the entry of a cluster stands in each table.
abbrev pub fat_sector : ℕ → ℕ
fat_sector cluster = cluster * 2 / 512

abbrev pub fat_offset : ℕ → ℕ
fat_offset cluster = cluster * 2 % 512

-- 0xFFFF for a read that fails.
pub fat16_read_fat_entry : ℕ → Action ℕ
fat16_read_fat_entry cluster = do
  ensure_init
  c ← get_cache
  b ← attempt (read_sector (c.fat_start_sector + fat_sector cluster))
  elim b [ none ↦ pure 0xFFFF | some buffer ↦ pure (get16 buffer (fat_offset cluster)) ]

-- The loop over the tables from number `i` on.
pub write_mirrors : ℕ → ℕ → ℕ → Bytes → Action Unit
write_mirrors zero i offset buffer = pure tt
write_mirrors (suc rounds) i offset buffer = do
  c ← get_cache
  write_sector (c.fat_start_sector + i * c.sectors_per_fat + offset) buffer
  write_mirrors rounds (i + 1) offset buffer

pub fat16_write_fat_entry : ℕ → ℕ → Action Unit
fat16_write_fat_entry cluster value = do
  ensure_init
  c ← get_cache
  buffer ← read_sector (c.fat_start_sector + fat_sector cluster)
  write_mirrors c.fat_count 0 (fat_sector cluster) (put16 (fat_offset cluster) value buffer)

-- What a sector of the table offers.
pub data Scan : Type 0 where
  found : ℕ → Scan
  past_end : Scan
  exhausted : Scan

-- The inner loop of `fat16_alloc_cluster`, over the entries of sector `s` from `i` on.
pub scan_table : ℕ → ℕ → ℕ → ℕ → Bytes → Scan
scan_table zero s i total table = exhausted
scan_table (suc rounds) s i total table =
    let rest = scan_table rounds s (i + 1) total table in
    let cluster_idx = (s * 256 + i) % 2 ^ 16 in
    if ltb cluster_idx 2
    then rest
    else if leb (total + 2) cluster_idx
    then past_end
    else if get16 table (2 * i) == 0
    then found cluster_idx
    else rest

-- The outer loop, over the sectors of the table from `s` on. 0 stands for no cluster.
pub alloc_sectors : ℕ → ℕ → Action ℕ
alloc_sectors zero s = pure 0
alloc_sectors (suc rounds) s = do
  c ← get_cache
  b ← attempt (read_sector (c.fat_start_sector + s))
  elim b [
    | none ↦ pure 0
    | some table ↦ elim (scan_table 256 s 0 c.total_clusters table) [
      | exhausted ↦ alloc_sectors rounds (s + 1)
      | past_end ↦ pure 0
      | found cluster ↦ attempt (fat16_write_fat_entry cluster 0xFFFF) >> pure cluster
    ]
  ]

pub fat16_alloc_cluster : Action ℕ
fat16_alloc_cluster = do ensure_init; c ← get_cache; alloc_sectors c.sectors_per_fat 0

-- The loop of `fat16_free_chain`, while the safety counter lasts.
pub free_links : ℕ → ℕ → Action Unit
free_links zero curr = pure tt
free_links (suc safety_counter) curr =
    if leb 2 curr && ltb curr 0xFFF0
    then (do
      next ← fat16_read_fat_entry curr
      _ ← attempt (fat16_write_fat_entry curr 0)
      free_links safety_counter next)
    else pure tt

pub fat16_free_chain : ℕ → Action Unit
fat16_free_chain start_cluster = do
  c ← get_cache
  (if ltb start_cluster 2 || leb 0xFFF8 start_cluster
      then pure tt
      else free_links c.total_clusters start_cluster)
