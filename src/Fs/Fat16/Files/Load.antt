-- ===== src/Fs/Fat16/Files/Load.antt =====
-- fs/fat16.c, `fat16_load_file`: the bytes of a file, read along its chain of clusters into a new block.
use benmosh_os.Prelude.{
  ℕ, zero, suc, ◌+◌, ◌-◌, Option, none, some, ◌&&◌, List, leb, ltb, ◌==◌, if◌then◌else◌, update,
}
use benmosh_os.Fs.Volume.{
  eisdir, enomem, Bytes, Action, pure, throw, hang, attempt, ◌>>=◌, ◌>>◌, get_cache, read_sector,
}
use benmosh_os.Fs.Fat16.{ensure_init, fat16_read_fat_entry}
use benmosh_os.Fs.Fat16.Directory.{is_directory, starting_cluster, file_size, cluster_lba}
use benmosh_os.Fs.Fat16.Find.{fat16_find_in_dir}
use benmosh_os.Fs.Fat16.Path.{fat16_resolve_path}

-- The state of the two loops.
pub record Load : Type 0 where
  pub ram_buffer : Bytes
  pub bytes_left : ℕ
  pub write_offset : ℕ

-- `n` bytes of a buffer from `from` on, to another from `to` on.
unfoldable pub copy_bytes : ℕ → ℕ → ℕ → Bytes → Bytes → Bytes
copy_bytes n to from source target o =
    if leb to o && ltb o (to + n) then source (from + (o - to)) else target o

abbrev pub chunk_of : ℕ → ℕ
chunk_of bytes_left = if ltb bytes_left 512 then bytes_left else 512

unfoldable pub load_chunk : Bytes → Load → Load
load_chunk sector_buf l = record {
  ram_buffer = copy_bytes (chunk_of l.bytes_left) l.write_offset 0 sector_buf l.ram_buffer;
  bytes_left = l.bytes_left - chunk_of l.bytes_left;
  write_offset = l.write_offset + chunk_of l.bytes_left;
}

-- The loop over the sectors of a cluster.
unfoldable pub load_sectors : ℕ → ℕ → Load → Action Load
load_sectors zero sec l = pure l
load_sectors (suc rounds) sec l =
    if ltb 0 l.bytes_left
    then read_sector sec >>= (λ sector_buf. load_sectors rounds (sec + 1) (load_chunk sector_buf l))
    else pure l

-- The loop over the chain.
unfoldable pub load_clusters : ℕ → ℕ → Load → Action Load
load_clusters zero curr l = hang
load_clusters (suc rounds) curr l =
    if leb 2 curr && ltb curr 0xFFF8 && ltb 0 l.bytes_left
    then (do
      c ← get_cache
      lba ← cluster_lba curr
      next ← load_sectors c.sectors_per_cluster lba l
      link ← fat16_read_fat_entry curr
      load_clusters rounds link next)
    else pure l

-- A new block from the heap, with the bytes it happens to hold.
abbrev pub allocated : Option Bytes → Action Bytes
allocated none = throw enomem
allocated (some block) = pure block

-- `kmalloc` stands for the heap at the time of the call. An empty file has a block of one byte, a null,
-- and whether there is room for it is told by the null pointer alone, its size being written before.
unfoldable pub read_file : (ℕ → Option Bytes) → ℕ → Bytes → Action (Bytes × ℕ)
read_file kmalloc rounds entry =
    if is_directory entry
    then throw eisdir
    else if file_size entry == 0
    then allocated (kmalloc 1) >>= (λ block. pure (update block 0 0, 0))
    else (do
      block ← allocated (kmalloc (file_size entry))
      l ←
          load_clusters rounds (starting_cluster entry)
            record { ram_buffer = block; bytes_left = file_size entry; write_offset = 0 }
      pure (l.ram_buffer, file_size entry))

-- The buffer and the size. The null pointer, for whatever failed, is `none`.
unfoldable pub fat16_load_file : (ℕ → Option Bytes) → ℕ → List ℕ → Action (Option (Bytes × ℕ))
fat16_load_file kmalloc rounds path = attempt (do
  ensure_init
  target ← fat16_resolve_path rounds path
  hit ← fat16_find_in_dir rounds target.0 target.1
  read_file kmalloc rounds hit.out_entry)
