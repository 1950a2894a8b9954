-- ===== src/Fs/Fat16/Files/Write.antt =====
-- fs/fat16.c, `fat16_write_file`: a file is overwritten or appended to, and its chain of clusters grows.
use benmosh_os.Prelude.{
  ℕ, zero, suc, ◌+◌, ◌-◌, ◌*◌, ◌/◌, ◌%◌, ◌^◌, Bool, true, false, none, some, ◌&&◌, ◌||◌, not, List,
  leb, ltb, ◌==◌, if◌then◌else◌,
}
use benmosh_os.Fs.Volume.{
  eisdir, enospc, Bytes, Action, pure, throw, hang, attempt, ◌>>=◌, ◌>>◌, get_cache, read_sector,
  write_sector, put16, put32,
}
use benmosh_os.Fs.Fat16.{
  ensure_init, fat16_read_fat_entry, fat16_write_fat_entry, fat16_alloc_cluster,
}
use benmosh_os.Fs.Fat16.Directory.{is_directory, starting_cluster, file_size, cluster_lba}
use benmosh_os.Fs.Fat16.Find.{FindFile, fat16_find_in_dir}
use benmosh_os.Fs.Fat16.Path.{fat16_resolve_path}
use benmosh_os.Fs.Fat16.Insert.{put_entry, fat16_insert_entry}
use benmosh_os.Fs.Fat16.Files.{free_entry}
use benmosh_os.Fs.Fat16.Files.Load.{copy_bytes}

-- The variables of the write loop.
pub record Progress : Type 0 where
  pub first_cluster : ℕ
  pub curr_cluster : ℕ
  pub prev_cluster : ℕ
  pub bytes_written : ℕ

-- The walk to the last cluster of a chain: the current and the previous one.
pub last_cluster : ℕ → ℕ → ℕ → Action (ℕ × ℕ)
last_cluster zero curr prev = hang
last_cluster (suc rounds) curr prev =
    if leb 2 curr && ltb curr 0xFFF8
    then fat16_read_fat_entry curr
      >>= (λ next. if leb 0xFFF8 next then pure (curr, curr) else last_cluster rounds next curr)
    else pure (curr, prev)

-- Before the loop: an overwrite releases the old chain, an append finds its end.
pub start_progress : ℕ → Bool → Bytes → Action Progress
start_progress rounds false entry = do
  free_entry entry
  pure record { first_cluster = 0; curr_cluster = 0; prev_cluster = 0; bytes_written = 0 }
start_progress rounds true entry =
    if leb 2 (starting_cluster entry)
    then (do
      ends ← last_cluster rounds (starting_cluster entry) 0
      pure record {
        first_cluster = starting_cluster entry;
        curr_cluster = ends.0;
        prev_cluster = ends.1;
        bytes_written = 0;
      })
    else pure record {
      first_cluster = starting_cluster entry;
      curr_cluster = 0;
      prev_cluster = 0;
      bytes_written = 0;
    }

-- A new cluster, 0 if the disk is full, linked behind the previous one.
pub grow : Progress → ℕ → Action Progress
grow p zero = throw enospc
grow p (suc c) = do
  _ ←
      attempt
        (if leb 2 p.prev_cluster then fat16_write_fat_entry p.prev_cluster (suc c) else pure tt)
  pure record {
    first_cluster = if p.first_cluster == 0 then suc c else p.first_cluster;
    curr_cluster = suc c;
    prev_cluster = suc c;
    bytes_written = p.bytes_written;
  }

abbrev pub chunk_at : ℕ → ℕ → ℕ
chunk_at sec_offset left = if ltb left (512 - sec_offset) then left else 512 - sec_offset

-- A sector that is overwritten in part is read before.
abbrev pub old_sector : ℕ → ℕ → ℕ → Action Bytes
old_sector sec_offset left sec =
    if ltb 0 sec_offset || ltb left 512 then read_sector sec else pure (λ _. 0)

-- The loop over the sectors of a cluster. It returns the number of bytes written so far.
pub write_sectors : Bytes → ℕ → ℕ → ℕ → ℕ → ℕ → Action ℕ
write_sectors content len zero sec sec_offset bytes_written = pure bytes_written
write_sectors content len (suc rounds) sec sec_offset bytes_written =
    if ltb bytes_written len
    then (do
      sector_buf ← old_sector sec_offset (len - bytes_written) sec
      write_sector sec (
          copy_bytes (chunk_at sec_offset (len - bytes_written)) sec_offset bytes_written content
            sector_buf)
      write_sectors content len rounds (sec + 1) 0
          (bytes_written + chunk_at sec_offset (len - bytes_written)))
    else pure bytes_written

-- Where in a cluster the loop goes on.
pub in_cluster_offset : Bool → ℕ → ℕ → ℕ → ℕ
in_cluster_offset append size cluster_bytes bytes_written =
    if append && ltb 0 size && bytes_written == 0 then size % cluster_bytes else 0

-- The write loop.
pub write_loop : ℕ → Bool → ℕ → Bytes → ℕ → Progress → Action Progress
write_loop zero append size content len p = hang
write_loop (suc rounds) append size content len p =
    if ltb p.bytes_written len
    then (do
      c ← get_cache
      let offset = in_cluster_offset append size (c.sectors_per_cluster * 512) p.bytes_written
      q ← (if offset == 0 || ltb p.curr_cluster 2 then fat16_alloc_cluster >>= grow p else pure p)
      lba ← cluster_lba q.curr_cluster
      written ←
          write_sectors content len (c.sectors_per_cluster - offset / 512) (lba + offset / 512)
            (offset % 512) q.bytes_written
      write_loop rounds append size content len (record q { bytes_written = written }))
    else pure p

-- The entry goes back to its slot with a new first cluster and a new size.
pub update_dir : FindFile → ℕ → ℕ → Action Unit
update_dir hit cluster size = do
  dir_buf ← read_sector hit.out_sector
  write_sector hit.out_sector
      (put_entry hit.out_idx (put32 28 size (put16 26 cluster hit.out_entry)) dir_buf)

-- The entry of the file, which is created if there is none.
pub find_or_create : ℕ → ℕ → ℕ × List ℕ → Action FindFile
find_or_create tries rounds target = do
  hit ← attempt (fat16_find_in_dir rounds target.0 target.1)
  elim hit [
    | some h ↦ pure h
    | none ↦
        fat16_insert_entry tries rounds target.0 target.1 0x20 0 0
        >> fat16_find_in_dir rounds target.0 target.1
  ]

pub write_contents : ℕ → Bytes → ℕ → Bool → FindFile → Action Unit
write_contents rounds content len append hit =
    if not append && len == 0 then free_entry hit.out_entry >> update_dir hit 0 0 else (do
      p ← start_progress rounds append hit.out_entry
      q ← write_loop rounds append (file_size hit.out_entry) content len p
      update_dir hit q.first_cluster
          (if append then (file_size hit.out_entry + len) % 2 ^ 32 else len))

pub fat16_write_file : ℕ → ℕ → List ℕ → Bytes → ℕ → Bool → Action Unit
fat16_write_file tries rounds path content len append = do
  ensure_init
  target ← fat16_resolve_path rounds path
  hit ← find_or_create tries rounds target
  (if is_directory hit.out_entry
      then throw eisdir
      else write_contents rounds content len append hit)
