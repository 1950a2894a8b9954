-- ===== src/Fs/Fat16/ReadOnly/Reads.antt =====
-- Loading a file and listing a directory only look at the disk.
use benmosh_os.Prelude.{ℕ, zero, suc, ◌+◌, ◌≡◌, Option, none, some, List, ltb, leb, ◌==◌, ◌&&◌}
use benmosh_os.Fs.Volume.{Fs, Bytes}
use benmosh_os.Fs.Fat16.Directory.{is_directory, file_size}
use benmosh_os.Fs.Fat16.Files.Load.{
  Load, load_chunk, load_sectors, load_clusters, allocated, read_file, fat16_load_file,
}
use benmosh_os.Fs.Fat16.Files.Listing.{
  list_target, list_dir_callback, fat16_list_directory, is_root,
}
use benmosh_os.Fs.Fat16.ReadOnly.{
  ReadOnly, bind_ReadOnly, pure-ReadOnly, throw-ReadOnly, hang-ReadOnly, attempt-ReadOnly,
  if_ReadOnly, get_cache-ReadOnly, read_sector-ReadOnly, ensure_init-ReadOnly,
  fat16_read_fat_entry-ReadOnly,
}
use benmosh_os.Fs.Fat16.ReadOnly.Visits.{
  cluster_lba-ReadOnly, iterate_directory-ReadOnly, fat16_find_in_dir-ReadOnly,
  fat16_resolve_path-ReadOnly,
}

pub load_sectors-ReadOnly : (n sec : ℕ) (l : Load) → ReadOnly (load_sectors n sec l)
unfolding load_sectors
load_sectors-ReadOnly zero sec l = pure-ReadOnly l
load_sectors-ReadOnly (suc n) sec l =
    if_ReadOnly (ltb 0 l.bytes_left) _ _
      (bind_ReadOnly _ _ (read_sector-ReadOnly sec)
        (λ b. load_sectors-ReadOnly n (sec + 1) (load_chunk b l)))
      (pure-ReadOnly l)

pub load_clusters-ReadOnly : (n curr : ℕ) (l : Load) → ReadOnly (load_clusters n curr l)
unfolding load_clusters
load_clusters-ReadOnly zero curr l = hang-ReadOnly _
load_clusters-ReadOnly (suc n) curr l =
    if_ReadOnly (leb 2 curr && ltb curr 0xFFF8 && ltb 0 l.bytes_left) _ _
      (bind_ReadOnly _ _ get_cache-ReadOnly (λ c.
        bind_ReadOnly _ _ (cluster_lba-ReadOnly curr) (λ lba.
          bind_ReadOnly _ _ (load_sectors-ReadOnly c.sectors_per_cluster lba l) (λ next.
            bind_ReadOnly _ _ (fat16_read_fat_entry-ReadOnly curr)
              (λ link. load_clusters-ReadOnly n link next)))))
      (pure-ReadOnly l)

pub allocated-ReadOnly : (b : Option Bytes) → ReadOnly (allocated b)
allocated-ReadOnly none = throw-ReadOnly _ _
allocated-ReadOnly (some block) = pure-ReadOnly block

pub read_file-ReadOnly :
    (kmalloc : ℕ → Option Bytes) (rounds : ℕ) (entry : Bytes)
    → ReadOnly (read_file kmalloc rounds entry)
unfolding read_file
read_file-ReadOnly kmalloc rounds entry =
    if_ReadOnly (is_directory entry) _ _ (throw-ReadOnly _ _) (
      if_ReadOnly (file_size entry == 0) _ _
        (bind_ReadOnly _ _ (allocated-ReadOnly (kmalloc 1)) (λ block. pure-ReadOnly _))
        (bind_ReadOnly _ _ (allocated-ReadOnly (kmalloc (file_size entry)))
          (λ block. bind_ReadOnly _ _ (load_clusters-ReadOnly rounds _ _) (λ l. pure-ReadOnly _))))

pub fat16_load_file-ReadOnly :
    (kmalloc : ℕ → Option Bytes) (rounds : ℕ) (path : List ℕ)
    → ReadOnly (fat16_load_file kmalloc rounds path)
unfolding fat16_load_file
fat16_load_file-ReadOnly kmalloc rounds path = attempt-ReadOnly _ (
    bind_ReadOnly _ _ ensure_init-ReadOnly (λ _.
      bind_ReadOnly _ _ (fat16_resolve_path-ReadOnly rounds path) (λ target.
        bind_ReadOnly _ _ (fat16_find_in_dir-ReadOnly rounds target.0 target.1)
          (λ hit. read_file-ReadOnly kmalloc rounds hit.out_entry))))

pub list_target-ReadOnly : (rounds : ℕ) (path : List ℕ) → ReadOnly (list_target rounds path)
unfolding list_target
list_target-ReadOnly rounds path = if_ReadOnly (is_root path) _ _ (pure-ReadOnly 0) (
    bind_ReadOnly _ _ (fat16_resolve_path-ReadOnly rounds path) (λ target.
      bind_ReadOnly _ _ (fat16_find_in_dir-ReadOnly rounds target.0 target.1) (λ hit.
        if_ReadOnly (is_directory hit.out_entry) _ _ (pure-ReadOnly _) (throw-ReadOnly _ _))))

pub fat16_list_directory-ReadOnly :
    (rounds : ℕ) (path : List ℕ) → ReadOnly (fat16_list_directory rounds path)
unfolding fat16_list_directory
fat16_list_directory-ReadOnly rounds path = bind_ReadOnly _ _ ensure_init-ReadOnly (λ _.
    bind_ReadOnly _ _ (list_target-ReadOnly rounds path) (λ dir.
      bind_ReadOnly _ _ (iterate_directory-ReadOnly list_dir_callback rounds dir _)
        (λ w. pure-ReadOnly _)))

-- Loading a file and listing a directory leave every sector of the disk as it was, whatever the path, the
-- faults of the drive, the contents of the disk and the outcome.
pub reads-sectors :
    (kmalloc : ℕ → Option Bytes) (rounds : ℕ) (path : List ℕ) (s : Fs)
    → ((fat16_load_file kmalloc rounds path s).1.sectors ≡ s.sectors)
      × ((fat16_list_directory rounds path s).1.sectors ≡ s.sectors)
unfolding ReadOnly
reads-sectors kmalloc rounds path s =
    (fat16_load_file-ReadOnly kmalloc rounds path s, fat16_list_directory-ReadOnly rounds path s)
