-- ===== src/Fs/Fat16/Files.antt =====
-- fs/fat16.c, layer 6: files are read, created, deleted; directories are made and removed.
pub mod Load
pub mod Write
pub mod Listing
use benmosh_os.Prelude.{
  ℕ, zero, suc, ◌+◌, ◌-◌, ◌*◌, ◌/◌, ◌%◌, Bool, true, false, Option, none, some, ◌&&◌, ◌||◌, not,
  List, [], ◌∷◌, leb, ltb, ◌==◌, if◌then◌else◌, update,
}
use benmosh_os.Fs.Volume.{
  eexist, eisdir, enotdir, enotempty, enospc, Bytes, Action, pure, throw, attempt, and_then, ◌>>=◌,
  ◌>>◌, read_sector, write_sector, get_cache, put16,
}
use benmosh_os.Fs.Fat16.{ensure_init, fat16_alloc_cluster, fat16_free_chain}
use benmosh_os.Fs.Fat16.Directory.{
  Walk, left_with, Visitor, iterate_directory, is_directory, starting_cluster, cluster_lba,
}
use benmosh_os.Fs.Fat16.Find.{FindFile, fat16_find_in_dir}
use benmosh_os.Fs.Fat16.Path.{fat16_resolve_path}
use benmosh_os.Fs.Fat16.Insert.{put_list, fat16_insert_entry}

-- Whether a name is taken.
unfoldable pub exists_in_dir : ℕ → ℕ → List ℕ → Action Bool
exists_in_dir rounds dir_cluster name = do
  hit ← attempt (fat16_find_in_dir rounds dir_cluster name)
  elim hit [ none ↦ pure false | some _ ↦ pure true ]

unfoldable pub fat16_create_file : ℕ → ℕ → List ℕ → Action Unit
fat16_create_file tries rounds path = do
  ensure_init
  target ← fat16_resolve_path rounds path
  taken ← exists_in_dir rounds target.0 target.1
  (if taken then throw eexist else fat16_insert_entry tries rounds target.0 target.1 0x20 0 0)

-- The chain is released from cluster 2 on.
abbrev pub free_entry : Bytes → Action Unit
free_entry entry =
    if leb 2 (starting_cluster entry) then fat16_free_chain (starting_cluster entry) else pure tt

-- The mark 0xE5 on the slot of an entry.
unfoldable pub bury : ℕ → ℕ → Action Unit
bury target_sec target_idx = do
  buffer ← read_sector target_sec
  write_sector target_sec (update buffer (target_idx * 32) 0xE5)

unfoldable pub fat16_delete_file : ℕ → List ℕ → Action Unit
fat16_delete_file rounds path = do
  ensure_init
  target ← fat16_resolve_path rounds path
  hit ← fat16_find_in_dir rounds target.0 target.1
  (if is_directory hit.out_entry
      then throw eisdir
      else free_entry hit.out_entry >> bury hit.out_sector hit.out_idx)

-- The first sector of a new directory: the entries of itself and of its parent.
pub dot_entries : ℕ → ℕ → Bytes
dot_entries self parent =
    let blanks = 32 ∷ 32 ∷ 32 ∷ 32 ∷ 32 ∷ 32 ∷ 32 ∷ 32 ∷ 32 ∷ [] in
    put16 58 parent (
      put_list 32 (46 ∷ 46 ∷ blanks)
        (update (put16 26 self (put_list 0 (46 ∷ 32 ∷ blanks) (update (λ _. 0) 11 0x10))) 43 0x10))

-- The other sectors of the cluster are all zero.
pub clear_sectors : ℕ → ℕ → Action Unit
clear_sectors zero sec = pure tt
clear_sectors (suc rounds) sec = do write_sector sec (λ _. 0); clear_sectors rounds (sec + 1)

pub install_dots : ℕ → ℕ → Bytes → Action Unit
install_dots zero sec dir_buf = pure tt
install_dots (suc rounds) sec dir_buf = do write_sector sec dir_buf; clear_sectors rounds (sec + 1)

-- With the new cluster, 0 if the disk is full.
pub link_directory : ℕ → ℕ → ℕ → List ℕ → ℕ → Action Unit
link_directory tries rounds parent dirname zero = throw enospc
link_directory tries rounds parent dirname (suc c) = do
  cache ← get_cache
  lba ← cluster_lba (suc c)
  install_dots cache.sectors_per_cluster lba (dot_entries (suc c) parent)
  fat16_insert_entry tries rounds parent dirname 0x10 (suc c) 0

pub fat16_make_directory : ℕ → ℕ → List ℕ → Action Unit
fat16_make_directory tries rounds path = do
  ensure_init
  target ← fat16_resolve_path rounds path
  taken ← exists_in_dir rounds target.0 target.1
  (if taken
      then throw eexist
      else fat16_alloc_cluster >>= link_directory tries rounds target.0 target.1)

-- An entry of the directory itself or of its parent.
abbrev pub is_dot_entry : Bytes → Bool
is_dot_entry e = e 0 == 46 && (e 1 == 32 || (e 1 == 46 && e 2 == 32))

-- The count goes no higher than 1: the visit halts there.
pub empty_check_callback : Visitor ℕ
empty_check_callback sector slot_idx entry count =
    if entry 0 == 0
    then (true, count)
    else if entry 0 == 0xE5
    then (false, count)
    else if entry 11 == 0x08 || entry 11 == 0x0F
    then (false, count)
    else if is_dot_entry entry
    then (false, count)
    else (true, suc count)

unfoldable pub fat16_remove_directory : ℕ → List ℕ → Action Unit
fat16_remove_directory rounds path = do
  ensure_init
  target ← fat16_resolve_path rounds path
  hit ← fat16_find_in_dir rounds target.0 target.1
  (if is_directory hit.out_entry
      then (do
        w ← iterate_directory rounds (starting_cluster hit.out_entry) empty_check_callback 0
        (if ltb 0 (left_with w)
            then throw enotempty
            else fat16_free_chain (starting_cluster hit.out_entry)
              >> bury hit.out_sector hit.out_idx))
      else throw enotdir)
