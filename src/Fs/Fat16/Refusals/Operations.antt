-- ===== src/Fs/Fat16/Refusals/Operations.antt =====
-- Creating and deleting a file and removing a directory: what a refusal leaves on the disk.
use benmosh_os.Prelude.{ℕ, zero, suc, ◌≡◌, ◌≢◌, true, false, List, ltb, leb}
use benmosh_os.Fs.Volume.{Fs, Bytes, Errno, eio, fail}
use benmosh_os.Fs.Fat16.Directory.{left_with, is_directory, starting_cluster}
use benmosh_os.Fs.Fat16.Insert.{slot_search_callback, free_tail, fat16_insert_entry}
use benmosh_os.Fs.Fat16.Files.{
  exists_in_dir, fat16_create_file, free_entry, fat16_delete_file, empty_check_callback,
  fat16_remove_directory,
}
use benmosh_os.Fs.Fat16.ReadOnly.{
  ReadOnly, bind_ReadOnly, option_ReadOnly, pure-ReadOnly, throw-ReadOnly, hang-ReadOnly,
  attempt-ReadOnly, ensure_init-ReadOnly,
}
use benmosh_os.Fs.Fat16.ReadOnly.Visits.{
  iterate_directory-ReadOnly, fat16_find_in_dir-ReadOnly, fat16_resolve_path-ReadOnly,
}
use benmosh_os.Fs.Fat16.Refusals.{
  OnlyEio, Refuses, bind_OnlyEio, bind_Refuses, only_Refuses, read_Refuses, if_Refuses, if_OnlyEio,
  pure-OnlyEio, reading_OnlyEio,
}
use benmosh_os.Fs.Fat16.Refusals.Failures.{
  fat16_free_chain-OnlyEio, bury-OnlyEio, write_records-OnlyEio,
}

pub free_tail-ReadOnly :
    (tries rounds dir : ℕ) (name : List ℕ) (tail : ℕ)
    → ReadOnly (free_tail tries rounds dir name tail)
unfolding free_tail
free_tail-ReadOnly zero rounds dir name tail = hang-ReadOnly _
free_tail-ReadOnly (suc tries) rounds dir name tail =
    bind_ReadOnly _ _ (attempt-ReadOnly _ (fat16_find_in_dir-ReadOnly rounds dir _)) (λ hit.
      option_ReadOnly hit _ _ (pure-ReadOnly tail)
        (λ _. free_tail-ReadOnly tries rounds dir name (suc tail)))

pub fat16_insert_entry-Refuses :
    (tries rounds dir : ℕ) (name : List ℕ) (attributes cluster size : ℕ)
    → Refuses (fat16_insert_entry tries rounds dir name attributes cluster size)
unfolding fat16_insert_entry
fat16_insert_entry-Refuses tries rounds dir name attributes cluster size =
    bind_Refuses _ _ (free_tail-ReadOnly tries rounds dir name 1) (λ tail.
      bind_Refuses _ _ (iterate_directory-ReadOnly slot_search_callback rounds dir _) (λ w.
        if_Refuses (left_with w).complete _ _
          (only_Refuses _
            (bind_OnlyEio _ _ (reading_OnlyEio _) (λ b. write_records-OnlyEio _ _ _ _ _ _)))
          (read_Refuses _ (throw-ReadOnly _ _))))

pub exists_in_dir-ReadOnly :
    (rounds dir : ℕ) (name : List ℕ) → ReadOnly (exists_in_dir rounds dir name)
unfolding exists_in_dir
exists_in_dir-ReadOnly rounds dir name =
    bind_ReadOnly _ _ (attempt-ReadOnly _ (fat16_find_in_dir-ReadOnly rounds dir name))
      (λ hit. option_ReadOnly hit _ _ (pure-ReadOnly false) (λ _. pure-ReadOnly true))

pub fat16_create_file-Refuses :
    (tries rounds : ℕ) (path : List ℕ) → Refuses (fat16_create_file tries rounds path)
unfolding fat16_create_file
fat16_create_file-Refuses tries rounds path = bind_Refuses _ _ ensure_init-ReadOnly (λ _.
    bind_Refuses _ _ (fat16_resolve_path-ReadOnly rounds path) (λ target.
      bind_Refuses _ _ (exists_in_dir-ReadOnly rounds target.0 target.1) (λ taken.
        if_Refuses taken _ _ (read_Refuses _ (throw-ReadOnly _ _))
          (fat16_insert_entry-Refuses tries rounds _ _ _ _ _))))

pub free_entry-OnlyEio : (entry : Bytes) → OnlyEio (free_entry entry)
free_entry-OnlyEio entry =
    if_OnlyEio (leb 2 (starting_cluster entry)) _ _ (fat16_free_chain-OnlyEio _) (pure-OnlyEio tt)

pub fat16_delete_file-Refuses :
    (rounds : ℕ) (path : List ℕ) → Refuses (fat16_delete_file rounds path)
unfolding fat16_delete_file
fat16_delete_file-Refuses rounds path = bind_Refuses _ _ ensure_init-ReadOnly (λ _.
    bind_Refuses _ _ (fat16_resolve_path-ReadOnly rounds path) (λ target.
      bind_Refuses _ _ (fat16_find_in_dir-ReadOnly rounds target.0 target.1) (λ hit.
        if_Refuses (is_directory hit.out_entry) _ _ (read_Refuses _ (throw-ReadOnly _ _)) (
          only_Refuses _
            (bind_OnlyEio _ _ (free_entry-OnlyEio hit.out_entry) (λ _. bury-OnlyEio _ _))))))

pub fat16_remove_directory-Refuses :
    (rounds : ℕ) (path : List ℕ) → Refuses (fat16_remove_directory rounds path)
unfolding fat16_remove_directory
fat16_remove_directory-Refuses rounds path = bind_Refuses _ _ ensure_init-ReadOnly (λ _.
    bind_Refuses _ _ (fat16_resolve_path-ReadOnly rounds path) (λ target.
      bind_Refuses _ _ (fat16_find_in_dir-ReadOnly rounds target.0 target.1) (λ hit.
        if_Refuses (is_directory hit.out_entry) _ _
          (bind_Refuses _ _ (iterate_directory-ReadOnly empty_check_callback rounds _ _) (λ w.
            if_Refuses (ltb 0 (left_with w)) _ _ (read_Refuses _ (throw-ReadOnly _ _)) (
              only_Refuses _
                (bind_OnlyEio _ _ (fat16_free_chain-OnlyEio _) (λ _. bury-OnlyEio _ _)))))
          (read_Refuses _ (throw-ReadOnly _ _)))))

-- A file that is created or deleted, or a directory that is removed, with an error other than `eio`, leaves
-- every sector of the disk as it was.
pub refusals-sectors :
    (tries rounds : ℕ) (path : List ℕ) (s : Fs) (e : Errno)
    → e ≢ eio
    → (((fat16_create_file tries rounds path s).0 ≡ fail e)
        → (fat16_create_file tries rounds path s).1.sectors ≡ s.sectors)
      × (((fat16_delete_file rounds path s).0 ≡ fail e)
          → (fat16_delete_file rounds path s).1.sectors ≡ s.sectors)
      × (((fat16_remove_directory rounds path s).0 ≡ fail e)
          → (fat16_remove_directory rounds path s).1.sectors ≡ s.sectors)
unfolding Refuses
refusals-sectors tries rounds path s e ne = (
  λ h. fat16_create_file-Refuses tries rounds path s e h ne,
  λ h. fat16_delete_file-Refuses rounds path s e h ne,
  λ h. fat16_remove_directory-Refuses rounds path s e h ne,
)
