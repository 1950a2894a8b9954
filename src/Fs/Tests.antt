-- ===== src/Fs/Tests.antt =====
-- A small volume, and the file system on it.
use benmosh_os.Prelude.{
  ℕ, ◌+◌, ◌≤◌, ◌<◌, ◌≡◌, ◌≢◌, inr, refl, true, false, some, List, [], ◌∷◌, arith, update,
}
use benmosh_os.Fs.Volume.{Cache, Fs, Bytes, done, fail, running, enoent, eio, get16, get32}
use benmosh_os.Fs.Volume.Transfers.{Works}
use benmosh_os.Fs.Fat16.{
  fat_sector, fat16_read_fat_entry, fat16_write_fat_entry, fat16_alloc_cluster, fat16_free_chain,
}
use benmosh_os.Fs.Fat16.Table.{Same, entry_of, mirror}
use benmosh_os.Fs.Fat16.Table.Writing.{Sized, InTable, fat16_write_fat_entry-fat16_read_fat_entry}
use benmosh_os.Fs.Fat16.Alloc.{Allocates, fat16_alloc_cluster-Allocates}
use benmosh_os.Fs.Fat16.Chains.{
  Chain, Released, fat16_free_chain-Released, fat16_free_chain-fat16_alloc_cluster,
}
use benmosh_os.Fs.Fat16.Find.{find_file, find_file_callback}
use benmosh_os.Fs.Fat16.Insert.{record_at}
use benmosh_os.Fs.Fat16.LongNames.{Plain, char_at}
use benmosh_os.Fs.Fat16.LongNames.Search.{visit_records, Found, record_at-find_file_callback}
use benmosh_os.Fs.Fat16.Files.{fat16_create_file, fat16_delete_file, fat16_remove_directory}
use benmosh_os.Fs.Fat16.Directory.{file_size, Visitor, Walk, iterate_directory}
use benmosh_os.Fs.Fat16.Visiting.{EndsAfter, iterate_directory-done}
use benmosh_os.Fs.Fat16.Files.Load.{fat16_load_file, read_file}
use benmosh_os.Fs.Fat16.Ending.{read_file-ends}
use benmosh_os.Fs.Fat16.Files.Listing.{fat16_list_directory}
use benmosh_os.Fs.Fat16.ReadOnly.Reads.{reads-sectors}
use benmosh_os.Fs.Fat16.Refusals.Operations.{refusals-sectors}

-- Two tables of one sector, a root directory of one, and clusters of one.
abbrev geometry : Cache
geometry = record {
  fat_start_sector = 1;
  root_dir_sector = 3;
  data_start_sector = 4;
  root_dir_size_sectors = 1;
  sectors_per_fat = 1;
  fat_count = 2;
  sectors_per_cluster = 1;
  total_sectors = 40;
  total_clusters = 36;
  initialized = true;
}

-- Cluster 2 is followed by cluster 3, the last of its chain.
abbrev table : Bytes
table = update (update (update (λ _. 0) 4 3) 6 0xFF) 7 0xFF

abbrev volume : Fs
volume = record {
  sectors = update (update (λ _ _. 0) 1 table) 2 table;
  faults = λ _. false;
  transfers = 0;
  cache = geometry;
}

volume-Works : Works volume
unfolding Works
volume-Works = (λ n. refl, refl)

volume-Sized : Sized geometry
unfolding Sized
volume-Sized = (omega arith, omega arith)

fat16_write_fat_entry-fat16_read_fat_entry_example :
    let (r, t) = fat16_write_fat_entry 3 5 volume in
    (r ≡ done tt)
    × ((fat16_read_fat_entry 3 t).0 ≡ done 5)
    × ((other : ℕ)
        → InTable geometry other
        → other ≢ 3
        → (fat16_read_fat_entry other t).0 ≡ (fat16_read_fat_entry other volume).0)
    × ((m : ℕ)
        → m < 2
        → t.sectors (mirror geometry (fat_sector 3) m)
          ≡ t.sectors (mirror geometry (fat_sector 3) 0))
fat16_write_fat_entry-fat16_read_fat_entry_example =
    fat16_write_fat_entry-fat16_read_fat_entry 3 5 volume volume-Works volume-Sized (omega arith)
      (omega arith)

fat16_alloc_cluster-Allocates_example : Allocates volume (fat16_alloc_cluster volume)
fat16_alloc_cluster-Allocates_example =
    fat16_alloc_cluster-Allocates volume volume-Works volume-Sized (omega arith)

entries-volume : (entry_of volume 2 ≡ 3) × (entry_of volume 3 ≡ 0xFFFF)
unfolding entry_of get16
entries-volume = (refl, refl)

volume-Chain : Chain (entry_of volume) 2 (2 ∷ 3 ∷ [])
volume-Chain = (
  refl,
  omega arith,
  omega arith,
  ((λ e. omega (arith, e)), tt),
  (entries-volume.0, omega arith, omega arith, tt, inr (omega (arith, entries-volume.1))),
)

fat16_free_chain-Released_example : Released volume (2 ∷ 3 ∷ []) (fat16_free_chain 2 volume)
fat16_free_chain-Released_example =
    fat16_free_chain-Released 2 (2 ∷ 3 ∷ []) volume volume-Works volume-Sized
      (omega arith, (omega arith, tt)) volume-Chain (omega arith)

fat16_free_chain-fat16_alloc_cluster_example :
    (d : ℕ) × (2 ≤ d) × ((fat16_alloc_cluster (fat16_free_chain 2 volume).1).0 ≡ done d)
fat16_free_chain-fat16_alloc_cluster_example =
    fat16_free_chain-fat16_alloc_cluster 2 (3 ∷ []) volume volume-Works volume-Sized (omega arith)
      (omega arith, (omega arith, tt)) volume-Chain (omega arith) (omega arith)

-- A name of 14 characters, in two fragments.
abbrev long_name : List ℕ
long_name = 97 ∷ 98 ∷ 99 ∷ 100 ∷ 101 ∷ 102 ∷ 103 ∷ 104 ∷ 105 ∷ 46 ∷ 116 ∷ 101 ∷ 120 ∷ 116 ∷ []

long_name-Plain : Plain long_name
long_name-Plain = ground arith

-- The fragments stand in the first slots of sector 3, and an entry of 65s behind them.
record_at-find_file_callback_example :
    let (stop, ctx) =
      visit_records 2 (record_at long_name [] 0x20 0 0) (λ i. (3, i)) 0 (find_file long_name) in
    (stop ≡ false)
    × ((k : ℕ) → ctx.lfn_buffer k ≡ char_at long_name k)
    × Found 3 2 (λ _. 65) (find_file_callback 3 2 (λ _. 65) ctx)
record_at-find_file_callback_example =
    record_at-find_file_callback long_name [] 0x20 0 0 (λ i. (3, i)) 3 2 (λ _. 65) long_name-Plain
      (omega arith) (omega arith) (refl, refl, refl, refl)

reads-sectors_example :
    ((fat16_load_file (λ n. some (λ _. 0)) 10 (97 ∷ []) volume).1.sectors ≡ volume.sectors)
    × ((fat16_list_directory 10 (97 ∷ []) volume).1.sectors ≡ volume.sectors)
reads-sectors_example = reads-sectors (λ n. some (λ _. 0)) 10 (97 ∷ []) volume

enoent_eio : enoent ≢ eio
enoent_eio e = cc

refusals-sectors_example :
    (((fat16_create_file 10 10 (97 ∷ []) volume).0 ≡ fail enoent)
      → (fat16_create_file 10 10 (97 ∷ []) volume).1.sectors ≡ volume.sectors)
    × (((fat16_delete_file 10 (97 ∷ []) volume).0 ≡ fail enoent)
        → (fat16_delete_file 10 (97 ∷ []) volume).1.sectors ≡ volume.sectors)
    × (((fat16_remove_directory 10 (97 ∷ []) volume).0 ≡ fail enoent)
        → (fat16_remove_directory 10 (97 ∷ []) volume).1.sectors ≡ volume.sectors)
refusals-sectors_example = refusals-sectors 10 10 (97 ∷ []) volume enoent enoent_eio

-- The entry of a file of 700 bytes that starts in cluster 2.
abbrev file_entry : Bytes
file_entry = update (update (update (update (λ _. 0) 11 0x20) 26 2) 28 188) 29 2

file_entry-size : file_size file_entry ≡ 700
unfolding file_size get32 get16
file_entry-size = refl

read_file-ends_example : (read_file (λ n. some (λ _. 0)) 701 file_entry volume).0 ≢ running
read_file-ends_example =
    read_file-ends (λ n. some (λ _. 0)) 701 file_entry volume refl (omega arith)
      (omega (arith, file_entry-size))

-- A visitor that sees every slot, and counts.
abbrev count_slots : Visitor ℕ
count_slots sector slot_idx entry n = (false, n + 1)

volume-EndsAfter : EndsAfter (entry_of volume) 2 (2 ∷ 3 ∷ [])
volume-EndsAfter = (
  refl,
  omega arith,
  omega arith,
  (entries-volume.0, omega arith, omega arith, inr (omega (arith, entries-volume.1))),
)

iterate_directory-done_example :
    (w : Walk ℕ) × (t : Fs) × (iterate_directory 3 2 count_slots 0 volume ≡ (done w, t))
    × Same volume t
    × Works t
iterate_directory-done_example =
    iterate_directory-done count_slots 3 2 (2 ∷ 3 ∷ []) 0 volume volume-Works (inr volume-EndsAfter)
      (omega arith)
