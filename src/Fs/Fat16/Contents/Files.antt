-- ===== src/Fs/Fat16/Contents/Files.antt =====
-- The contents of a file as fs/fat16.c reads them, along its chain of clusters.
use benmosh_os.Prelude.{ℕ, ◌+◌, ◌-◌, ◌*◌, ◌≤◌, ◌<◌, ◌≡◌, ltb, if◌then◌else◌, List, [], ◌∷◌}
use benmosh_os.Fs.Volume.{Fs, Cache}
use benmosh_os.Fs.Fat16.Files.Load.{Load}
use benmosh_os.Fs.Fat16.Contents.{disk_byte}

-- The clusters of the list follow each other along the entries `e`, from `c` on.
abbrev pub Links : (ℕ → ℕ) → ℕ → List ℕ → Type 0
Links e c [] = Unit
Links e c (d ∷ cs) = (c ≡ d) × (2 ≤ d) × (d < 0xFFF8) × Links e (e d) cs

abbrev pub cluster_bytes : Cache → ℕ
cluster_bytes g = g.sectors_per_cluster * 512

abbrev pub first_sector : Cache → ℕ → ℕ
first_sector g c = g.data_start_sector + (c - 2) * g.sectors_per_cluster

-- Byte `j` of the clusters of the list, one behind the other.
pub file_byte : Fs → List ℕ → ℕ → ℕ
file_byte s [] j = 0
file_byte s (c ∷ cs) j =
    let rest = file_byte s cs (j - cluster_bytes s.cache) in
    if ltb j (cluster_bytes s.cache) then disk_byte s (first_sector s.cache c) j else rest

-- What comes of the chain: the bytes of the file, in the buffer from the offset on.
pub record Read (s : Fs) (cs : List ℕ) (l m : Load) : Type 0 where
  pub contents : (j : ℕ) → j < l.bytes_left → m.ram_buffer (l.write_offset + j) ≡ file_byte s cs j
  pub earlier : (p : ℕ) → p < l.write_offset → m.ram_buffer p ≡ l.ram_buffer p
