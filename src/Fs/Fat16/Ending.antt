-- ===== src/Fs/Fat16/Ending.antt =====
-- Reading a file in fs/fat16.c ends, whatever the chain of its clusters is and whatever transfers fail.
use benmosh_os.Prelude.{
  ℕ, zero, suc, ◌+◌, ◌-◌, ◌*◌, ◌%◌, ◌^◌, ◌≤◌, ◌<◌, ◌≡◌, ◌≢◌, ◌⊎◌, inl, inr, refl, ap, ◌∙◌, true,
  arith, ◌==◌, ltb, leb, Bool-cases, Option, Option-cases, update, ◌&&◌,
}
use benmosh_os.Fs.Volume.{
  Fs, Bytes, Outcome, done, fail, running, Errno, eio, eisdir, enomem, pure, and_then,
  count_transfer, get16,
}
use benmosh_os.Fs.Volume.Transfers.{read_sector-cases}
use benmosh_os.Fs.Fat16.{fat_sector, fat_offset, fat16_read_fat_entry}
use benmosh_os.Fs.Fat16.Table.{ensure_init-known}
use benmosh_os.Fs.Fat16.Directory.{starting_cluster, cluster_lba, file_size, is_directory}
use benmosh_os.Fs.Fat16.Files.Load.{Load, load_chunk, load_sectors, load_clusters, read_file}

-- A read of an entry returns something, and leaves a known geometry alone.
fat16_read_fat_entry-done :
    (cluster : ℕ) (s : Fs)
    → s.cache.initialized ≡ true
    → (v : ℕ) × (t : Fs) × (fat16_read_fat_entry cluster s ≡ (done v, t)) × (t.cache ≡ s.cache)
unfolding fat16_read_fat_entry
fat16_read_fat_entry-done cluster s known =
    elim (read_sector-cases (s.cache.fat_start_sector + fat_sector cluster) s) [
      | inl e ↦ (0xFFFF, count_transfer s, rw (ensure_init-known s known, e) refl, refl)
      | inr e ↦
          let v =
            get16 (s.sectors ((s.cache.fat_start_sector + fat_sector cluster) % 2 ^ 28))
              (fat_offset cluster) in
          (v, count_transfer s, rw (ensure_init-known s known, e) refl, refl)
    ]

-- What comes of the sectors of a cluster: an error, or a byte or more from each until none is left.
abbrev pub Loaded : ℕ → Load → Fs → Outcome Load × Fs → Type 0
Loaded n l s r =
    ((t : Fs) × (r ≡ (fail eio, t)))
    ⊎ ((m : Load) × (t : Fs) × (r ≡ (done m, t))
        × (t.cache ≡ s.cache)
        × ((m.bytes_left + n ≤ l.bytes_left) ⊎ (m.bytes_left ≡ 0)))

load_chunk-left :
    (b : Bytes) (l : Load) → 0 < l.bytes_left → (load_chunk b l).bytes_left < l.bytes_left
unfolding load_chunk
load_chunk-left b l h = ground (arith, h)

load_sectors-Loaded : (n sec : ℕ) (l : Load) (s : Fs) → Loaded n l s (load_sectors n sec l s)
unfolding load_sectors
load_sectors-Loaded zero sec l s = inr (l, s, refl, refl, inl (omega arith))
load_sectors-Loaded (suc n) sec l s = elim (Bool-cases (ltb 0 l.bytes_left)) [
  | inr none_left ↦ rw none_left (inr (l, s, refl, refl, inr (ground (arith, none_left))))
  | inl left ↦ elim (read_sector-cases sec s) [
    | inl e ↦ rw (left, e) (inl (count_transfer s, refl))
    | inr e ↦
        let b = s.sectors (sec % 2 ^ 28) in
        rw (left, e)
          (more n l s b (ground (arith, left)) _
            (load_sectors-Loaded n (sec + 1) (load_chunk b l) (count_transfer s)))
  ]
]
  where
    more :
        (n : ℕ) (l : Load) (s : Fs) (b : Bytes)
        → 0 < l.bytes_left
        → (r : Outcome Load × Fs) → Loaded n (load_chunk b l) (count_transfer s) r
        → Loaded (suc n) l s r
    more n l s b left r (inl x) = inl x
    more n l s b left r (inr (m, t, e, same, inl fewer)) =
        let less = load_chunk-left b l left in inr (m, t, e, same, inl (omega (arith, fewer, less)))
    more n l s b left r (inr (m, t, e, same, inr all)) = inr (m, t, e, same, inr all)

fail_running : {A : Type 0} (e : Errno) → ◌≢◌ {A = Outcome A} (fail e) running
fail_running e eq = cc

done_running : {A : Type 0} (a : A) → done a ≢ running
done_running a eq = cc

load_clusters-ends :
    (rounds curr : ℕ) (l : Load) (s : Fs)
    → s.cache.initialized ≡ true
    → 1 ≤ s.cache.sectors_per_cluster
    → l.bytes_left < rounds
    → (load_clusters rounds curr l s).0 ≢ running
unfolding load_clusters cluster_lba
load_clusters-ends zero curr l s known sized few = absurd (omega (arith, few))
load_clusters-ends (suc rounds) curr l s known sized few =
    elim (Bool-cases (leb 2 curr && ltb curr 0xFFF8 && ltb 0 l.bytes_left)) [
      | inr stop ↦ rw stop (done_running l)
      | inl goes ↦
          elim (load_sectors-Loaded s.cache.sectors_per_cluster
            (s.cache.data_start_sector + (curr - 2) * s.cache.sectors_per_cluster) l s) [
              | inl (t, e) ↦ rw (goes, e) (fail_running eio)
              | inr (m, t, e, same, fewer) ↦
                  let (v, u, f, same_u) =
                    fat16_read_fat_entry-done curr t (ap (λ c. c.initialized) same ∙ known) in
                  let known_u : u.cache.initialized ≡ true =
                    ap (λ c. c.initialized) (same_u ∙ same) ∙ known in
                  let sized_u : 1 ≤ u.cache.sectors_per_cluster = rw (same_u, same) sized in
                  rw (goes, e, f)
                    (load_clusters-ends rounds v m u known_u sized_u
                      (drop m fewer (ground (arith, goes))))
            ]
    ]
  where
    drop :
        (m : Load)
        → (m.bytes_left + s.cache.sectors_per_cluster ≤ l.bytes_left) ⊎ (m.bytes_left ≡ 0)
        → 0 < l.bytes_left
        → m.bytes_left < rounds
    drop m (inl fewer) left = omega (arith, fewer, sized, few)
    drop m (inr all) left = omega (arith, all, left, few)

then_running :
    (r : Outcome Load × Fs) (n : ℕ)
    → r.0 ≢ running
    → (and_then {B = Bytes × ℕ} r.0 (λ l. pure (l.ram_buffer, n)) r.1).0 ≢ running
then_running (done l, t) n h = done_running (l.ram_buffer, n)
then_running (fail e, t) n h = fail_running e
then_running (running, t) n h = absurd (h refl)

-- On a volume of known geometry with at least one sector in a cluster, the read of a file needs no more rounds than
-- the file has bytes, and one: it ends, with the file or an error, also when the chain of its clusters is
-- a cycle, and whatever transfers fail.
pub read_file-ends :
    (kmalloc : ℕ → Option Bytes) (rounds : ℕ) (entry : Bytes) (s : Fs)
    → s.cache.initialized ≡ true
    → 1 ≤ s.cache.sectors_per_cluster
    → file_size entry < rounds
    → (read_file kmalloc rounds entry s).0 ≢ running
unfolding read_file
read_file-ends kmalloc rounds entry s known sized few = elim (Bool-cases (is_directory entry)) [
  | inl e ↦ rw e (fail_running eisdir)
  | inr e ↦ elim (Bool-cases (file_size entry == 0)) [
    | inl f ↦
        rw (e, f)
          (elim (Option-cases (kmalloc 1)) [
            | inl g ↦ rw g (fail_running enomem)
            | inr (block, g) ↦ rw g (done_running (update block 0 0, 0))
          ])
    | inr f ↦
        rw (e, f)
          (elim (Option-cases (kmalloc (file_size entry))) [
            | inl g ↦ rw g (fail_running enomem)
            | inr (block, g) ↦
                let start : Load = record {
                  ram_buffer = block;
                  bytes_left = file_size entry;
                  write_offset = 0;
                } in
                rw g (
                  then_running _ _
                    (load_clusters-ends rounds (starting_cluster entry) start s known sized few))
          ])
  ]
]
