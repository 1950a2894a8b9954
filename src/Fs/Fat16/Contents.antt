-- ===== src/Fs/Fat16/Contents.antt =====
-- The contents of a file as fs/fat16.c reads them, on a drive that does not fail: the sectors of a cluster.
pub mod Files
use benmosh_os.Prelude.{
  ℕ, zero, suc, ◌+◌, ◌-◌, ◌*◌, ◌/◌, ◌%◌, ◌^◌, ◌≤◌, ◌<◌, ◌≡◌, ◌≢◌, ◌⊎◌, inl, inr, refl, sym, ap, ◌∙◌,
  Bool, true, false, arith, ◌==◌, ltb, leb, Bool-cases, if◌then◌else◌, Option, none, some, ◌&&◌,
  List, [], ◌∷◌, length, min,
}
use benmosh_os.Fs.Volume.{
  Fs, Bytes, Outcome, done, Action, attempt, pure, and_then, ◌>>=◌, ◌>>◌, read_sector,
  count_transfer, Cache,
}
use benmosh_os.Fs.Volume.Transfers.{Works, read_sector-Works, count_transfer-Works}
use benmosh_os.Fs.Fat16.{fat16_read_fat_entry}
use benmosh_os.Fs.Fat16.Table.{
  entry_of, Same, Same-refl, Same-trans, Same-count_transfer, Same-cache, Same-sectors,
  Same-entry_of, fat16_read_fat_entry-Works,
}
use benmosh_os.Fs.Fat16.Directory.{cluster_lba, file_size, is_directory, starting_cluster}
use benmosh_os.Fs.Fat16.Files.Load.{
  Load, copy_bytes, chunk_of, load_chunk, load_sectors, load_clusters, read_file,
}

-- Byte `j` of the sectors from `sec` on.
abbrev pub disk_byte : Fs → ℕ → ℕ → ℕ
disk_byte s sec j = s.sectors ((sec + j / 512) % 2 ^ 28) (j % 512)

-- What is left when the sectors have been read.
pub record Filled (s : Fs) (n sec : ℕ) (l m : Load) : Type 0 where
  pub left : m.bytes_left ≡ l.bytes_left - n * 512
  pub offset : m.write_offset ≡ l.write_offset + min (n * 512) l.bytes_left
  pub bytes :
      (j : ℕ)
      → j < n * 512
      → j < l.bytes_left
      → m.ram_buffer (l.write_offset + j) ≡ disk_byte s sec j
  pub before : (p : ℕ) → p < l.write_offset → m.ram_buffer p ≡ l.ram_buffer p

chunk-fresh :
    (b : Bytes) (l : Load) (j : ℕ)
    → j < 512
    → j < l.bytes_left
    → (load_chunk b l).ram_buffer (l.write_offset + j) ≡ b j
unfolding load_chunk copy_bytes
chunk-fresh b l j h left =
    let back : 0 + (l.write_offset + j - l.write_offset) ≡ j = omega arith in
    let inside : leb l.write_offset (l.write_offset + j)
          && ltb (l.write_offset + j) (l.write_offset + chunk_of l.bytes_left)
        ≡ true =
      ground (arith, h, left) in
    rw (inside, back) refl

chunk-before :
    (b : Bytes) (l : Load) (p : ℕ)
    → p < l.write_offset
    → (load_chunk b l).ram_buffer p ≡ l.ram_buffer p
unfolding load_chunk copy_bytes
chunk-before b l p h =
    let outside : leb l.write_offset p && ltb p (l.write_offset + chunk_of l.bytes_left) ≡ false =
      ground (arith, h) in
    rw outside refl

chunk-left : (b : Bytes) (l : Load) → (load_chunk b l).bytes_left ≡ l.bytes_left - 512
unfolding load_chunk
chunk-left b l = ground arith

chunk-offset :
    (b : Bytes) (l : Load) → (load_chunk b l).write_offset ≡ l.write_offset + min 512 l.bytes_left
unfolding load_chunk
chunk-offset b l = ground arith

same_byte : (s : Fs) {a b c d : ℕ} → a ≡ b → c ≡ d → s.sectors a c ≡ s.sectors b d
same_byte s {a} {b} {c} {d} e f = rw (e, f) refl

Filled-suc :
    (s : Fs) (n sec : ℕ) (l m : Load)
    → Filled (count_transfer s) n (sec + 1) (load_chunk (s.sectors (sec % 2 ^ 28)) l) m
    → Filled s (suc n) sec l m
Filled-suc s n sec l m f =
    let b = s.sectors (sec % 2 ^ 28) in
    let cl = chunk-left b l in
    let co = chunk-offset b l in
    record {
      left = f.left ∙ omega (arith, cl);
      offset = f.offset ∙ omega (arith, cl, co);
      bytes = λ j h left. elim (Bool-cases (ltb j 512)) [
        | inl e ↦
            let place : (sec + j / 512) % 2 ^ 28 ≡ sec % 2 ^ 28 = ground (arith, e) in
            let byte : j % 512 ≡ j = ground (arith, e) in
            f.before (l.write_offset + j) (ground (arith, co, e, left))
            ∙ chunk-fresh b l j (ground (arith, e)) left
            ∙ sym (same_byte s place byte)
        | inr e ↦
            let i = j - 512 in
            let at : l.write_offset + j ≡ (load_chunk b l).write_offset + i =
              ground (arith, co, e, left) in
            let place : (sec + j / 512) % 2 ^ 28 ≡ (sec + 1 + i / 512) % 2 ^ 28 =
              ground (arith, e) in
            let byte : j % 512 ≡ i % 512 = ground (arith, e) in
            ap m.ram_buffer at
            ∙ f.bytes i (ground (arith, e, h)) (ground (arith, cl, e, left))
            ∙ sym (same_byte s place byte)
      ];
      before = λ p h. f.before p (omega (arith, co, h)) ∙ chunk-before b l p h;
    }

pub load_sectors-Filled :
    (n sec : ℕ) (l : Load) (s : Fs)
    → Works s
    → (m : Load) × (t : Fs) × (load_sectors n sec l s ≡ (done m, t))
      × Same s t
      × Works t
      × Filled s n sec l m
unfolding load_sectors
load_sectors-Filled zero sec l s w = (
  l,
  s,
  refl,
  Same-refl s,
  w,
  record {
    left = omega arith;
    offset = omega arith;
    bytes = λ j h _. absurd (omega (arith, h));
    before = λ p h. refl;
  },
)
load_sectors-Filled (suc n) sec l s w = elim (Bool-cases (ltb 0 l.bytes_left)) [
  | inr e ↦ (
    l,
    s,
    rw e refl,
    Same-refl s,
    w,
    record {
      left = ground (arith, e);
      offset = ground (arith, e);
      bytes = λ j h left. absurd (ground (arith, e, left));
      before = λ p h. refl;
    },
  )
  | inl e ↦
      let b = s.sectors (sec % 2 ^ 28) in
      let (m, t, f, same, wt, filled) =
        load_sectors-Filled n (sec + 1) (load_chunk b l) (count_transfer s)
          (count_transfer-Works s w) in
      (
        m,
        t,
        rw (e, read_sector-Works sec s w, f) refl,
        Same-trans s (count_transfer s) t (Same-count_transfer s) same,
        wt,
        Filled-suc s n sec l m filled,
      )
]
