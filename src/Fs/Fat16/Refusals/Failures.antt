-- ===== src/Fs/Fat16/Refusals/Failures.antt =====
-- The actions of fs/fat16.c that fail for a transfer only.
use benmosh_os.Prelude.{ℕ, zero, suc, ◌+◌, ltb, leb, ◌&&◌, ◌||◌}
use benmosh_os.Fs.Volume.{Bytes, read_sector, get16}
use benmosh_os.Fs.Fat16.{
  ensure_init, fat_sector, fat_offset, fat16_init, fat16_read_fat_entry, free_links,
  fat16_free_chain,
}
use benmosh_os.Fs.Fat16.Insert.{put_entry, write_records}
use benmosh_os.Fs.Fat16.Files.{bury}
use benmosh_os.Fs.Fat16.Refusals.{
  OnlyEio, bind_OnlyEio, if_OnlyEio, pure-OnlyEio, attempt-OnlyEio, get_cache-OnlyEio,
  put_cache-OnlyEio, reading_OnlyEio, writing_OnlyEio, option_OnlyEio,
}

pub fat16_init-OnlyEio : OnlyEio fat16_init
unfolding fat16_init
fat16_init-OnlyEio =
    bind_OnlyEio _ _ (attempt-OnlyEio _)
      (λ b. option_OnlyEio b _ _ (pure-OnlyEio tt) (λ buffer. put_cache-OnlyEio _))

pub ensure_init-OnlyEio : OnlyEio ensure_init
unfolding ensure_init
ensure_init-OnlyEio =
    bind_OnlyEio _ _ get_cache-OnlyEio
      (λ c. if_OnlyEio c.initialized _ _ (pure-OnlyEio tt) fat16_init-OnlyEio)

pub fat16_read_fat_entry-OnlyEio : (cluster : ℕ) → OnlyEio (fat16_read_fat_entry cluster)
unfolding fat16_read_fat_entry
fat16_read_fat_entry-OnlyEio cluster = bind_OnlyEio _ _ ensure_init-OnlyEio (λ _.
    bind_OnlyEio _ _ get_cache-OnlyEio (λ c.
      bind_OnlyEio _ _ (attempt-OnlyEio (read_sector (c.fat_start_sector + fat_sector cluster)))
        (λ b.
          option_OnlyEio b _ _ (pure-OnlyEio 0xFFFF)
            (λ buffer. pure-OnlyEio (get16 buffer (fat_offset cluster))))))

pub free_links-OnlyEio : (n curr : ℕ) → OnlyEio (free_links n curr)
unfolding free_links
free_links-OnlyEio zero curr = pure-OnlyEio tt
free_links-OnlyEio (suc n) curr =
    if_OnlyEio (leb 2 curr && ltb curr 0xFFF0) _ _
      (bind_OnlyEio _ _ (fat16_read_fat_entry-OnlyEio curr)
        (λ next. bind_OnlyEio _ _ (attempt-OnlyEio _) (λ _. free_links-OnlyEio n next)))
      (pure-OnlyEio tt)

pub fat16_free_chain-OnlyEio : (start : ℕ) → OnlyEio (fat16_free_chain start)
unfolding fat16_free_chain
fat16_free_chain-OnlyEio start = bind_OnlyEio _ _ get_cache-OnlyEio (λ c.
    if_OnlyEio (ltb start 2 || leb 0xFFF8 start) _ _ (pure-OnlyEio tt)
      (free_links-OnlyEio c.total_clusters start))

pub bury-OnlyEio : (sec idx : ℕ) → OnlyEio (bury sec idx)
unfolding bury
bury-OnlyEio sec idx = bind_OnlyEio _ _ (reading_OnlyEio sec) (λ buffer. writing_OnlyEio sec _)

pub write_records-OnlyEio :
    (entry : ℕ → Bytes) (n i sec slot : ℕ) (buffer : Bytes)
    → OnlyEio (write_records entry n i sec slot buffer)
unfolding write_records
write_records-OnlyEio entry zero i sec slot buffer = writing_OnlyEio sec buffer
write_records-OnlyEio entry (suc n) i sec slot buffer =
    if_OnlyEio (leb 16 (slot + 1)) _ _
      (bind_OnlyEio _ _ (writing_OnlyEio sec _) (λ _.
        bind_OnlyEio _ _ (reading_OnlyEio (sec + 1))
          (λ next. write_records-OnlyEio entry n (i + 1) (sec + 1) 0 next)))
      (write_records-OnlyEio entry n (i + 1) sec (slot + 1) (put_entry slot (entry i) buffer))
