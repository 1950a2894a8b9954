-- ===== src/Fs/Fat16/ReadOnly.antt =====
-- The operations of fs/fat16.c that only look at the disk.
pub mod Visits
pub mod Reads
use benmosh_os.Prelude.{
  ℕ, zero, suc, ◌+◌, ◌*◌, ◌/◌, ◌%◌, ◌^◌, ◌≡◌, refl, sym, ap, ◌∙◌, Bool, true, false, Option, none,
  some, if◌then◌else◌, List, [], ◌∷◌, ltb, leb, ◌==◌, ◌&&◌,
}
use benmosh_os.Fs.Volume.{
  Fs, Bytes, Errno, Outcome, done, fail, running, Action, pure, throw, hang, attempt, and_then,
  ◌>>=◌, ◌>>◌, get_cache, put_cache, read_sector, count_transfer, eio, Cache,
}
use benmosh_os.Fs.Volume.Transfers.{read_sector-sectors}
use benmosh_os.Fs.Fat16.{fat16_init, ensure_init, fat16_read_fat_entry}
use benmosh_os.Fs.Fat16.Directory.{
  Walk, going, halted, broken, Visitor, visit_slots, visit_sectors, visit_chain, iterate_directory,
  cluster_lba, is_directory, starting_cluster, file_size, left_with,
}
use benmosh_os.Fs.Fat16.Find.{FindFile, find_file_callback, find_file, is_found, fat16_find_in_dir}
use benmosh_os.Fs.Fat16.Path.{
  component, skip_slashes, skip_leading, is_dot, enter, finish, resolve_loop, fat16_resolve_path,
}
use benmosh_os.Fs.Fat16.Files.Load.{
  Load, load_chunk, load_sectors, load_clusters, allocated, read_file, fat16_load_file,
}
use benmosh_os.Fs.Fat16.Files.Listing.{
  ListDir, list_target, list_dir_callback, fat16_list_directory, is_root,
}

-- Whatever an action returns, it leaves the sectors as they were.
pub ReadOnly : {A : Type 0} → Action A → Type 0
ReadOnly m = (s : Fs) → (m s).1.sectors ≡ s.sectors

module _ {A B : Type 0} where
  then_ReadOnly :
      (o : Outcome A) (f : A → Action B) → ((a : A) → ReadOnly (f a)) → ReadOnly (and_then o f)
  unfolding ReadOnly
  then_ReadOnly (done a) f h = h a
  then_ReadOnly (fail e) f h = λ s. refl
  then_ReadOnly running f h = λ s. refl

  pub bind_ReadOnly :
      (m : Action A) (f : A → Action B)
      → ReadOnly m
      → ((a : A) → ReadOnly (f a))
      → ReadOnly (m >>= f)
  unfolding ReadOnly
  bind_ReadOnly m f hm hf = λ s. then_ReadOnly (m s).0 f hf (m s).1 ∙ hm s

  pub option_ReadOnly :
      (b : Option A) (m : Action B) (f : A → Action B)
      → ReadOnly m
      → ((a : A) → ReadOnly (f a))
      → ReadOnly (elim b as (λ _. Action B) [ none ↦ m | some a ↦ f a ])
  option_ReadOnly none m f hm hf = hm
  option_ReadOnly (some a) m f hm hf = hf a

module _ {A : Type 0} where
  pub pure-ReadOnly : (a : A) → ReadOnly (pure a)
  unfolding ReadOnly
  pure-ReadOnly a s = refl

  pub attempt-ReadOnly : (m : Action A) → ReadOnly m → ReadOnly (attempt m)
  unfolding ReadOnly
  attempt-ReadOnly m h s = h s

  pub if_ReadOnly :
      (b : Bool) (m n : Action A) → ReadOnly m → ReadOnly n → ReadOnly (if b then m else n)
  if_ReadOnly true m n hm hn = hm
  if_ReadOnly false m n hm hn = hn

pub throw-ReadOnly : (A : Type 0) (e : Errno) → ReadOnly (throw {A = A} e)
unfolding ReadOnly
throw-ReadOnly A e s = refl

pub hang-ReadOnly : (A : Type 0) → ReadOnly (hang {A = A})
unfolding ReadOnly
hang-ReadOnly A s = refl

pub get_cache-ReadOnly : ReadOnly get_cache
unfolding ReadOnly
get_cache-ReadOnly s = refl

pub put_cache-ReadOnly : (c : Cache) → ReadOnly (put_cache c)
unfolding ReadOnly
put_cache-ReadOnly c s = refl

pub read_sector-ReadOnly : (n : ℕ) → ReadOnly (read_sector n)
unfolding ReadOnly
read_sector-ReadOnly n s = read_sector-sectors n s

pub fat16_init-ReadOnly : ReadOnly fat16_init
unfolding fat16_init
fat16_init-ReadOnly =
    bind_ReadOnly _ _ (attempt-ReadOnly _ (read_sector-ReadOnly 0))
      (λ b. option_ReadOnly b _ _ (pure-ReadOnly tt) (λ buffer. put_cache-ReadOnly _))

pub ensure_init-ReadOnly : ReadOnly ensure_init
unfolding ensure_init
ensure_init-ReadOnly =
    bind_ReadOnly _ _ get_cache-ReadOnly
      (λ c. if_ReadOnly c.initialized _ _ (pure-ReadOnly tt) fat16_init-ReadOnly)

pub fat16_read_fat_entry-ReadOnly : (cluster : ℕ) → ReadOnly (fat16_read_fat_entry cluster)
unfolding fat16_read_fat_entry
fat16_read_fat_entry-ReadOnly cluster = bind_ReadOnly _ _ ensure_init-ReadOnly (λ _.
    bind_ReadOnly _ _ get_cache-ReadOnly (λ c.
      bind_ReadOnly _ _ (attempt-ReadOnly _ (read_sector-ReadOnly _))
        (λ b. option_ReadOnly b _ _ (pure-ReadOnly 0xFFFF) (λ buffer. pure-ReadOnly _))))

pub ReadOnly-sectors :
    {A : Type 0} (m : Action A) → ReadOnly m → (s : Fs) → (m s).1.sectors ≡ s.sectors
unfolding ReadOnly
ReadOnly-sectors m h s = h s
