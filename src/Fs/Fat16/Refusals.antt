-- ===== src/Fs/Fat16/Refusals.antt =====
-- The operations of fs/fat16.c that refuse to do something have not written anything by then.
pub mod Failures
pub mod Operations
use benmosh_os.Prelude.{
  ℕ, zero, suc, ◌+◌, ◌*◌, ◌/◌, ◌≡◌, ◌≢◌, refl, sym, ap, ◌∙◌, Bool, true, false, Option, none, some,
  if◌then◌else◌, List, [], ◌∷◌, ltb, leb, ◌==◌, ◌&&◌, ◌||◌, Bool-cases, inl, inr, update, length,
}
use benmosh_os.Fs.Volume.{
  Fs, Bytes, Errno, eio, eexist, Outcome, done, fail, running, Action, pure, throw, hang, attempt,
  succeeded, and_then, ◌>>=◌, ◌>>◌, get_cache, put_cache, Cache, read_sector, write_sector, get16,
}
use benmosh_os.Fs.Volume.Transfers.{read_sector-OnlyEio, write_sector-OnlyEio}
use benmosh_os.Fs.Fat16.{
  ensure_init, fat_sector, fat_offset, fat16_init, fat16_read_fat_entry, fat16_write_fat_entry,
  free_links, fat16_free_chain,
}
use benmosh_os.Fs.Fat16.Directory.{
  Walk, left_with, iterate_directory, is_directory, starting_cluster,
}
use benmosh_os.Fs.Fat16.Find.{FindFile, fat16_find_in_dir}
use benmosh_os.Fs.Fat16.Path.{fat16_resolve_path}
use benmosh_os.Fs.Fat16.Names.{join_sfn, short_base, short_ext}
use benmosh_os.Fs.Fat16.Insert.{
  SlotSearch, slot_search, slot_search_callback, free_tail, put_entry, record_at, write_records,
  fat16_insert_entry,
}
use benmosh_os.Fs.Fat16.Files.{
  exists_in_dir, fat16_create_file, free_entry, bury, fat16_delete_file, empty_check_callback,
  fat16_remove_directory,
}
use benmosh_os.Fs.Fat16.ReadOnly.{
  ReadOnly, ReadOnly-sectors, bind_ReadOnly, option_ReadOnly, pure-ReadOnly, throw-ReadOnly,
  hang-ReadOnly, attempt-ReadOnly, if_ReadOnly, ensure_init-ReadOnly,
}
use benmosh_os.Fs.Fat16.ReadOnly.Visits.{
  iterate_directory-ReadOnly, fat16_find_in_dir-ReadOnly, fat16_resolve_path-ReadOnly,
}

-- An action that fails, if at all, for a transfer.
pub OnlyEio : {A : Type 0} → Action A → Type 0
OnlyEio m = (s : Fs) (e : Errno) → (m s).0 ≡ fail e → e ≡ eio

-- An action that has written nothing when it fails for anything but a transfer.
pub Refuses : {A : Type 0} → Action A → Type 0
Refuses m = (s : Fs) (e : Errno) → (m s).0 ≡ fail e → e ≢ eio → (m s).1.sectors ≡ s.sectors

done_fail : {A : Type 0} (a : A) (e : Errno) → done a ≢ fail e
done_fail a e eq = cc

running_fail : {A : Type 0} (e : Errno) → ◌≢◌ {A = Outcome A} running (fail e)
running_fail e eq = cc

fail_inj : {A : Type 0} (x e : Errno) → ◌≡◌ {A = Outcome A} (fail x) (fail e) → x ≡ e
fail_inj x e eq = cc

module _ {A B : Type 0} where
  pub then_OnlyEio :
      (o : Outcome A) (f : A → Action B)
      → ((a : A) → OnlyEio (f a))
      → ((e : Errno) → o ≡ fail e → e ≡ eio)
      → OnlyEio (and_then o f)
  unfolding OnlyEio
  then_OnlyEio (done a) f h only = h a
  then_OnlyEio (fail x) f h only = λ s e eq. sym (fail_inj x e eq) ∙ only x refl
  then_OnlyEio running f h only = λ s e eq. absurd (running_fail e eq)

  pub bind_OnlyEio :
      (m : Action A) (f : A → Action B) → OnlyEio m → ((a : A) → OnlyEio (f a)) → OnlyEio (m >>= f)
  unfolding OnlyEio
  bind_OnlyEio m f hm hf = λ s. then_OnlyEio (m s).0 f hf (hm s) (m s).1

  pub then_Refuses :
      (o : Outcome A) (f : A → Action B)
      → ((a : A) → Refuses (f a))
      → (s : Fs) (e : Errno) → (and_then o f s).0 ≡ fail e
      → e ≢ eio
      → (and_then o f s).1.sectors ≡ s.sectors
  unfolding Refuses
  then_Refuses (done a) f h = h a
  then_Refuses (fail x) f h = λ s e eq ne. refl
  then_Refuses running f h = λ s e eq ne. refl

  pub bind_Refuses :
      (m : Action A) (f : A → Action B) → ReadOnly m → ((a : A) → Refuses (f a)) → Refuses (m >>= f)
  unfolding Refuses
  bind_Refuses m f hm hf =
      λ s e eq ne. then_Refuses (m s).0 f hf (m s).1 e eq ne ∙ ReadOnly-sectors m hm s

module _ {A : Type 0} where
  pub only_Refuses : (m : Action A) → OnlyEio m → Refuses m
  unfolding OnlyEio Refuses
  only_Refuses m h s e eq ne = absurd (ne (h s e eq))

  pub read_Refuses : (m : Action A) → ReadOnly m → Refuses m
  unfolding Refuses
  read_Refuses m h s e eq ne = ReadOnly-sectors m h s

  pub if_Refuses :
      (b : Bool) (m n : Action A) → Refuses m → Refuses n → Refuses (if b then m else n)
  if_Refuses true m n hm hn = hm
  if_Refuses false m n hm hn = hn

  pub if_OnlyEio :
      (b : Bool) (m n : Action A) → OnlyEio m → OnlyEio n → OnlyEio (if b then m else n)
  if_OnlyEio true m n hm hn = hm
  if_OnlyEio false m n hm hn = hn

  pub pure-OnlyEio : (a : A) → OnlyEio (pure a)
  unfolding OnlyEio
  pure-OnlyEio a s e eq = absurd (done_fail a e eq)

  succeeded_fail : (o : Outcome A) (e : Errno) → succeeded o ≢ fail e
  succeeded_fail (done a) e = done_fail (some a) e
  succeeded_fail (fail x) e = done_fail none e
  succeeded_fail running e = running_fail e

  pub attempt-OnlyEio : (m : Action A) → OnlyEio (attempt m)
  unfolding OnlyEio
  attempt-OnlyEio m s e eq = absurd (succeeded_fail (m s).0 e eq)

pub get_cache-OnlyEio : OnlyEio get_cache
unfolding OnlyEio
get_cache-OnlyEio s e eq = absurd (done_fail s.cache e eq)

pub put_cache-OnlyEio : (c : Cache) → OnlyEio (put_cache c)
unfolding OnlyEio
put_cache-OnlyEio c s e eq = absurd (done_fail tt e eq)

pub reading_OnlyEio : (n : ℕ) → OnlyEio (read_sector n)
unfolding OnlyEio
reading_OnlyEio n = read_sector-OnlyEio n

pub writing_OnlyEio : (n : ℕ) (b : Bytes) → OnlyEio (write_sector n b)
unfolding OnlyEio
writing_OnlyEio n b = write_sector-OnlyEio n b

pub option_OnlyEio :
    {A B : Type 0} (b : Option A) (m : Action B) (f : A → Action B)
    → OnlyEio m
    → ((a : A) → OnlyEio (f a))
    → OnlyEio (elim b as (λ _. Action B) [ none ↦ m | some a ↦ f a ])
option_OnlyEio none m f hm hf = hm
option_OnlyEio (some a) m f hm hf = hf a
