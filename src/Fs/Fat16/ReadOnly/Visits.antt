-- ===== src/Fs/Fat16/ReadOnly/Visits.antt =====
-- The visit of a directory, the search for a name and the resolution of a path only look at the disk.
use benmosh_os.Prelude.{ℕ, zero, suc, ◌+◌, List, [], ◌∷◌, ltb, leb, ◌==◌, ◌&&◌}
use benmosh_os.Fs.Volume.{Action, pure, ◌>>=◌}
use benmosh_os.Fs.Fat16.Directory.{
  Walk, going, halted, broken, Visitor, visit_slots, visit_sectors, visit_chain, iterate_directory,
  cluster_lba, is_directory, left_with,
}
use benmosh_os.Fs.Fat16.Find.{find_file_callback, find_file, is_found, fat16_find_in_dir}
use benmosh_os.Fs.Fat16.Path.{
  component, skip_slashes, is_dot, enter, finish, resolve_loop, fat16_resolve_path,
}
use benmosh_os.Fs.Fat16.ReadOnly.{
  ReadOnly, bind_ReadOnly, option_ReadOnly, pure-ReadOnly, throw-ReadOnly, hang-ReadOnly,
  attempt-ReadOnly, if_ReadOnly, get_cache-ReadOnly, read_sector-ReadOnly, ensure_init-ReadOnly,
  fat16_read_fat_entry-ReadOnly,
}

pub cluster_lba-ReadOnly : (cluster : ℕ) → ReadOnly (cluster_lba cluster)
unfolding cluster_lba
cluster_lba-ReadOnly cluster = bind_ReadOnly _ _ get_cache-ReadOnly (λ c. pure-ReadOnly _)

module _ {C : Type 0} (callback : Visitor C) where
  walk_ReadOnly :
      (w : Walk C) (f : C → Action (Walk C))
      → ((c : C) → ReadOnly (f c))
      → ReadOnly (elim w as (λ _. Action (Walk C)) [
        | going next ↦ f next
        | halted next ↦ pure (halted next)
        | broken next ↦ pure (broken next)
      ])
  walk_ReadOnly (going c) f h = h c
  walk_ReadOnly (halted c) f h = pure-ReadOnly (halted c)
  walk_ReadOnly (broken c) f h = pure-ReadOnly (broken c)

  visit_sectors-ReadOnly : (n sec : ℕ) (ctx : C) → ReadOnly (visit_sectors callback n sec ctx)
  unfolding visit_sectors
  visit_sectors-ReadOnly zero sec ctx = pure-ReadOnly (going ctx)
  visit_sectors-ReadOnly (suc n) sec ctx =
      bind_ReadOnly _ _ (attempt-ReadOnly _ (read_sector-ReadOnly sec)) (λ b.
        option_ReadOnly b _ _ (pure-ReadOnly (broken ctx)) (λ buffer.
          walk_ReadOnly (visit_slots callback 16 sec 0 buffer ctx) _
            (λ next. visit_sectors-ReadOnly n (sec + 1) next)))

  visit_chain-ReadOnly : (n curr : ℕ) (ctx : C) → ReadOnly (visit_chain callback n curr ctx)
  unfolding visit_chain
  visit_chain-ReadOnly zero curr ctx = hang-ReadOnly (Walk C)
  visit_chain-ReadOnly (suc n) curr ctx =
      if_ReadOnly (leb 2 curr && ltb curr 0xFFF8) _ _
        (bind_ReadOnly _ _ get_cache-ReadOnly (λ c.
          bind_ReadOnly _ _ (cluster_lba-ReadOnly curr) (λ base_sec.
            bind_ReadOnly _ _ (visit_sectors-ReadOnly c.sectors_per_cluster base_sec ctx) (λ w.
              walk_ReadOnly w _ (λ next.
                bind_ReadOnly _ _ (fat16_read_fat_entry-ReadOnly curr)
                  (λ link. visit_chain-ReadOnly n link next))))))
        (pure-ReadOnly (going ctx))

  pub iterate_directory-ReadOnly :
      (rounds dir : ℕ) (ctx : C) → ReadOnly (iterate_directory rounds dir callback ctx)
  unfolding iterate_directory
  iterate_directory-ReadOnly rounds dir ctx = bind_ReadOnly _ _ get_cache-ReadOnly (λ c.
      if_ReadOnly (dir == 0) _ _
        (visit_sectors-ReadOnly c.root_dir_size_sectors c.root_dir_sector ctx)
        (visit_chain-ReadOnly rounds dir ctx))

pub fat16_find_in_dir-ReadOnly :
    (rounds dir : ℕ) (name : List ℕ) → ReadOnly (fat16_find_in_dir rounds dir name)
unfolding fat16_find_in_dir
fat16_find_in_dir-ReadOnly rounds dir name =
    bind_ReadOnly _ _ (iterate_directory-ReadOnly find_file_callback rounds dir (find_file name))
      (λ w.
        if_ReadOnly (is_found (left_with w)) _ _ (pure-ReadOnly (left_with w)) (throw-ReadOnly _ _))

pub enter-ReadOnly : (rounds dir : ℕ) (name : List ℕ) → ReadOnly (enter rounds dir name)
unfolding enter
enter-ReadOnly rounds dir name =
    bind_ReadOnly _ _ (fat16_find_in_dir-ReadOnly rounds dir name)
      (λ hit. if_ReadOnly (is_directory hit.out_entry) _ _ (pure-ReadOnly _) (throw-ReadOnly _ _))

pub finish-ReadOnly : (rounds dir : ℕ) (name : List ℕ) → ReadOnly (finish rounds dir name)
unfolding finish
finish-ReadOnly rounds dir [] = throw-ReadOnly _ _
finish-ReadOnly rounds dir (c ∷ name) =
    bind_ReadOnly _ _ (attempt-ReadOnly _ (fat16_find_in_dir-ReadOnly rounds dir (c ∷ name)))
      (λ _. pure-ReadOnly _)

pub resolve_loop-ReadOnly :
    (fuel rounds dir : ℕ) (path : List ℕ) → ReadOnly (resolve_loop fuel rounds dir path)
unfolding resolve_loop
resolve_loop-ReadOnly zero rounds dir path = hang-ReadOnly _
resolve_loop-ReadOnly (suc fuel) rounds dir [] = throw-ReadOnly _ _
resolve_loop-ReadOnly (suc fuel) rounds dir (c ∷ path) =
    let (name, after) = component 255 (c ∷ path) in
    if_ReadOnly (is_dot name) _ _ (resolve_loop-ReadOnly fuel rounds dir (skip_slashes after))
      (last (skip_slashes after) name (λ d. resolve_loop-ReadOnly fuel rounds d))
  where
    last :
        (rest name : List ℕ)
        → ((d : ℕ) (p : List ℕ) → ReadOnly (resolve_loop fuel rounds d p))
        → ReadOnly (elim rest as (λ _. Action (ℕ × List ℕ)) [
          | [] ↦ finish rounds dir name
          | d ∷ more ↦ enter rounds dir name >>= (λ e. resolve_loop fuel rounds e (d ∷ more))
        ])
    last [] name h = finish-ReadOnly rounds dir name
    last (d ∷ more) name h =
        bind_ReadOnly _ _ (enter-ReadOnly rounds dir name) (λ e. h e (d ∷ more))

pub fat16_resolve_path-ReadOnly :
    (rounds : ℕ) (path : List ℕ) → ReadOnly (fat16_resolve_path rounds path)
unfolding fat16_resolve_path
fat16_resolve_path-ReadOnly rounds [] =
    bind_ReadOnly _ _ ensure_init-ReadOnly (λ _. throw-ReadOnly _ _)
fat16_resolve_path-ReadOnly rounds (c ∷ path) =
    bind_ReadOnly _ _ ensure_init-ReadOnly (λ _. resolve_loop-ReadOnly _ rounds 0 _)
