-- ===== src/Fs/Fat16/Visiting.antt =====
-- The visit of a directory in fs/fat16.c ends, when the chain of its clusters does.
use benmosh_os.Prelude.{
  ℕ, zero, suc, ◌+◌, ◌-◌, ◌*◌, ◌%◌, ◌^◌, ◌≤◌, ◌<◌, ◌≡◌, ◌⊎◌, inl, inr, refl, ap, ◌∙◌, true, false,
  arith, ◌==◌, ltb, leb, ◌&&◌, List, [], ◌∷◌, length, Bool-cases,
}
use benmosh_os.Fs.Volume.{Fs, Outcome, done, Action, pure, ◌>>=◌, count_transfer}
use benmosh_os.Fs.Volume.Transfers.{Works, read_sector-Works, count_transfer-Works}
use benmosh_os.Fs.Fat16.{fat16_read_fat_entry}
use benmosh_os.Fs.Fat16.Table.{
  entry_of, Same, Same-refl, Same-trans, Same-count_transfer, Same-entry_of,
  fat16_read_fat_entry-Works,
}
use benmosh_os.Fs.Fat16.Directory.{
  Walk, going, halted, broken, Visitor, visit_slots, visit_sectors, visit_chain, iterate_directory,
  cluster_lba,
}

-- The clusters from `c` on are those of the list, along the entries `e`, to a number at which the visit stops.
abbrev pub EndsAfter : (ℕ → ℕ) → ℕ → List ℕ → Type 0
EndsAfter e c [] = (c < 2) ⊎ (0xFFF8 ≤ c)
EndsAfter e c (d ∷ cs) = (c ≡ d) × (2 ≤ d) × (d < 0xFFF8) × EndsAfter e (e d) cs

EndsAfter-same :
    (e f : ℕ → ℕ)
    → ((x : ℕ) → f x ≡ e x)
    → (c : ℕ) (cs : List ℕ) → EndsAfter e c cs
    → EndsAfter f c cs
EndsAfter-same e f same c [] h = h
EndsAfter-same e f same c (d ∷ cs) (eq, lo, hi, h) =
    (eq, lo, hi, rw (same d) (EndsAfter-same e f same (e d) cs h))

module _ {C : Type 0} (callback : Visitor C) where
  -- The visit comes to a result and leaves the disk alone.
  abbrev pub Done : Fs → Outcome (Walk C) × Fs → Type 0
  Done s r = (w : Walk C) × (t : Fs) × (r ≡ (done w, t)) × Same s t × Works t

  visit_sectors-Done :
      (n sec : ℕ) (ctx : C) (s : Fs) → Works s → Done s (visit_sectors callback n sec ctx s)
  unfolding visit_sectors
  visit_sectors-Done zero sec ctx s w = (going ctx, s, refl, Same-refl s, w)
  visit_sectors-Done (suc n) sec ctx s w = rw (read_sector-Works sec s w) (
      go (visit_slots callback 16 sec 0 (s.sectors (sec % 2 ^ 28)) ctx)
        (λ next. visit_sectors-Done n (sec + 1) next (count_transfer s) (count_transfer-Works s w)))
    where
      go :
          (w : Walk C)
          → ((next : C)
              → Done
                  (count_transfer s)
                  (visit_sectors callback n (sec + 1) next (count_transfer s)))
          → Done s (
              (elim w as (λ _. Action (Walk C)) [
                | going next ↦ visit_sectors callback n (sec + 1) next
                | halted next ↦ pure (halted next)
                | broken next ↦ pure (broken next)
              ])
                (count_transfer s))
      go (going next) h =
          let (x, t, e, same, wt) = h next in
          (x, t, e, Same-trans s (count_transfer s) t (Same-count_transfer s) same, wt)
      go (halted next) h =
          (halted next, count_transfer s, refl, Same-count_transfer s, count_transfer-Works s w)
      go (broken next) h =
          (broken next, count_transfer s, refl, Same-count_transfer s, count_transfer-Works s w)

  visit_chain-Done :
      (cs : List ℕ) (rounds c : ℕ) (ctx : C) (s : Fs)
      → Works s
      → EndsAfter (entry_of s) c cs
      → length cs < rounds
      → Done s (visit_chain callback rounds c ctx s)
  unfolding visit_chain cluster_lba
  visit_chain-Done cs zero c ctx s w h few = absurd (omega (arith, few))
  visit_chain-Done [] (suc rounds) c ctx s w h few =
      let stops : leb 2 c && ltb c 0xFFF8 ≡ false = elim h [
        | inl a ↦ ground (arith, a)
        | inr a ↦ ground (arith, a)
      ] in
      rw stops (going ctx, s, refl, Same-refl s, w)
  visit_chain-Done (d ∷ cs) (suc rounds) c ctx s w (eq, lo, hi, h) few =
      let goes : leb 2 c && ltb c 0xFFF8 ≡ true = ground (arith, eq, lo, hi) in
      let (x, t, e, same, wt) =
        visit_sectors-Done s.cache.sectors_per_cluster
          (s.cache.data_start_sector + (c - 2) * s.cache.sectors_per_cluster) ctx s w in
      let u = count_transfer t in
      let same_u = Same-trans s t u same (Same-count_transfer t) in
      let next : entry_of t c ≡ entry_of s d = Same-entry_of s t same c ∙ ap (entry_of s) eq in
      let rest =
        EndsAfter-same (entry_of s) (entry_of u) (Same-entry_of s u same_u) (entry_of s d) cs h in
      rw (goes, e)
        (go x t same wt (λ ctx'.
          rw (fat16_read_fat_entry-Works c t wt, next)
            (after u _ same_u (
              visit_chain-Done cs rounds (entry_of s d) ctx' u (count_transfer-Works t wt) rest
                (omega (arith, few))))))
    where
      after : (u : Fs) (r : Outcome (Walk C) × Fs) → Same s u → Done u r → Done s r
      after u r same (x, t, e, same_t, wt) = (x, t, e, Same-trans s u t same same_t, wt)

      go :
          (w : Walk C) (t : Fs)
          → Same s t
          → Works t
          → ((next : C)
              → Done s
                  ((fat16_read_fat_entry c >>= (λ link. visit_chain callback rounds link next)) t))
          → Done s (
              (elim w as (λ _. Action (Walk C)) [
                | going next ↦
                    fat16_read_fat_entry c >>= (λ link. visit_chain callback rounds link next)
                | halted next ↦ pure (halted next)
                | broken next ↦ pure (broken next)
              ])
                t)
      go (going next) t same wt h = h next
      go (halted next) t same wt h = (halted next, t, refl, same, wt)
      go (broken next) t same wt h = (broken next, t, refl, same, wt)

-- On a drive that does not fail, the visit of a directory comes to a result and leaves the disk as it was, with any
-- visitor, if the directory is the root or the chain of its clusters ends, and the rounds are more than the clusters.
pub iterate_directory-done :
    {C : Type 0} (callback : Visitor C) (rounds dir_cluster : ℕ) (cs : List ℕ) (ctx : C) (s : Fs)
    → Works s
    → (dir_cluster ≡ 0) ⊎ EndsAfter (entry_of s) dir_cluster cs
    → length cs < rounds
    → (w : Walk C) × (t : Fs) × (iterate_directory rounds dir_cluster callback ctx s ≡ (done w, t))
      × Same s t
      × Works t
unfolding iterate_directory
iterate_directory-done callback rounds dir_cluster cs ctx s w h few =
    elim (Bool-cases (dir_cluster == 0)) [
      | inl e ↦ rw e (
          visit_sectors-Done callback s.cache.root_dir_size_sectors s.cache.root_dir_sector ctx s w)
      | inr e ↦ rw e (
          visit_chain-Done callback cs rounds dir_cluster ctx s w
            (elim h [ inl root ↦ absurd (ground (arith, e, root)) | inr ends ↦ ends ]) few)
    ]
