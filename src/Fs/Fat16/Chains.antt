-- ===== src/Fs/Fat16/Chains.antt =====
-- Chains of clusters in the table of fs/fat16.c, and what releasing one does.
use benmosh_os.Prelude.{
  Apart, ℕ, zero, suc, ◌+◌, ◌≤◌, ◌<◌, ◌≡◌, ◌≢◌, ◌⊎◌, inl, inr, refl, sym, ◌∙◌, true, false, arith,
  ltb, leb, Bool-cases, List, [], ◌∷◌, length, ◌&&◌, ◌||◌,
}
use benmosh_os.Fs.Volume.{Fs, Cache, Outcome, done, count_transfer}
use benmosh_os.Fs.Volume.Transfers.{Works, count_transfer-Works}
use benmosh_os.Fs.Fat16.{free_links, fat16_free_chain, fat16_alloc_cluster}
use benmosh_os.Fs.Fat16.Table.{
  Same-entry_of, Same-count_transfer, entry_of, fat16_read_fat_entry-Works,
}
use benmosh_os.Fs.Fat16.Table.Writing.{
  Sized, InTable, with_entry, with_entry-Works, with_entry-cache, fat16_write_fat_entry-Works,
  with_entry-same, with_entry-other,
}
use benmosh_os.Fs.Fat16.Alloc.{Allocates, fat16_alloc_cluster-Allocates}

-- The clusters from `c` on are those of the list, each once, along the entries `e`, to a number at which
-- `fat16_free_chain` stops.
abbrev pub Chain : (ℕ → ℕ) → ℕ → List ℕ → Type 0
Chain e c [] = (c < 2) ⊎ (0xFFF0 ≤ c)
Chain e c (d ∷ cs) = (c ≡ d) × (2 ≤ d) × (d < 0xFFF0) × Apart d cs × Chain e (e d) cs

abbrev pub AllInTable : Cache → List ℕ → Type 0
AllInTable g [] = Unit
AllInTable g (c ∷ cs) = InTable g c × AllInTable g cs

abbrev pub AllFree : (ℕ → ℕ) → List ℕ → Type 0
AllFree e [] = Unit
AllFree e (c ∷ cs) = (e c ≡ 0) × AllFree e cs

-- A chain stays a chain when entries of other clusters change.
Chain-kept :
    (g : Cache) (e f : ℕ → ℕ) (d : ℕ)
    → ((j : ℕ) → InTable g j → j ≢ d → f j ≡ e j)
    → (c : ℕ) (cs : List ℕ) → AllInTable g cs
    → Apart d cs
    → Chain e c cs
    → Chain f c cs
Chain-kept g e f d same c [] i a h = h
Chain-kept g e f d same c (x ∷ cs) (i, is) (ne, a) (eq, lo, hi, once, rest) =
    (eq, lo, hi, once, rw (same x i (λ p. ne (sym p))) (Chain-kept g e f d same (e x) cs is a rest))

-- What the release of the clusters `cs` of `s` leads to.
abbrev pub Released : Fs → List ℕ → Outcome Unit × Fs → Type 0
Released s cs r =
    (t : Fs) × (r ≡ (done tt, t))
    × Works t
    × (t.cache ≡ s.cache)
    × AllFree (entry_of t) cs
    × ((j : ℕ) → InTable s.cache j → Apart j cs → entry_of t j ≡ entry_of s j)

module _ (s : Fs) (w : Works s) (g : Sized s.cache) (c : ℕ) (i : InTable s.cache c) where
  -- The volume when the first cluster of a chain has been released.
  abbrev after_one : Fs
  after_one = with_entry c 0 (count_transfer s)

  after_one-Works : Works after_one
  after_one-Works = with_entry-Works c 0 (count_transfer s) (count_transfer-Works s w)

  after_one-cache : after_one.cache ≡ s.cache
  after_one-cache = with_entry-cache c 0 (count_transfer s)

  after_one-free : entry_of after_one c ≡ 0
  after_one-free = with_entry-same c 0 (count_transfer s) g (omega arith)

  after_one-other : (j : ℕ) → InTable s.cache j → j ≢ c → entry_of after_one j ≡ entry_of s j
  after_one-other j k ne =
      with_entry-other c j 0 (count_transfer s) g i k ne
      ∙ Same-entry_of s (count_transfer s) (Same-count_transfer s) j

  Released-cons :
      (cs : List ℕ) (r : Outcome Unit × Fs)
      → Apart c cs
      → Released after_one cs r
      → Released s (c ∷ cs) r
  Released-cons cs r once (t, e, wt, same, free, kept) =
      let here : InTable after_one.cache c = rw after_one-cache i in
      (
        t,
        e,
        wt,
        same ∙ after_one-cache,
        (kept c here once ∙ after_one-free, free),
        λ j k (ne, a). kept j (rw after_one-cache k) a ∙ after_one-other j k ne,
      )

free_links-Released :
    (cs : List ℕ) (n curr : ℕ) (s : Fs)
    → Works s
    → Sized s.cache
    → AllInTable s.cache cs
    → Chain (entry_of s) curr cs
    → length cs ≤ n
    → Released s cs (free_links n curr s)
unfolding free_links
free_links-Released [] zero curr s w g i h len = (s, refl, w, refl, tt, λ j _ _. refl)
free_links-Released [] (suc n) curr s w g i h len =
    let stops : leb 2 curr && ltb curr 0xFFF0 ≡ false = elim h [
      | inl a ↦ ground (arith, a)
      | inr a ↦ ground (arith, a)
    ] in
    rw stops (s, refl, w, refl, tt, λ j _ _. refl)
free_links-Released (c ∷ cs) zero curr s w g i h len = absurd (omega (arith, len))
free_links-Released (c ∷ cs) (suc n) curr s w g (i, is) (eq, lo, hi, once, rest) len =
    let goes : leb 2 c && ltb c 0xFFF0 ≡ true = ground (arith, lo, hi) in
    let s1 = after_one s w g c i in
    let e1 = after_one-cache s w g c i in
    let more =
      free_links-Released cs n (entry_of s c) s1 (after_one-Works s w g c i) (rw e1 g) (rw e1 is)
        (Chain-kept s.cache (entry_of s) (entry_of s1) c (after_one-other s w g c i) (entry_of s c)
          cs is once rest)
        (omega (arith, len)) in
    rw
      (
        eq,
        goes,
        fat16_read_fat_entry-Works c s w,
        fat16_write_fat_entry-Works c 0 (count_transfer s) (count_transfer-Works s w),
      )
      (Released-cons s w g c i cs _ once more)

-- On a drive that does not fail, the release of a chain of different clusters, all in the table and no more than the
-- safety counter starts with, succeeds: each of them is free then, and all other entries are as before. This
-- needs at least one table and tables within 28-bit sector numbers.
pub fat16_free_chain-Released :
    (start_cluster : ℕ) (cs : List ℕ) (s : Fs)
    → Works s
    → Sized s.cache
    → AllInTable s.cache cs
    → Chain (entry_of s) start_cluster cs
    → length cs ≤ s.cache.total_clusters
    → Released s cs (fat16_free_chain start_cluster s)
unfolding fat16_free_chain
fat16_free_chain-Released start_cluster cs s w g i h len =
    elim (Bool-cases (ltb start_cluster 2 || leb 0xFFF8 start_cluster)) [
      | inr e ↦ rw e (free_links-Released cs s.cache.total_clusters start_cluster s w g i h len)
      | inl e ↦ rw e (nothing cs h (ground (arith, e)))
    ]
  where
    nothing :
        (cs : List ℕ)
        → Chain (entry_of s) start_cluster cs
        → (start_cluster < 2) ⊎ (0xFFF8 ≤ start_cluster)
        → Released s cs (done tt, s)
    nothing [] h o = (s, refl, w, refl, tt, λ j _ _. refl)
    nothing (c ∷ cs) (eq, lo, hi, _, _) (inl o) = absurd (omega (arith, eq, lo, o))
    nothing (c ∷ cs) (eq, lo, hi, _, _) (inr o) = absurd (omega (arith, eq, hi, o))

-- An allocation succeeds when some cluster is free.
Allocates-succeeds :
    (t : Fs) (c : ℕ)
    → Allocates t (fat16_alloc_cluster t)
    → entry_of t c ≡ 0
    → InTable t.cache c
    → 2 ≤ c
    → c < t.cache.total_clusters + 2
    → (d : ℕ) × (2 ≤ d) × ((fat16_alloc_cluster t).0 ≡ done d)
Allocates-succeeds t c (inl (d, e, two, _, _, _, _, _, _)) free j two_c total = (d, two, e)
Allocates-succeeds t c (inr (_, _, taken)) free j two_c total = absurd (taken c j two_c total free)

-- After such a release, of a chain that is not empty and starts below the end of the volume, with a table of at most
-- 256 sectors, the next allocation finds a cluster.
pub fat16_free_chain-fat16_alloc_cluster :
    (c : ℕ) (cs : List ℕ) (s : Fs)
    → Works s
    → Sized s.cache
    → s.cache.sectors_per_fat ≤ 256
    → AllInTable s.cache (c ∷ cs)
    → Chain (entry_of s) c (c ∷ cs)
    → length (c ∷ cs) ≤ s.cache.total_clusters
    → c < s.cache.total_clusters + 2
    → (d : ℕ) × (2 ≤ d) × ((fat16_alloc_cluster (fat16_free_chain c s).1).0 ≡ done d)
fat16_free_chain-fat16_alloc_cluster c cs s w g small i h len total =
    go (fat16_free_chain c s) (fat16_free_chain-Released c (c ∷ cs) s w g i h len)
  where
    go :
        (r : Outcome Unit × Fs)
        → Released s (c ∷ cs) r
        → (d : ℕ) × (2 ≤ d) × ((fat16_alloc_cluster r.1).0 ≡ done d)
    go r (t, e, wt, same, (free, _), _) = rw e (
        Allocates-succeeds t c (fat16_alloc_cluster-Allocates t wt (rw same g) (rw same small)) free
          (rw same i.0) h.1 (rw same total))
