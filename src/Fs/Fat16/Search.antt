-- ===== src/Fs/Fat16/Search.antt =====
-- The search of fs/fat16.c for a free cluster.
use benmosh_os.Prelude.{
  ℕ, zero, suc, ◌+◌, ◌*◌, ◌%◌, ◌^◌, ◌≤◌, ◌<◌, ◌≡◌, ◌≢◌, ◌⊎◌, inl, inr, sym, arith, ◌==◌, ltb, leb,
  Bool-cases,
}
use benmosh_os.Fs.Volume.{Bytes, get16}
use benmosh_os.Fs.Fat16.{Scan, found, past_end, exhausted, scan_table}

-- No cluster from `lo` up to `hi` but the two that are none is free in the table `e`.
abbrev pub NoFree : (ℕ → ℕ) → ℕ → ℕ → Type 0
NoFree e lo hi = (j : ℕ) → lo ≤ j → j < hi → 2 ≤ j → e j ≢ 0

-- What an answer says, of a search from cluster `lo` up to `hi`.
abbrev pub Answer : (ℕ → ℕ) → ℕ → ℕ → ℕ → Scan → Type 0
Answer e total lo hi (found c) =
    (lo ≤ c) × (c < hi) × (2 ≤ c) × (c < total + 2) × (e c ≡ 0) × NoFree e lo c
Answer e total lo hi past_end = NoFree e lo (total + 2)
Answer e total lo hi exhausted = NoFree e lo hi

NoFree-step :
    (e : ℕ → ℕ) (lo hi : ℕ) → (lo < 2) ⊎ (e lo ≢ 0) → NoFree e (lo + 1) hi → NoFree e lo hi
NoFree-step e lo hi skip rest j le lt two = elim (Bool-cases (lo == j)) [
  | inr ne ↦ rest j (ground (arith, ne, le)) lt two
  | inl same ↦
      let eq : lo ≡ j = ground (arith, same) in
      elim skip [ inl low ↦ absurd (omega (arith, low, eq, two)) | inr taken ↦ rw (sym eq) taken ]
]

-- A cluster that is skipped does not change what an answer says.
Answer-step :
    (e : ℕ → ℕ) (total lo hi : ℕ) (r : Scan)
    → (lo < 2) ⊎ (e lo ≢ 0)
    → Answer e total (lo + 1) hi r
    → Answer e total lo hi r
Answer-step e total lo hi (found c) skip (le, lt, two, in_range, free, rest) =
    (omega (arith, le), lt, two, in_range, free, NoFree-step e lo c skip rest)
Answer-step e total lo hi past_end skip rest = NoFree-step e lo (total + 2) skip rest
Answer-step e total lo hi exhausted skip rest = NoFree-step e lo hi skip rest

pub scan_table-Answer :
    (e : ℕ → ℕ) (total s rounds i : ℕ) (table : Bytes)
    → s < 256
    → i + rounds ≡ 256
    → ((j : ℕ) → j < 256 → get16 table (2 * j) ≡ e (s * 256 + j))
    → Answer e total (s * 256 + i) (s * 256 + 256) (scan_table rounds s i total table)
unfolding scan_table
scan_table-Answer e total s zero i table hs hi is =
    λ j le lt two. absurd (omega (arith, hi, le, lt))
scan_table-Answer e total s (suc rounds) i table hs hi is =
    let lo = s * 256 + i in
    let here : (s * 256 + i) % 2 ^ 16 ≡ lo = omega (arith, hs, hi) in
    let next : s * 256 + (i + 1) ≡ lo + 1 = omega arith in
    let rest = scan_table-Answer e total s rounds (i + 1) table hs (omega (arith, hi)) is in
    let later : Answer e total (lo + 1) (s * 256 + 256) (scan_table rounds s (i + 1) total table) =
      rw (sym next) rest in
    elim (Bool-cases (ltb lo 2)) [
      | inl low ↦ rw (here, low) (Answer-step e total lo _ _ (inl (ground (arith, low))) later)
      | inr high ↦ elim (Bool-cases (leb (total + 2) lo)) [
        | inl past ↦ rw (here, high, past) (λ j le lt two. absurd (ground (arith, past, le, lt)))
        | inr inside ↦
            let entry = is i (omega (arith, hi)) in
            elim (Bool-cases (e lo == 0)) [
              | inl free ↦
                  rw (here, high, inside, entry, free)
                    (
                      omega arith,
                      omega (arith, hi),
                      ground (arith, high),
                      ground (arith, inside),
                      ground (arith, free),
                      λ j le lt two. absurd (omega (arith, le, lt)),
                    )
              | inr taken ↦
                  rw (here, high, inside, entry, taken)
                    (Answer-step e total lo _ _ (inr (λ f. ground (arith, taken, f))) later)
            ]
      ]
    ]
