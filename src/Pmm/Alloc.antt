-- ===== src/Pmm/Alloc.antt =====
-- The scan of `pmm_alloc_frame` finds the lowest free frame but frame 0.
use benmosh_os.Prelude.{
  Option-cases, ℕ, zero, suc, ◌+◌, ◌*◌, ◌/◌, ◌%◌, ◌^◌, ◌<◌, ◌≤◌, ◌≡◌, refl, Bool, true, false, not,
  ◌&&◌, ◌⊎◌, arith, bit_and, ltb, ◌==◌, Bool-cases, ==_iff, inl, inr, sub32, Option, none, some,
}
use mathlib.Core.Path.{subst₂}
use benmosh_os.Prelude.Bits.{bit, bit-ones}
use benmosh_os.Pmm.{
  Pmm, is_frame_free, mark_used, count_down, scan_bits, scan_words, alloc_frame, full_word,
  get_stats,
}
use benmosh_os.Pmm.Bitmap.{
  counters-mark_used, free-mark_used, lt-total, free-count, bit_and-one_at, is_frame_free_lem,
}
use benmosh_os.Pmm.Count.{count_below, count_below-le}
use benmosh_os.Pmm.Invariant.{IsValid, used-IsValid}

-- The first number from `lo` on and below `hi` that passes the test, if there is one.
abbrev pub First : (ℕ → Bool) → ℕ → ℕ → Option ℕ → Type 0
First p lo hi none = (g : ℕ) → lo ≤ g → g < hi → p g ≡ false
First p lo hi (some f) =
    (lo ≤ f) × (f < hi) × (p f ≡ true) × ((g : ℕ) → lo ≤ g → g < f → p g ≡ false)

module _ (p : ℕ → Bool) where
  First-join :
      (lo mid hi : ℕ) (o : Option ℕ)
      → lo ≤ mid
      → ((g : ℕ) → lo ≤ g → g < mid → p g ≡ false)
      → First p mid hi o
      → First p lo hi o
  First-join lo mid hi none h low rest = λ g i j. elim (Bool-cases (ltb g mid)) [
    | inl before ↦ low g i (ground arith)
    | inr after ↦ rest g (ground arith) j
  ]
  First-join lo mid hi (some f) h low rest = (
    omega arith,
    rest.1,
    rest.2,
    λ g i j. elim (Bool-cases (ltb g mid)) [
      | inl before ↦ low g i (ground arith)
      | inr after ↦ rest.3 g (ground arith) j
    ],
  )

  -- A search of two parts in turn.
  First-or_else :
      (lo mid hi : ℕ) (o rest : Option ℕ)
      → lo ≤ mid
      → mid ≤ hi
      → First p lo mid o
      → First p mid hi rest
      → First p lo hi (elim o [ none ↦ rest | some f ↦ some f ])
  First-or_else lo mid hi none rest h k low high = First-join lo mid hi rest h low high
  First-or_else lo mid hi (some f) rest h k low high = (low.0, omega arith, low.2, low.3)

-- Frame 0 is never given out.
available : Pmm → ℕ → Bool
available s g = ltb 0 g && (bit (s.bitmap (g / 32)) (g % 32) == 0)

available_at :
    (s : Pmm) (w b : ℕ)
    → b < 32
    → available s (w * 32 + b) ≡ (ltb 0 (w * 32 + b) && (bit (s.bitmap w) b == 0))
unfolding available
available_at s w b h =
    let word : (w * 32 + b) / 32 ≡ w = omega arith in
    let place : (w * 32 + b) % 32 ≡ b = omega arith in rw (word, place) refl

First-from :
    (s : Pmm) (o : Option ℕ) {lo hi lo' hi' : ℕ}
    → lo ≡ lo'
    → hi ≡ hi'
    → First (available s) lo hi o
    → First (available s) lo' hi' o
First-from s o e d = subst₂ (λ a b. First (available s) a b o) e d

-- A number that is not available is passed over.
skip_bit :
    (w b : ℕ) (s : Pmm) (o : Option ℕ)
    → b < 32
    → available s (w * 32 + b) ≡ false
    → First (available s) (w * 32 + (b + 1)) (w * 32 + 32) o
    → First (available s) (w * 32 + b) (w * 32 + 32) o
skip_bit w b s o h no_b =
    First-join (available s) (w * 32 + b) (w * 32 + (b + 1)) (w * 32 + 32) o (omega arith)
      (λ g i j. let e : g ≡ w * 32 + b = omega arith in rw e no_b)

scan_bits-First :
    (n w b : ℕ) (s : Pmm)
    → b + n ≡ 32
    → First (available s) (w * 32 + b) (w * 32 + 32) (scan_bits n w b s)
unfolding scan_bits
scan_bits-First zero w b s h = λ g i j. absurd (omega arith)
scan_bits-First (suc n) w b s h =
    let at = available_at s w b (omega arith) in
    let skip = λ (no_b : available s (w * 32 + b) ≡ false).
      skip_bit w b s (scan_bits n w (b + 1) s) (omega arith) no_b
        (scan_bits-First n w (b + 1) s (omega arith)) in
    let test = bit_and-one_at (s.bitmap w) b in
    elim (Bool-cases (bit_and (s.bitmap w) (2 ^ b) == 0)) [
      | inl clear ↦ elim (Bool-cases (w * 32 + b == 0)) [
        | inl reserved ↦ rw (clear, reserved) (skip (ground arith))
        | inr ordinary ↦
            rw (clear, ordinary)
              (omega arith, omega arith, ground arith, λ g i j. absurd (omega arith))
      ]
      | inr taken ↦ rw taken (skip (ground arith))
    ]

-- A full word has no available frame.
full-available :
    (w : ℕ) (s : Pmm)
    → s.bitmap w ≡ full_word
    → (g : ℕ) → w * 32 ≤ g
    → g < (w + 1) * 32
    → available s g ≡ false
unfolding available
full-available w s e g i j =
    let word : g / 32 ≡ w = omega arith in
    rw word (ground (arith, bit-ones 32 (g % 32) (omega arith)))

scan_words-First :
    (n w : ℕ) (s : Pmm) → First (available s) (w * 32) ((w + n) * 32) (scan_words n w s)
unfolding scan_words
scan_words-First zero w s = λ g i j. absurd (omega arith)
scan_words-First (suc n) w s =
    let rest : First (available s) (w * 32 + 32) ((w + suc n) * 32) (scan_words n (w + 1) s) =
      First-from s (scan_words n (w + 1) s) (omega arith) (omega arith)
        (scan_words-First n (w + 1) s) in
    elim (Bool-cases (s.bitmap w == full_word)) [
      | inl full ↦ rw full (
          First-join (available s) (w * 32) (w * 32 + 32) _ (scan_words n (w + 1) s) (omega arith)
            (λ g i j. full-available w s ((==_iff _ _).0 full) g i (omega arith)) rest)
      | inr some_clear ↦ rw some_clear (
          First-or_else (available s) (w * 32) (w * 32 + 32) _ (scan_bits 32 w 0 s)
            (scan_words n (w + 1) s) (omega arith) (omega arith)
            (First-from s (scan_bits 32 w 0 s) (omega arith) refl (scan_bits-First 32 w 0 s refl))
            rest)
    ]

-- What `pmm_alloc_frame` may answer: 0 and no change when every frame but frame 0 is in use, else
-- the address of the lowest free frame but frame 0, with that frame alone taken.
abbrev pub Allocated : Pmm → ℕ × Pmm → Type 0
Allocated s (address, t) =
    ((address ≡ 0) × (t ≡ s) × ((g : ℕ) → 0 < g → is_frame_free s g ≡ false))
    ⊎ ((f : ℕ) × (address ≡ f * 4096)
        × (0 < f)
        × (is_frame_free s f ≡ true)
        × ((g : ℕ) → 0 < g → g < f → is_frame_free s g ≡ false)
        × IsValid t
        × ((g : ℕ) → is_frame_free t g ≡ (is_frame_free s g && not (f == g))))

module _ (s : Pmm) (v : IsValid s) (big : 1048576 ≤ s.total_frames) where
  available-free : (g : ℕ) → g < 1048576 → available s g ≡ (ltb 0 g && is_frame_free s g)
  unfolding available
  available-free g h = ground (arith, is_frame_free_lem s g)

  answer-Allocated :
      (o : Option ℕ)
      → First (available s) 0 1048576 o
      → Allocated s (elim o [
        | none ↦ (0, s)
        | some frame ↦ (frame * 4096 % 2 ^ 32, count_down (mark_used frame s))
      ])
  answer-Allocated none all = inl (
    refl,
    refl,
    λ g h. elim (Bool-cases (is_frame_free s g)) [
      | inl free ↦ ground (arith, lt-total s g free, v.few, all g, available-free g)
      | inr used ↦ used
    ],
  )
  answer-Allocated (some f) (lo, hi, here, below) = inr (
    f,
    omega arith,
    ground (arith, available-free f hi),
    free,
    (λ g i j. ground (arith, below g (omega arith) j, available-free g (omega arith))),
    used-IsValid s f v free,
    λ g. ground (
      arith,
      free-count (mark_used f s) (sub32 (mark_used f s).free_frame_count 1) g,
      free-mark_used s f g,
    ),
  )
    where
      free : is_frame_free s f ≡ true
      free = ground (arith, available-free f hi)

  -- `pmm_alloc_frame` gives out the lowest free frame but frame 0 and takes that frame alone, or
  -- answers 0 and changes nothing when there is none; the invariant is kept.
  pub alloc_frame-Allocated : Allocated s (alloc_frame s)
  unfolding alloc_frame
  alloc_frame-Allocated = answer-Allocated (scan_words 32768 0 s) (scan_words-First 32768 0 s)

pub alloc_frame-total : (s : Pmm) → ((alloc_frame s).1).total_frames ≡ s.total_frames
unfolding alloc_frame
alloc_frame-total s = elim (Option-cases (scan_words 32768 0 s)) [
  | inl e ↦ rw (alloc_frame, e) refl
  | inr (f, e) ↦ rw (alloc_frame, e) ((counters-mark_used s f).0)
]

-- The free and the used frames of `pmm_get_stats` are those that the bitmap says, and make up all.
pub get_stats_lem :
    (s : Pmm)
    → IsValid s
    → ((get_stats s).1 ≡ count_below s.total_frames (is_frame_free s))
      × ((get_stats s).1 + (get_stats s).2 ≡ (get_stats s).0)
unfolding get_stats
get_stats_lem s v = omega (arith, v.few, v.counted, count_below-le s.total_frames (is_frame_free s))
