-- ===== src/Pmm/Blocks.antt =====
-- Reserving and freeing a range of frames: `pmm_reserve_block` and `pmm_free_block`.
use benmosh_os.Prelude.{
  ℕ, zero, suc, ◌+◌, ◌/◌, ◌^◌, ◌<◌, ◌≤◌, ◌≡◌, Bool, true, false, not, ◌&&◌, ◌||◌, arith, leb, ltb,
  ◌==◌, Bool-cases, inl, inr, ◌⊎◌, sub32, add32, none, some,
}
use benmosh_os.Pmm.{
  Pmm, is_frame_free, mark_used, mark_free, reserve_frame, reserve_loop, reserve_block, free_frame,
  free_loop, free_block,
}
use benmosh_os.Pmm.Bitmap.{
  free-mark_used, free-mark_free, counters-mark_used, counters-mark_free, lt-total, free-count,
}
use benmosh_os.Pmm.Invariant.{IsValid, used-IsValid, freed-IsValid}

-- `g` is one of `n` frames from `f` on.
abbrev pub in_range : ℕ → ℕ → ℕ → Bool
in_range f n g = leb f g && ltb g (f + n)

pub total-reserve_frame : (f : ℕ) (s : Pmm) → (reserve_frame f s).total_frames ≡ s.total_frames
unfolding reserve_frame
total-reserve_frame f s = ground (arith, counters-mark_used s f)

total-free_frame : (f : ℕ) (s : Pmm) → (free_frame f s).total_frames ≡ s.total_frames
unfolding free_frame
total-free_frame f s = ground (arith, counters-mark_free s f)

free-reserve_frame :
    (f : ℕ) (s : Pmm) (g : ℕ)
    → is_frame_free (reserve_frame f s) g ≡ (is_frame_free s g && not (f == g))
unfolding reserve_frame
free-reserve_frame f s g = elim (Bool-cases (is_frame_free s f)) [
  | inl free ↦ rw free (
      ground (
        arith,
        free-count (mark_used f s) (sub32 (mark_used f s).free_frame_count 1) g,
        free-mark_used s f g,
      ))
  | inr used ↦ rw used (ground arith)
]

free-free_frame :
    (f : ℕ) (s : Pmm) (g : ℕ)
    → is_frame_free (free_frame f s) g ≡ (is_frame_free s g || (f == g && ltb g s.total_frames))
unfolding free_frame
free-free_frame f s g = elim (Bool-cases (is_frame_free s f)) [
  | inl free ↦ rw free (ground (arith, lt-total s f free))
  | inr used ↦ rw used (
      ground (
        arith,
        free-count (mark_free f s) (add32 (mark_free f s).free_frame_count 1) g,
        free-mark_free s f g,
      ))
]

pub reserve_frame-IsValid : (f : ℕ) (s : Pmm) → IsValid s → IsValid (reserve_frame f s)
unfolding reserve_frame
reserve_frame-IsValid f s v = elim (Bool-cases (is_frame_free s f)) [
  | inl free ↦ rw free (used-IsValid s f v free)
  | inr used ↦ rw used v
]

free_frame-IsValid : (f : ℕ) (s : Pmm) → IsValid s → f < s.total_frames → IsValid (free_frame f s)
unfolding free_frame
free_frame-IsValid f s v h = elim (Bool-cases (is_frame_free s f)) [
  | inl free ↦ rw free v
  | inr used ↦ rw used (freed-IsValid s f v h used)
]

-- The loops.
pub free-reserve_loop :
    (n f : ℕ) (s : Pmm) (g : ℕ)
    → f + n < 2 ^ 32
    → is_frame_free (reserve_loop n f s) g ≡ (is_frame_free s g && not (in_range f n g))
unfolding reserve_loop
free-reserve_loop zero f s g h = ground arith
free-reserve_loop (suc n) f s g h = ground (
  arith,
  free-reserve_loop n (add32 f 1) (reserve_frame f s) g (omega arith),
  free-reserve_frame f s g,
)

reserve_loop-IsValid : (n f : ℕ) (s : Pmm) → IsValid s → IsValid (reserve_loop n f s)
unfolding reserve_loop
reserve_loop-IsValid zero f s v = v
reserve_loop-IsValid (suc n) f s v =
    reserve_loop-IsValid n (add32 f 1) (reserve_frame f s) (reserve_frame-IsValid f s v)

free-free_loop :
    (n f : ℕ) (s : Pmm) (g : ℕ)
    → f + n < 2 ^ 32
    → is_frame_free (free_loop n f s) g
      ≡ (is_frame_free s g || (in_range f n g && ltb g s.total_frames))
unfolding free_loop
free-free_loop zero f s g h = ground arith
free-free_loop (suc n) f s g h = ground (
  arith,
  free-free_loop n (add32 f 1) (free_frame f s) g (omega arith),
  free-free_frame f s g,
  total-free_frame f s,
)

free_loop-IsValid :
    (n f : ℕ) (s : Pmm) → IsValid s → f + n ≤ s.total_frames → IsValid (free_loop n f s)
unfolding free_loop
free_loop-IsValid zero f s v h = v
free_loop-IsValid (suc n) f s v h =
    let step : add32 f 1 ≡ f + 1 = omega (arith, v.few) in
    free_loop-IsValid n (add32 f 1) (free_frame f s) (free_frame-IsValid f s v (omega arith))
      (omega (arith, total-free_frame f s))

pub free-reserve_block :
    (address size : ℕ) (s : Pmm) (g : ℕ)
    → address < 2 ^ 32
    → size + 4095 < 2 ^ 32
    → is_frame_free (reserve_block address size s) g
      ≡ (is_frame_free s g && not (in_range (address / 4096) ((size + 4095) / 4096) g))
unfolding reserve_block
free-reserve_block address size s g a z =
    ground (arith, free-reserve_loop (add32 size 4095 / 4096) (address / 4096) s g (omega arith))

pub reserve_block-IsValid :
    (address size : ℕ) (s : Pmm) → IsValid s → IsValid (reserve_block address size s)
unfolding reserve_block
reserve_block-IsValid address size s =
    reserve_loop-IsValid (add32 size 4095 / 4096) (address / 4096) s

-- `pmm_reserve_block` keeps the invariant and takes exactly the frames of the range, whole pages up
-- from the page of the address, if neither the address nor the rounded size overflows.
pub reserve_block_lem :
    (address size : ℕ) (s : Pmm)
    → address < 2 ^ 32
    → size + 4095 < 2 ^ 32
    → IsValid s
    → IsValid (reserve_block address size s)
      × ((g : ℕ)
          → is_frame_free (reserve_block address size s) g
            ≡ (is_frame_free s g && not (in_range (address / 4096) ((size + 4095) / 4096) g)))
reserve_block_lem address size s a z v =
    (reserve_block-IsValid address size s v, λ g. free-reserve_block address size s g a z)

-- `pmm_free_block` panics exactly when the first frame is free already. Otherwise the frames of the
-- range become free, no other frame changes, and the invariant is kept, if the range lies in the
-- memory of the machine.
pub free_block_lem :
    (address n : ℕ) (s : Pmm)
    → IsValid s
    → address / 4096 + n ≤ s.total_frames
    → ((is_frame_free s (address / 4096) ≡ true) × (free_block address n s ≡ none))
      ⊎ ((t : Pmm) × (is_frame_free s (address / 4096) ≡ false)
          × (free_block address n s ≡ some t)
          × IsValid t
          × ((g : ℕ) → is_frame_free t g ≡ (is_frame_free s g || in_range (address / 4096) n g)))
unfolding free_block
free_block_lem address n s v h = elim (Bool-cases (is_frame_free s (address / 4096))) [
  | inl free ↦ inl (free, rw free)
  | inr used ↦ inr (
    free_loop n (address / 4096) s,
    used,
    rw used,
    free_loop-IsValid n (address / 4096) s v h,
    λ g. ground (arith, v.few, free-free_loop n (address / 4096) s g (omega (arith, v.few))),
  )
]
