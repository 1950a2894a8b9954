-- ===== src/Pmm/Bitmap.antt =====
-- What marking a frame does to the test of any frame, and to the counters.
use benmosh_os.Prelude.{
  ℕ, ◌/◌, ◌%◌, ◌^◌, ◌<◌, ◌≡◌, refl, true, false, bit_and, bit_or, ◌&&◌, arith, ltb, ◌==◌,
  if◌then◌else◌,
}
use benmosh_os.Prelude.Bits.{bit, bit-le-one, bit-and, bit-or, bit-pow, bit-mask, bit_and-pow}
use native.Mathlib.Nat.{one-le-pow}
use benmosh_os.Pmm.{Pmm, is_frame_free, mark_used, mark_free, all_but}

-- The test of a bit, by the bit.
pub bit_and-one_at : (w k : ℕ) → (bit_and w (2 ^ k) == 0) ≡ (bit w k == 0)
bit_and-one_at w k = grind (arith, bit_and-pow k w, one-le-pow k 2, bit-le-one k w)

pub is_frame_free_lem :
    (s : Pmm) (f : ℕ)
    → is_frame_free s f ≡ (ltb f s.total_frames && (bit (s.bitmap (f / 32)) (f % 32) == 0))
unfolding is_frame_free
is_frame_free_lem s f = ground (arith, bit_and-one_at (s.bitmap (f / 32)) (f % 32))

bit_or-one_at :
    (w k j : ℕ) → (bit (bit_or w (2 ^ k)) j == 0) ≡ (if j == k then false else bit w j == 0)
bit_or-one_at w k j = ground (arith, bit-or j w (2 ^ k), bit-pow k j, bit-le-one j w)

bit_and-all_but :
    (w k j : ℕ)
    → k < 32
    → j < 32
    → (bit (bit_and w (all_but k)) j == 0) ≡ (if j == k then true else bit w j == 0)
bit_and-all_but w k j h i =
    ground (arith, bit-and j w (all_but k), bit-mask 32 k j h i, bit-le-one j w)

-- After `pmm_mark_used` the frame is in use, and every other frame is as before.
pub free-mark_used :
    (s : Pmm) (f g : ℕ)
    → is_frame_free (mark_used f s) g ≡ (if f == g then false else is_frame_free s g)
unfolding mark_used
free-mark_used s f g = ground (
  arith,
  is_frame_free_lem (mark_used f s) g,
  is_frame_free_lem s g,
  bit_or-one_at (s.bitmap (f / 32)) (f % 32) (g % 32),
)

-- After `pmm_mark_free` the frame is free if the machine has it, and every other is as before.
pub free-mark_free :
    (s : Pmm) (f g : ℕ)
    → is_frame_free (mark_free f s) g ≡ (if f == g then ltb f s.total_frames else is_frame_free s g)
unfolding mark_free
free-mark_free s f g = ground (
  arith,
  is_frame_free_lem (mark_free f s) g,
  is_frame_free_lem s g,
  bit_and-all_but (s.bitmap (f / 32)) (f % 32) (g % 32) (omega arith) (omega arith),
)

-- Neither touches the counters.
pub counters-mark_used :
    (s : Pmm) (f : ℕ)
    → ((mark_used f s).total_frames ≡ s.total_frames)
      × ((mark_used f s).free_frame_count ≡ s.free_frame_count)
unfolding mark_used
counters-mark_used s f = ground arith

pub counters-mark_free :
    (s : Pmm) (f : ℕ)
    → ((mark_free f s).total_frames ≡ s.total_frames)
      × ((mark_free f s).free_frame_count ≡ s.free_frame_count)
unfolding mark_free
counters-mark_free s f = ground arith

-- The test reads only the bitmap and the number of frames.
pub free-count :
    (s : Pmm) (n g : ℕ) → is_frame_free (record s { free_frame_count = n }) g ≡ is_frame_free s g
unfolding is_frame_free
free-count s n g = refl

pub lt-total : (s : Pmm) (f : ℕ) → is_frame_free s f ≡ true → f < s.total_frames
lt-total s f h = ground (arith, is_frame_free_lem s f)
