-- ===== src/Pmm/Faults.antt =====
-- memory/pmm/pmm.c: a free of a frame that the machine does not have.
use benmosh_os.Prelude.{ℕ, ◌≤◌, ◌≡◌, false, arith, ltb, add32}
use benmosh_os.Pmm.{Pmm, is_frame_free, mark_free, count_up, free_frame}
use benmosh_os.Pmm.Bitmap.{is_frame_free_lem, free-mark_free, counters-mark_free, free-count}
use benmosh_os.Pmm.Count.{count_below-le, count_below-same}
use benmosh_os.Pmm.Invariant.{IsValid}

-- Counting a frame up that was free, or that the machine does not have, changes no bit that counts.
miscount :
    (s : Pmm) (f : ℕ)
    → IsValid s
    → is_frame_free s f ≡ ltb f s.total_frames
    → ¬ IsValid (count_up (mark_free f s))
miscount s f v same w = ground (
  arith,
  v.few,
  v.counted,
  w.counted,
  counters-mark_free s f,
  count_below-le s.total_frames (is_frame_free s),
  count_below-same (is_frame_free (count_up (mark_free f s))) (is_frame_free s) s.total_frames
      (λ i h. ground (
        arith,
        free-count (mark_free f s) (add32 (mark_free f s).free_frame_count 1) i,
        free-mark_free s f i,
      )),
)

-- `pmm_free_block` meets a frame that the machine does not have: its guard against a double free lets
-- the frame pass, and the state is valid no more.
free_frame-miscount :
    (s : Pmm) (f : ℕ) → IsValid s → s.total_frames ≤ f → ¬ IsValid (free_frame f s)
unfolding free_frame
free_frame-miscount s f v beyond =
    let outside : is_frame_free s f ≡ false = ground (arith, is_frame_free_lem s f) in
    rw outside (miscount s f v (ground arith))
