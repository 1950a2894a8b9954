-- ===== src/Pmm/Invariant.antt =====
-- The invariant of the physical memory manager, and that marking keeps it.
use benmosh_os.Prelude.{
  ℕ, ◌/◌, ◌%◌, ◌^◌, ◌<◌, ◌≤◌, ◌≡◌, ◌≢◌, ap, true, false, bit_and, bit_or, arith, ◌==◌,
  if◌then◌else◌, sub32, add32,
}
use benmosh_os.Prelude.Bits.{
  bit, bit-le-one, bit-and, bit-or, bit-pow, bit-mask, bit-ones, eq-ones, bit_and-lt, bit_or-lt,
  two-pow-lt,
}
use benmosh_os.Pmm.{
  Pmm, is_frame_free, mark_used, mark_free, all_but, count_up, count_down, full_word,
}
use benmosh_os.Pmm.Count.{count_below, count_below-le, count_below-suc}
use benmosh_os.Pmm.Bitmap.{
  free-mark_used, free-mark_free, counters-mark_used, counters-mark_free, lt-total, free-count,
}

-- `summary_bitmap` has a bit for each word, set exactly when the word is full.
abbrev pub Summarised : Pmm → ℕ → Type 0
Summarised s w =
    bit (s.summary_bitmap (w / 32)) (w % 32) ≡ (if s.bitmap w == full_word then 1 else 0)

-- The counter is the number of free frames.
abbrev pub Counted : Pmm → Type 0
Counted s = s.free_frame_count ≡ count_below s.total_frames (is_frame_free s)

pub record IsValid (s : Pmm) : Type 0 where
  pub words : (w : ℕ) → s.bitmap w < 2 ^ 32
  pub few : s.total_frames ≤ 1048576
  pub counted : Counted s
  pub summarised : (w : ℕ) → Summarised s w

module _ (s : Pmm) (f : ℕ) (few : s.total_frames ≤ 1048576) (c : Counted s) where
  -- A free frame that is taken.
  pub Counted-used : is_frame_free s f ≡ true → Counted (count_down (mark_used f s))
  Counted-used free = ground (
    arith,
    counters-mark_used s f,
    count_below-le s.total_frames (is_frame_free s),
    count_below-suc (is_frame_free (count_down (mark_used f s))) (is_frame_free s) s.total_frames f
        (lt-total s f free)
        (ground (
          arith,
          free-count (mark_used f s) (sub32 (mark_used f s).free_frame_count 1) f,
          free-mark_used s f f,
        ))
        free
        (λ i h d. ground (
          arith,
          free-count (mark_used f s) (sub32 (mark_used f s).free_frame_count 1) i,
          free-mark_used s f i,
        )),
  )

  -- A frame in use that is given back.
  pub Counted-freed :
      f < s.total_frames → is_frame_free s f ≡ false → Counted (count_up (mark_free f s))
  Counted-freed h used = ground (
    arith,
    counters-mark_free s f,
    count_below-le s.total_frames (is_frame_free (count_up (mark_free f s))),
    count_below-suc (is_frame_free s) (is_frame_free (count_up (mark_free f s))) s.total_frames f h
        used
        (ground (
          arith,
          free-count (mark_free f s) (add32 (mark_free f s).free_frame_count 1) f,
          free-mark_free s f f,
        ))
        (λ i k d. ground (
          arith,
          free-count (mark_free f s) (add32 (mark_free f s).free_frame_count 1) i,
          free-mark_free s f i,
        )),
  )

-- A word is full exactly when all of its bits are set.
words-mark_used :
    (s : Pmm) (f : ℕ)
    → ((w : ℕ) → s.bitmap w < 2 ^ 32)
    → (w : ℕ) → (mark_used f s).bitmap w < 2 ^ 32
unfolding mark_used
words-mark_used s f small w = ground (
  arith,
  small w,
  small (f / 32),
  two-pow-lt (f % 32) 32 (omega arith),
  bit_or-lt 32 (s.bitmap (f / 32)) (2 ^ (f % 32)),
)

words-mark_free :
    (s : Pmm) (f : ℕ)
    → ((w : ℕ) → s.bitmap w < 2 ^ 32)
    → (w : ℕ) → (mark_free f s).bitmap w < 2 ^ 32
unfolding mark_free
words-mark_free s f small w =
    ground (arith, small w, small (f / 32), bit_and-lt 32 (s.bitmap (f / 32)) (all_but (f % 32)))

full_word-or : (k : ℕ) → k < 32 → bit_or full_word (2 ^ k) ≡ full_word
full_word-or k h =
    eq-ones 32 _ (bit_or-lt 32 full_word (2 ^ k) (omega arith) (two-pow-lt k 32 h))
      (λ j i. ground (arith, bit-or j full_word (2 ^ k), bit-ones 32 j i, bit-le-one j (2 ^ k)))

not_full-and : (w k : ℕ) → k < 32 → bit_and w (all_but k) ≢ full_word
not_full-and w k h e =
    ground
      (arith, ap (λ t. bit t k) e, bit-and k w (all_but k), bit-mask 32 k k h h, bit-ones 32 k h)

Summarised-mark_used :
    (s : Pmm) (f w : ℕ) → ((w : ℕ) → Summarised s w) → Summarised (mark_used f s) w
unfolding mark_used
Summarised-mark_used s f w all = ground (
  arith,
  all w,
  all (f / 32),
  full_word-or (f % 32) (omega arith),
  bit-or (w % 32) (s.summary_bitmap (w / 32)) (2 ^ (f / 32 % 32)),
  bit-pow (f / 32 % 32) (w % 32),
  bit-le-one (w % 32) (s.summary_bitmap (w / 32)),
)

Summarised-mark_free :
    (s : Pmm) (f w : ℕ) → ((w : ℕ) → Summarised s w) → Summarised (mark_free f s) w
unfolding mark_free
Summarised-mark_free s f w all = ground (
  arith,
  all w,
  not_full-and (s.bitmap (f / 32)) (f % 32) (omega arith),
  bit-and (w % 32) (s.summary_bitmap (w / 32)) (all_but (f / 32 % 32)),
  bit-mask 32 (f / 32 % 32) (w % 32) (omega arith) (omega arith),
  bit-le-one (w % 32) (s.summary_bitmap (w / 32)),
)

-- Every path that takes or gives back a frame keeps the invariant.
pub used-IsValid :
    (s : Pmm) (f : ℕ) → IsValid s → is_frame_free s f ≡ true → IsValid (count_down (mark_used f s))
used-IsValid s f v free = record {
  words = words-mark_used s f v.words;
  few = ground (arith, counters-mark_used s f, v.few);
  counted = Counted-used s f v.few v.counted free;
  summarised = λ w. Summarised-mark_used s f w v.summarised;
}

pub freed-IsValid :
    (s : Pmm) (f : ℕ)
    → IsValid s
    → f < s.total_frames
    → is_frame_free s f ≡ false
    → IsValid (count_up (mark_free f s))
freed-IsValid s f v h used = record {
  words = words-mark_free s f v.words;
  few = ground (arith, counters-mark_free s f, v.few);
  counted = Counted-freed s f v.few v.counted h used;
  summarised = λ w. Summarised-mark_free s f w v.summarised;
}
