-- ===== src/Pmm/Init.antt =====
-- `pmm_init`: which frames are free once the memory map is read and the kernel's own are reserved.
use benmosh_os.Prelude.{
  ℕ, zero, suc, ◌+◌, ◌-◌, ◌/◌, ◌%◌, ◌^◌, ◌<◌, ◌≤◌, ◌≡◌, refl, sym, Bool, true, false, not, ◌&&◌,
  ◌||◌, arith, ltb, ◌==◌, Bool-cases, inl, inr, add32, List, [], ◌∷◌,
}
use benmosh_os.Prelude.Bits.{bit-ones}
use benmosh_os.Pmm.{
  Pmm, is_frame_free, mark_free, MemorymapEntry, init_frame, init_loop, init_entry, init_entries,
  all_used, init, reserve_block,
}
use benmosh_os.Pmm.Bitmap.{
  free-mark_free, counters-mark_free, lt-total, free-count, is_frame_free_lem,
}
use benmosh_os.Pmm.Count.{count_below}
use benmosh_os.Pmm.Invariant.{IsValid, freed-IsValid}
use benmosh_os.Pmm.Blocks.{in_range, free-reserve_block, reserve_block-IsValid}
use benmosh_os.Pmm.Regions.{
  usable, Apart, AllLow, freed_for, freed_by, Separate, freed_by-usable, Apart-Separate,
}

pub free-all_used : (s : Pmm) (g : ℕ) → is_frame_free (all_used s) g ≡ false
unfolding all_used
free-all_used s g =
    ground (arith, is_frame_free_lem (all_used s) g, bit-ones 32 (g % 32) (omega arith))

pub total-all_used : (s : Pmm) → (all_used s).total_frames ≡ s.total_frames
unfolding all_used
total-all_used s = refl

pub no_frames : (n : ℕ) (p : ℕ → Bool) → ((g : ℕ) → p g ≡ false) → count_below n p ≡ 0
unfolding count_below
no_frames zero p none_free = refl
no_frames (suc n) p none_free = ground (arith, none_free n, no_frames n p none_free)

pub all_used-IsValid : (s : Pmm) → s.total_frames ≤ 1048576 → IsValid (all_used s)
unfolding all_used
all_used-IsValid s few = record {
  words = λ w. omega arith;
  few = few;
  counted = sym (no_frames s.total_frames (is_frame_free (all_used s)) (free-all_used s));
  summarised = λ w. bit-ones 32 (w % 32) (omega arith);
}

free-init_frame :
    (f : ℕ) (s : Pmm) (g : ℕ)
    → is_frame_free (init_frame f s) g ≡ (is_frame_free s g || (f == g && ltb g s.total_frames))
unfolding init_frame
free-init_frame f s g = ground (
  arith,
  free-count (mark_free f s) (add32 (mark_free f s).free_frame_count 1) g,
  free-mark_free s f g,
  lt-total s g,
)

pub total-init_frame : (f : ℕ) (s : Pmm) → (init_frame f s).total_frames ≡ s.total_frames
unfolding init_frame
total-init_frame f s = ground (arith, counters-mark_free s f)

init_frame-IsValid :
    (f : ℕ) (s : Pmm) → IsValid s → is_frame_free s f ≡ false → IsValid (init_frame f s)
unfolding init_frame
init_frame-IsValid f s v used = elim (Bool-cases (ltb f s.total_frames)) [
  | inl inside ↦ rw inside (freed-IsValid s f v (ground arith) used)
  | inr outside ↦ rw outside v
]

free-init_loop :
    (n f : ℕ) (s : Pmm) (g : ℕ)
    → f + n < 2 ^ 32
    → (is_frame_free (init_loop n f s) g
        ≡ (is_frame_free s g || (in_range f n g && ltb g s.total_frames)))
      × ((init_loop n f s).total_frames ≡ s.total_frames)
unfolding init_loop
free-init_loop zero f s g h = (ground arith, refl)
free-init_loop (suc n) f s g h = ground (
  arith,
  free-init_loop n (add32 f 1) (init_frame f s) g (omega arith),
  free-init_frame f s g,
  total-init_frame f s,
)

init_loop-IsValid :
    (n f : ℕ) (s : Pmm)
    → f + n < 2 ^ 32
    → IsValid s
    → ((g : ℕ) → in_range f n g ≡ true → is_frame_free s g ≡ false)
    → IsValid (init_loop n f s)
unfolding init_loop
init_loop-IsValid zero f s h v used = v
init_loop-IsValid (suc n) f s h v used =
    init_loop-IsValid n (add32 f 1) (init_frame f s) (omega arith)
      (init_frame-IsValid f s v (used f (ground arith)))
      (λ g i. ground (arith, used g (ground arith), free-init_frame f s g))

module _ (e : MemorymapEntry) (s : Pmm) where
  pub free-init_entry :
      (g : ℕ)
      → (is_frame_free (init_entry e s) g
          ≡ (is_frame_free s g || (freed_for e g && ltb g s.total_frames)))
        × ((init_entry e s).total_frames ≡ s.total_frames)
  unfolding init_entry
  free-init_entry g =
      ground (
        arith,
        free-init_loop (e.length % 2 ^ 32 / 4096) (e.base % 2 ^ 32 / 4096) s g (omega arith),
      )

  init_entry-IsValid :
      IsValid s
      → ((g : ℕ) → freed_for e g ≡ true → is_frame_free s g ≡ false)
      → IsValid (init_entry e s)
  unfolding init_entry
  init_entry-IsValid v used = elim (Bool-cases (e.kind == 1)) [
    | inl ram ↦ rw ram (
        init_loop-IsValid (e.length % 2 ^ 32 / 4096) (e.base % 2 ^ 32 / 4096) s (omega arith) v
          (λ g i. used g (ground arith)))
    | inr other ↦ rw other v
  ]

pub free-init_entries :
    (es : List MemorymapEntry) (s : Pmm) (g : ℕ)
    → is_frame_free (init_entries es s) g
      ≡ (is_frame_free s g || (freed_by es g && ltb g s.total_frames))
unfolding init_entries freed_by
free-init_entries [] s g = ground arith
free-init_entries (e ∷ es) s g =
    ground (arith, free-init_entries es (init_entry e s) g, free-init_entry e s g)

init_entries-IsValid :
    (es : List MemorymapEntry) (s : Pmm)
    → IsValid s
    → Separate es
    → ((g : ℕ) → freed_by es g ≡ true → is_frame_free s g ≡ false)
    → IsValid (init_entries es s)
unfolding init_entries freed_by
init_entries-IsValid [] s v apart used = v
init_entries-IsValid (e ∷ es) s v (first, others) used = elim (Bool-cases (e.length == 0)) [
  | inl last ↦ rw last v
  | inr more ↦ rw more (
      init_entries-IsValid es (init_entry e s)
        (init_entry-IsValid e s v (λ g i. used g (ground arith))) others
        (λ g i. ground (arith, used g, first g, free-init_entry e s g)))
]

-- The reserved frames: the first megabyte, the kernel behind it, and the heap from 4 MB to 8 MB.
abbrev pub reserved : ℕ → ℕ → Bool
reserved kernel_end g =
    ltb g 256 || in_range 256 ((kernel_end - 0x100000 + 4095) / 4096) g || in_range 1024 1024 g

pub total-init_entries :
    (es : List MemorymapEntry) (s : Pmm) → (init_entries es s).total_frames ≡ s.total_frames
unfolding init_entries
total-init_entries [] s = refl
total-init_entries (e ∷ es) s =
    ground (arith, total-init_entries es (init_entry e s), free-init_entry e s 0)

module _ (kernel_end : ℕ) (es : List MemorymapEntry) (s : Pmm) (h : kernel_end < 2 ^ 32)
    (low_map : AllLow es) where
  -- On a memory map whose usable regions end below 4 GB and begin at a page, and with a kernel below 4 GB, after
  -- `pmm_init` a frame is free exactly when the machine has it, all its bytes lie in a usable region of the map before
  -- its end, and it is not reserved for the first megabyte, the kernel or the heap.
  pub free-init :
      (g : ℕ)
      → is_frame_free (init kernel_end es s) g
        ≡ (ltb g s.total_frames && usable es g && not (reserved kernel_end g))
  unfolding init
  free-init g = elim (Bool-cases (ltb 0x100000 kernel_end)) [
    | inl spills ↦ rw spills (
        ground (
          arith,
          after_map,
          free-reserve_block 0x400000 0x400000 (reserve_block 0x100000 (kernel_end - 0x100000) low)
              g (omega arith) (omega arith),
          free-reserve_block 0x100000 (kernel_end - 0x100000) low g (omega arith) (omega arith),
        ))
    | inr fits ↦ rw fits (
        ground (
          arith,
          after_map,
          free-reserve_block 0x400000 0x400000 low g (omega arith) (omega arith),
        ))
  ]
    where
      low : Pmm
      low = reserve_block 0 0x100000 (init_entries es (all_used s))

      after_map : is_frame_free low g ≡ (usable es g && ltb g s.total_frames && not (ltb g 256))
      after_map = ground (
        arith,
        free-reserve_block 0 0x100000 (init_entries es (all_used s)) g (omega arith) (omega arith),
        free-init_entries es (all_used s) g,
        free-all_used s g,
        total-all_used s,
        freed_by-usable es g low_map,
      )

  -- On a memory map whose usable regions end below 4 GB, begin at a page and share no frame, with a kernel below 4 GB and
  -- at most 4 GB of frames, `pmm_init` establishes the invariant, its count of free frames with it.
  pub init-IsValid : s.total_frames ≤ 1048576 → Apart es → IsValid (init kernel_end es s)
  unfolding init
  init-IsValid few apart = elim (Bool-cases (ltb 0x100000 kernel_end)) [
    | inl spills ↦ rw spills (
        reserve_block-IsValid 0x400000 0x400000 _
          (reserve_block-IsValid 0x100000 (kernel_end - 0x100000) _ low))
    | inr fits ↦ rw fits (reserve_block-IsValid 0x400000 0x400000 _ low)
  ]
    where
      low : IsValid (reserve_block 0 0x100000 (init_entries es (all_used s)))
      low = reserve_block-IsValid 0 0x100000 _ (
          init_entries-IsValid es (all_used s) (all_used-IsValid s few)
            (Apart-Separate es low_map apart) (λ g i. free-all_used s g))
