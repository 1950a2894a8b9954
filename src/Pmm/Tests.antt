-- ===== src/Pmm/Tests.antt =====
-- The physical memory manager on a small memory map, and the theorems at concrete states.
use benmosh_os.Prelude.{
  ℕ, ◌+◌, ◌%◌, ◌^◌, ◌≤◌, ◌≡◌, refl, true, false, not, ◌&&◌, ◌||◌, ◌⊎◌, List, [], ◌∷◌, arith, none,
  some, ltb, ◌==◌, if◌then◌else◌, ◌*◌,
}
use benmosh_os.Pmm.{
  Pmm, is_frame_free, mark_free, count_up, all_used, MemorymapEntry, init, free_block, alloc_frame,
  scan_words, scan_bits, mark_used,
}
use benmosh_os.Pmm.Bitmap.{counters-mark_free}
use benmosh_os.Pmm.Invariant.{IsValid, freed-IsValid}
use benmosh_os.Pmm.Alloc.{Allocated, alloc_frame-Allocated}
use benmosh_os.Pmm.Blocks.{in_range, free_block_lem}
use benmosh_os.Pmm.Regions.{usable, Apart, AllLow}
use benmosh_os.Pmm.Count.{count_below}
use benmosh_os.Pmm.Miscount.{region_frames, init-Off}
use benmosh_os.Pmm.Init.{
  reserved, free-init, init-IsValid, all_used-IsValid, free-all_used, total-all_used,
}

abbrev entry : ℕ → ℕ → ℕ → MemorymapEntry
entry base length kind = record { base = base; length = length; kind = kind }

-- 640 KB, a hole, and 127 MB behind the first one.
abbrev map_128 : List MemorymapEntry
map_128 =
    entry 0 0x9fc00 1 ∷ entry 0x9fc00 0x60400 2 ∷ entry 0x100000 0x7ee0000 1 ∷ entry 0 0 0 ∷ []

abbrev boot : Pmm
boot = record {
  bitmap = λ w. 0;
  summary_bitmap = λ w. 0;
  free_frame_count = 0;
  total_frames = 1048576;
}

map_128-AllLow : AllLow map_128
map_128-AllLow = (
  (λ e. (omega arith, refl)),
  (
    (λ e. absurd (omega (arith, e))),
    ((λ e. (omega arith, refl)), ((λ e. absurd (omega (arith, e))), tt)),
  ),
)

map_128-Apart : Apart map_128
unfolding usable
map_128-Apart = (
  (λ g h. ground arith),
  ((λ g h. ground arith), ((λ g h. ground arith), ((λ g h. ground arith), tt))),
)

-- Every frame in use but frame 700.
abbrev one_free : Pmm
one_free = count_up (mark_free 700 (all_used boot))

all_used_total : 1048576 ≤ (all_used boot).total_frames
all_used_total = omega (arith, total-all_used boot)

one_free-IsValid : IsValid one_free
one_free-IsValid =
    freed-IsValid (all_used boot) 700 (all_used-IsValid boot (omega arith))
      (omega (arith, all_used_total)) (free-all_used boot 700)

one_free_total : 1048576 ≤ one_free.total_frames
one_free_total = omega (arith, counters-mark_free (all_used boot) 700, all_used_total)

-- A machine of 40 frames, all but frames 0 and 33 in use.
abbrev small : Pmm
small = record {
  bitmap = λ w. if w == 0 then 0xffff_fffe else if w == 1 then 0xffff_fffd else 0xffff_ffff;
  summary_bitmap = λ w. 0;
  free_frame_count = 2;
  total_frames = 40;
}

alloc_frame_runs : (alloc_frame small).0 ≡ 33 * 4096
unfolding alloc_frame scan_words scan_bits
alloc_frame_runs = refl

alloc_frame_counts : (alloc_frame small).1.free_frame_count ≡ 1
unfolding alloc_frame scan_words scan_bits mark_used
alloc_frame_counts = refl

alloc_frame-Allocated_example : Allocated one_free (alloc_frame one_free)
alloc_frame-Allocated_example = alloc_frame-Allocated one_free one_free-IsValid one_free_total

free_block_lem_example :
    ((is_frame_free one_free 701 ≡ true) × (free_block 0x2bd000 3 one_free ≡ none))
    ⊎ ((t : Pmm) × (is_frame_free one_free 701 ≡ false)
        × (free_block 0x2bd000 3 one_free ≡ some t)
        × IsValid t
        × ((g : ℕ) → is_frame_free t g ≡ (is_frame_free one_free g || in_range 701 3 g)))
free_block_lem_example =
    free_block_lem 0x2bd000 3 one_free one_free-IsValid (omega (arith, one_free_total))

free-init_example :
    is_frame_free (init 0x120000 map_128 boot) 300
    ≡ (ltb 300 1048576 && usable map_128 300 && not (reserved 0x120000 300))
free-init_example = free-init 0x120000 map_128 boot (omega arith) map_128-AllLow 300

init-IsValid_example : IsValid (init 0x120000 map_128 boot)
init-IsValid_example =
    init-IsValid 0x120000 map_128 boot (omega arith) map_128-AllLow (omega arith) map_128-Apart

-- Two usable regions that share frames 16 to 31.
abbrev map_overlap : List MemorymapEntry
map_overlap = entry 0 0x20000 1 ∷ entry 0x10000 0x18000 1 ∷ entry 0 0 0 ∷ []

map_overlap-AllLow : AllLow map_overlap
map_overlap-AllLow = (
  (λ e. (omega arith, refl)),
  ((λ e. (omega arith, refl)), ((λ e. absurd (omega (arith, e))), tt)),
)

map_overlap-frames : region_frames 40 map_overlap ≡ 16 + count_below 40 (usable map_overlap)
unfolding region_frames usable count_below
map_overlap-frames = refl

init-Off_example :
    (init 0x120000 map_overlap small).free_frame_count
    ≡ (16
        + count_below
            (init 0x120000 map_overlap small).total_frames
            (is_frame_free (init 0x120000 map_overlap small)))
      % 2 ^ 32
init-Off_example = init-Off 0x120000 map_overlap small 16 map_overlap-AllLow map_overlap-frames
