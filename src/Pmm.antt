-- ===== src/Pmm.antt =====
-- memory/pmm/pmm.c: the physical memory manager. A frame is 4 KB of physical memory; `bitmap` has
-- one bit for each frame, set while it is in use, and `summary_bitmap` one bit for each full word.
mod Count
pub mod Bitmap
pub mod Invariant
pub mod Blocks
pub mod Alloc
pub mod Regions
pub mod Init
pub mod Miscount
pub mod Faults
mod Tests
use benmosh_os.Prelude.{
  ℕ, zero, suc, ◌+◌, ◌-◌, ◌*◌, ◌/◌, ◌%◌, ◌^◌, Bool, true, false, Option, none, some, List, [], ◌∷◌,
  bit_and, bit_or, leb, ltb, ◌==◌, if◌then◌else◌, update, add32, sub32,
}

-- The globals of the file. An array is a function of its index.
pub record Pmm : Type 0 where
  pub bitmap : ℕ → ℕ
  pub summary_bitmap : ℕ → ℕ
  pub free_frame_count : ℕ
  pub total_frames : ℕ

abbrev pub full_word : ℕ
full_word = 0xffff_ffff

-- `1U << bit` and `~(1U << bit)`
abbrev pub one_at : ℕ → ℕ
one_at b = 2 ^ b

abbrev pub all_but : ℕ → ℕ
all_but b = 2 ^ 32 - 1 - 2 ^ b

pub is_frame_free : Pmm → ℕ → Bool
is_frame_free s frame =
    if leb s.total_frames frame
    then false
    else bit_and (s.bitmap (frame / 32)) (one_at (frame % 32)) == 0

-- `word` of the summary is set when all of its 32 frames are in use.
fill_summary : ℕ → Pmm → Pmm
fill_summary word s =
    if s.bitmap word == full_word
    then record s {
      summary_bitmap =
          update s.summary_bitmap (word / 32)
            (bit_or (s.summary_bitmap (word / 32)) (one_at (word % 32)));
    }
    else s

pub mark_used : ℕ → Pmm → Pmm
unfolding fill_summary
mark_used frame s =
    if leb s.total_frames frame
    then s
    else fill_summary (frame / 32) (record s {
      bitmap = update s.bitmap (frame / 32) (bit_or (s.bitmap (frame / 32)) (one_at (frame % 32)));
    })

pub mark_free : ℕ → Pmm → Pmm
mark_free frame s =
    let word = frame / 32 in
    if leb s.total_frames frame then s else record s {
      bitmap = update s.bitmap word (bit_and (s.bitmap word) (all_but (frame % 32)));
      summary_bitmap =
          update s.summary_bitmap (word / 32)
            (bit_and (s.summary_bitmap (word / 32)) (all_but (word % 32)));
    }

-- `free_frame_count++` and `free_frame_count--`
abbrev pub count_up : Pmm → Pmm
count_up s = record s { free_frame_count = add32 s.free_frame_count 1 }

abbrev pub count_down : Pmm → Pmm
count_down s = record s { free_frame_count = sub32 s.free_frame_count 1 }

-- One round of the loop of `pmm_reserve_block`.
pub reserve_frame : ℕ → Pmm → Pmm
reserve_frame frame s = if is_frame_free s frame then count_down (mark_used frame s) else s

pub reserve_loop : ℕ → ℕ → Pmm → Pmm
reserve_loop zero frame s = s
reserve_loop (suc rounds) frame s = reserve_loop rounds (add32 frame 1) (reserve_frame frame s)

pub reserve_block : ℕ → ℕ → Pmm → Pmm
reserve_block physical_address size s =
    reserve_loop (add32 size 4095 / 4096) (physical_address / 4096) s

-- One round of the loop of `pmm_free_block`: the guard against a double free skips the frame.
pub free_frame : ℕ → Pmm → Pmm
free_frame frame s = if is_frame_free s frame then s else count_up (mark_free frame s)

pub free_loop : ℕ → ℕ → Pmm → Pmm
free_loop zero frame s = s
free_loop (suc rounds) frame s = free_loop rounds (add32 frame 1) (free_frame frame s)

-- `none` is the kernel panic.
pub free_block : ℕ → ℕ → Pmm → Option Pmm
free_block physical_address num_frames s =
    if is_frame_free s (physical_address / 4096)
    then none
    else some (free_loop num_frames (physical_address / 4096) s)

-- The two loops of `pmm_alloc_frame`: the first clear bit of the words from `w` on, but that of
-- frame 0. The first argument counts the rounds left.
pub scan_bits : ℕ → ℕ → ℕ → Pmm → Option ℕ
scan_bits zero w b s = none
scan_bits (suc rounds) w b s =
    let rest = scan_bits rounds w (b + 1) s in
    if bit_and (s.bitmap w) (one_at b) == 0
    then (if w * 32 + b == 0 then rest else some (w * 32 + b))
    else rest

pub scan_words : ℕ → ℕ → Pmm → Option ℕ
scan_words zero w s = none
scan_words (suc rounds) w s =
    let rest = scan_words rounds (w + 1) s in
    if s.bitmap w == full_word
    then rest
    else elim (scan_bits 32 w 0 s) [ none ↦ rest | some frame ↦ some frame ]

-- The address of the frame, or 0 when there is none.
pub alloc_frame : Pmm → ℕ × Pmm
alloc_frame s = elim (scan_words 32768 0 s) [
  | none ↦ (0, s)
  | some frame ↦ (frame * 4096 % 2 ^ 32, count_down (mark_used frame s))
]

-- A region of the memory map that the BIOS leaves at 0x5000.
pub record MemorymapEntry : Type 0 where
  pub base : ℕ
  pub length : ℕ
  pub kind : ℕ

-- One round of the inner loop of `pmm_init`: no guard against a frame that is free already.
pub init_frame : ℕ → Pmm → Pmm
init_frame frame s = if ltb frame s.total_frames then count_up (mark_free frame s) else s

pub init_loop : ℕ → ℕ → Pmm → Pmm
init_loop zero frame s = s
init_loop (suc rounds) frame s = init_loop rounds (add32 frame 1) (init_frame frame s)

pub init_entry : MemorymapEntry → Pmm → Pmm
init_entry e s =
    if e.kind == 1 then init_loop (e.length % 2 ^ 32 / 4096) (e.base % 2 ^ 32 / 4096) s else s

-- The walk over the map ends at the first entry of length 0, or with the list.
pub init_entries : List MemorymapEntry → Pmm → Pmm
init_entries [] s = s
init_entries (e ∷ es) s =
    let rest = init_entries es (init_entry e s) in if e.length == 0 then s else rest

pub all_used : Pmm → Pmm
all_used s = record s {
  bitmap = λ _. full_word;
  summary_bitmap = λ _. full_word;
  free_frame_count = 0;
}

-- `pmm_init`: `kernel_end` is the address that the linker gives.
pub init : ℕ → List MemorymapEntry → Pmm → Pmm
init kernel_end entries s =
    let s1 = reserve_block 0 0x100000 (init_entries entries (all_used s)) in
    let s2 =
      if ltb 0x100000 kernel_end then reserve_block 0x100000 (kernel_end - 0x100000) s1 else s1 in
    reserve_block 0x400000 0x400000 s2

-- total, free and used
pub get_stats : Pmm → ℕ × ℕ × ℕ
get_stats s = (s.total_frames, s.free_frame_count, sub32 s.total_frames s.free_frame_count)
