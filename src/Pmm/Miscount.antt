-- ===== src/Pmm/Miscount.antt =====
-- How far the count of free frames that `pmm_init` of memory/pmm/pmm.c leaves is from the bitmap, when a frame lies in
-- several usable regions of the memory map.
use benmosh_os.Prelude.{
  ℕ, zero, suc, ◌+◌, ◌-◌, ◌/◌, ◌%◌, ◌^◌, ◌<◌, ◌≡◌, ap, ◌∙◌, arith, ltb, ◌==◌, if◌then◌else◌,
  Bool-cases, inl, inr, add32, sub32, List, [], ◌∷◌,
}
use benmosh_os.Pmm.{
  Pmm, is_frame_free, mark_used, MemorymapEntry, reserve_frame, reserve_loop, reserve_block,
  init_frame, init_loop, init_entry, init_entries, all_used, init,
}
use benmosh_os.Pmm.Bitmap.{
  free-mark_used, counters-mark_used, counters-mark_free, lt-total, free-count,
}
use benmosh_os.Pmm.Count.{count_below, count_below-same, count_below-suc}
use benmosh_os.Pmm.Blocks.{in_range}
use benmosh_os.Pmm.Regions.{covers, usable, AllLow, freed_for, freed_for-covers, freed_by-usable}
use benmosh_os.Pmm.Init.{
  no_frames, total-init_frame, free-init_entries, total-init_entries, free-init_entry,
  free-all_used,
}

-- The frames of the machine in each usable region, added up region by region.
unfoldable pub region_frames : ℕ → List MemorymapEntry → ℕ
region_frames total [] = 0
region_frames total (e ∷ es) =
    if e.length == 0 then 0 else count_below total (covers e) + region_frames total es

-- The count is `k` more than the free frames, as a word of 32 bits.
abbrev Off : ℕ → Pmm → Type 0
Off k s = s.free_frame_count ≡ (k + count_below s.total_frames (is_frame_free s)) % 2 ^ 32

Off-reserve_frame : (k f : ℕ) (s : Pmm) → Off k s → Off k (reserve_frame f s)
unfolding reserve_frame
Off-reserve_frame k f s off = elim (Bool-cases (is_frame_free s f)) [
  | inr used ↦ rw used off
  | inl free ↦ rw free (
      ground (
        arith,
        off,
        counters-mark_used s f,
        count_below-suc
            (is_frame_free (record (mark_used f s) {
              free_frame_count = sub32 (mark_used f s).free_frame_count 1;
            }))
            (is_frame_free s) s.total_frames f (lt-total s f free)
            (ground (
              arith,
              free-count (mark_used f s) (sub32 (mark_used f s).free_frame_count 1) f,
              free-mark_used s f f,
            ))
            free
            (λ i h d. ground (
              arith,
              free-count (mark_used f s) (sub32 (mark_used f s).free_frame_count 1) i,
              free-mark_used s f i,
            )),
      ))
]

Off-reserve_loop : (k n f : ℕ) (s : Pmm) → Off k s → Off k (reserve_loop n f s)
unfolding reserve_loop
Off-reserve_loop k zero f s off = off
Off-reserve_loop k (suc n) f s off =
    Off-reserve_loop k n (add32 f 1) (reserve_frame f s) (Off-reserve_frame k f s off)

Off-reserve_block : (k address size : ℕ) (s : Pmm) → Off k s → Off k (reserve_block address size s)
unfolding reserve_block
Off-reserve_block k address size s off =
    Off-reserve_loop k (add32 size 4095 / 4096) (address / 4096) s off

-- A run of frames with one more in front.
count-in_range :
    (total f n : ℕ)
    → count_below total (in_range f (suc n))
      ≡ (if ltb f total then 1 else 0) + count_below total (in_range (f + 1) n)
count-in_range total f n = elim (Bool-cases (ltb f total)) [
  | inl inside ↦ ground (
    arith,
    inside,
    count_below-suc (in_range (f + 1) n) (in_range f (suc n)) total f (ground (arith, inside))
        (ground arith) (ground arith) (λ i h d. ground (arith, d)),
  )
  | inr outside ↦ ground (
    arith,
    outside,
    count_below-same (in_range f (suc n)) (in_range (f + 1) n) total
        (λ i h. ground (arith, h, outside)),
  )
]

init_frame-count :
    (f : ℕ) (s : Pmm)
    → (init_frame f s).free_frame_count % 2 ^ 32
      ≡ (s.free_frame_count + (if ltb f s.total_frames then 1 else 0)) % 2 ^ 32
unfolding init_frame
init_frame-count f s = ground (arith, counters-mark_free s f)

init_loop-count :
    (n f : ℕ) (s : Pmm)
    → f + n < 2 ^ 32
    → (init_loop n f s).free_frame_count % 2 ^ 32
      ≡ (s.free_frame_count + count_below s.total_frames (in_range f n)) % 2 ^ 32
unfolding init_loop
init_loop-count zero f s h =
    omega (arith, no_frames s.total_frames (in_range f 0) (λ g. ground arith))
init_loop-count (suc n) f s h =
    let next : add32 f 1 ≡ f + 1 = omega (arith, h) in
    let rest = init_loop-count n (f + 1) (init_frame f s) (omega (arith, h)) in
    let same = ap (λ t. count_below t (in_range (f + 1) n)) (total-init_frame f s) in
    rw (init_loop, next)
      (omega (arith, rest, same, init_frame-count f s, count-in_range s.total_frames f n))

init_entry-count :
    (e : MemorymapEntry) (s : Pmm)
    → (init_entry e s).free_frame_count % 2 ^ 32
      ≡ (s.free_frame_count + count_below s.total_frames (freed_for e)) % 2 ^ 32
unfolding init_entry
init_entry-count e s =
    let f = e.base % 2 ^ 32 / 4096 in
    let n = e.length % 2 ^ 32 / 4096 in
    elim (Bool-cases (e.kind == 1)) [
      | inl ram ↦
          let same =
            count_below-same (in_range f n) (freed_for e) s.total_frames
              (λ i h. ground (arith, ram)) in
          rw ram
            (init_loop-count n f s (omega arith) ∙ ap (λ c. (s.free_frame_count + c) % 2 ^ 32) same)
      | inr other ↦
          let none_freed = no_frames s.total_frames (freed_for e) (λ g. ground (arith, other)) in
          rw other (omega (arith, none_freed))
    ]

init_entries-count :
    (es : List MemorymapEntry) (s : Pmm)
    → AllLow es
    → (init_entries es s).free_frame_count % 2 ^ 32
      ≡ (s.free_frame_count + region_frames s.total_frames es) % 2 ^ 32
unfolding init_entries region_frames
init_entries-count [] s low = omega arith
init_entries-count (e ∷ es) s (low, lows) = elim (Bool-cases (e.length == 0)) [
  | inl last ↦ rw last (omega arith)
  | inr more ↦
      let rest = init_entries-count es (init_entry e s) lows in
      let total = ap (λ t. region_frames t es) (free-init_entry e s 0).1 in
      let here =
        count_below-same (freed_for e) (covers e) s.total_frames
          (λ i h. freed_for-covers e i low) in
      rw more (omega (arith, rest, total, here, init_entry-count e s))
]

init_loop-small :
    (n f : ℕ) (s : Pmm) → s.free_frame_count < 2 ^ 32 → (init_loop n f s).free_frame_count < 2 ^ 32
unfolding init_loop init_frame
init_loop-small zero f s h = h
init_loop-small (suc n) f s h =
    init_loop-small n (add32 f 1) (init_frame f s) (ground (arith, h, counters-mark_free s f))

init_entries-small :
    (es : List MemorymapEntry) (s : Pmm)
    → s.free_frame_count < 2 ^ 32
    → (init_entries es s).free_frame_count < 2 ^ 32
unfolding init_entries init_entry
init_entries-small [] s h = h
init_entries-small (e ∷ es) s h = elim (Bool-cases (e.length == 0)) [
  | inl last ↦ rw last h
  | inr more ↦ elim (Bool-cases (e.kind == 1)) [
    | inl ram ↦ rw (more, ram) (init_entries-small es _ (init_loop-small _ _ s h))
    | inr other ↦ rw (more, other) (init_entries-small es s h)
  ]
]

init_entries-Off :
    (es : List MemorymapEntry) (s : Pmm) (k : ℕ)
    → AllLow es
    → region_frames s.total_frames es ≡ k + count_below s.total_frames (usable es)
    → Off k (init_entries es (all_used s))
unfolding all_used
init_entries-Off es s k low listed =
    let t = init_entries es (all_used s) in
    let total = total-init_entries es (all_used s) in
    let free = count_below-same (is_frame_free t) (usable es) s.total_frames (λ i h. ground (
      arith,
      h,
      free-init_entries es (all_used s) i,
      free-all_used s i,
      freed_by-usable es i low,
    )) in
    let real = ap (λ n. count_below n (is_frame_free t)) total ∙ free in
    rw real (
      omega (
        arith,
        listed,
        init_entries-count es (all_used s) low,
        init_entries-small es (all_used s) (omega arith),
      ))

-- `pmm_init` counts a frame once for each usable region that it lies in. On a memory map whose usable regions end below
-- 4 GB and begin at a page: if the frames of the machine in each usable region, added up region by region, are `k` more
-- than the frames that lie in any, then the count that `pmm_init` leaves is `k` more than the free frames of the bitmap,
-- as a word of 32 bits.
pub init-Off :
    (kernel_end : ℕ) (es : List MemorymapEntry) (s : Pmm) (k : ℕ)
    → AllLow es
    → region_frames s.total_frames es ≡ k + count_below s.total_frames (usable es)
    → let t = init kernel_end es s in
      t.free_frame_count ≡ (k + count_below t.total_frames (is_frame_free t)) % 2 ^ 32
unfolding init
init-Off kernel_end es s k low listed = elim (Bool-cases (ltb 0x100000 kernel_end)) [
  | inl spills ↦ rw spills (
      Off-reserve_block k 0x400000 0x400000 _ (
        Off-reserve_block k 0x100000 (kernel_end - 0x100000) _
          (Off-reserve_block k 0 0x100000 _ off)))
  | inr fits ↦
      rw fits (Off-reserve_block k 0x400000 0x400000 _ (Off-reserve_block k 0 0x100000 _ off))
]
  where
    off : Off k (init_entries es (all_used s))
    off = init_entries-Off es s k low listed
