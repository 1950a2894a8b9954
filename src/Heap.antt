-- ===== src/Heap.antt =====
-- memory/heap/heap.c: the kernel heap, a list of blocks in the memory from 4 MB to 8 MB. The header
-- of a block at `p` is two words: size and free flag at `p`, the next block at `p + 4`.
pub mod Chain
pub mod Alloc
pub mod Malloc
pub mod Merge
pub mod Freed
pub mod Free
pub mod Roundtrip
pub mod Aligned
pub mod Faults
mod Tests
use benmosh_os.Cpu.{irq_save, irq_restore}
use benmosh_os.Prelude.{
  ℕ, zero, suc, ◌+◌, ◌-◌, ◌%◌, Bool, true, false, Option, none, some, ◌&&◌, ◌||◌, not, bit_and, leb,
  ltb, ◌==◌, if◌then◌else◌, update, add32, sub32,
}

abbrev pub heap_start : ℕ
heap_start = 0x400000

abbrev pub heap_size : ℕ
heap_size = 0x400000

abbrev pub heap_end : ℕ
heap_end = 0x800000

-- The word at each address, and the interrupt flag.
abbrev pub Mem : Type 0
Mem = ℕ → ℕ

pub record Machine : Type 0 where
  pub mem : Mem
  pub irq : Bool

-- What a run comes to: a result, a kernel panic, or the end of the rounds given.
pub data Run {ℓ} (A : Type ℓ) : Type ℓ where
  ok : A → Run A
  panic : Run A
  out_of_fuel : Run A

-- `x & ~1`, `x & 1` and `x | 1`
abbrev pub size_of : ℕ → ℕ
size_of x = x - x % 2

abbrev pub free_bit : ℕ → Bool
free_bit x = x % 2 == 1

abbrev pub set_free : ℕ → ℕ
set_free x = x - x % 2 + 1

-- The address of the field `next`.
abbrev pub next_field : ℕ → ℕ
next_field p = p + 4

-- More rounds than the heap has room for headers.
abbrev pub max_blocks : ℕ
max_blocks = 524289

pub heap_init : Mem → Mem
heap_init m = update (update m heap_start (set_free (heap_size - 8))) (next_field heap_start) 0

-- The request, rounded up to a multiple of 4.
pub round_up : ℕ → ℕ
round_up size = if size % 4 == 0 then size else add32 size (4 - size % 4)

-- The free block at `p` becomes used, cut in two if what is left over has room for a block.
pub take_block : ℕ → ℕ → Mem → Mem
take_block size p m =
    let current_size = size_of (m p) in
    let new_block = add32 (add32 p size) 8 in
    let used = update m p (size_of (m p)) in
    if leb 24 (current_size - size)
    then update
        (update
          (update (update used new_block (set_free (current_size - size - 8)))
            (next_field new_block) (m (next_field p)))
          p size)
        (next_field p) new_block
    else used

-- The loop of `kmalloc`: the first free block that is large enough.
pub alloc_loop : ℕ → ℕ → ℕ → Mem → Run (ℕ × Mem)
alloc_loop zero size p m = out_of_fuel
alloc_loop (suc rounds) size p m =
    let rest = alloc_loop rounds size (m (next_field p)) m in
    if p == 0
    then ok (0, m)
    else if free_bit (m p) && leb size (size_of (m p))
    then ok (add32 p 8, take_block size p m)
    else rest

-- A result is handed back once `irq_restore` has put the flags back.
pub give_pointer : Bool → Bool → Run (ℕ × Mem) → Run (ℕ × Machine)
unfolding irq_restore
give_pointer flags irq (ok (p, m)) = ok (p, record { mem = m; irq = irq_restore flags irq })
give_pointer flags irq panic = panic
give_pointer flags irq out_of_fuel = out_of_fuel

pub kmalloc : ℕ → Machine → Run (ℕ × Machine)
unfolding irq_save give_pointer
kmalloc requested_size h =
    let (flags, irq) = irq_save h.irq in
    give_pointer flags irq (alloc_loop max_blocks (round_up requested_size) heap_start h.mem)

-- Forward merge: with the block after, if that is free.
pub merge_next : ℕ → Mem → Mem
merge_next p m =
    let q = m (next_field p) in
    if q == 0
    then m
    else if free_bit (m q)
    then update (update m p (set_free (add32 (add32 (size_of (m p)) (size_of (m q))) 8)))
        (next_field p) (m (next_field q))
    else m

-- What the backward search does at the block `p` before the header.
pub merge_into : ℕ → ℕ → Mem → Mem
merge_into p header m =
    if free_bit (m p)
    then update (update m p (set_free (add32 (add32 (size_of (m p)) (size_of (m header))) 8)))
        (next_field p) (m (next_field header))
    else m

-- Backward merge: the search for the block before the header.
pub merge_prev : ℕ → ℕ → ℕ → Mem → Run Mem
merge_prev zero p header m = out_of_fuel
merge_prev (suc rounds) p header m =
    let rest = merge_prev rounds (m (next_field p)) header m in
    if p == 0 || m (next_field p) == 0
    then ok m
    else if m (next_field p) == header
    then ok (merge_into p header m)
    else rest

-- `kfree` past its guards.
pub release : ℕ → Mem → Run Mem
release header m =
    merge_prev max_blocks heap_start header
      (merge_next header (update m header (set_free (m header))))

-- The three guards, each a kernel panic.
pub kfree_guard : ℕ → Mem → Bool
kfree_guard header m =
    ltb header heap_start || leb heap_end header || free_bit (m header) || size_of (m header) == 0

pub give_back : Bool → Bool → Run Mem → Run Machine
unfolding irq_restore
give_back flags irq (ok m) = ok (record { mem = m; irq = irq_restore flags irq })
give_back flags irq panic = panic
give_back flags irq out_of_fuel = out_of_fuel

pub kfree : ℕ → Machine → Run Machine
unfolding irq_save give_back
kfree p h =
    let (flags, irq) = irq_save h.irq in
    let header = sub32 p 8 in
    if p == 0
    then ok h
    else if kfree_guard header h.mem
    then panic
    else give_back flags irq (release header h.mem)

-- `alignment & (alignment - 1)`, with what an unsigned 0 does.
pub bad_alignment : ℕ → Bool
bad_alignment alignment = alignment == 0 || not (bit_and alignment (alignment - 1) == 0)

-- The address goes up to a multiple of the alignment, a power of 2.
pub align_up : ℕ → ℕ → ℕ
align_up raw alignment =
    bit_and (sub32 (add32 raw (add32 alignment 4)) 1) (0xffff_ffff - (alignment - 1))

-- What `kmalloc_aligned` does with the pointer from `kmalloc`: the word before the aligned address
-- keeps it.
pub place_aligned : ℕ → Run (ℕ × Machine) → Run (ℕ × Machine)
place_aligned alignment (ok (raw, h)) =
    let aligned = align_up raw alignment in
    if raw == 0
    then ok (0, h)
    else ok (aligned, record h { mem = update h.mem (sub32 aligned 4) raw })
place_aligned alignment panic = panic
place_aligned alignment out_of_fuel = out_of_fuel

pub kmalloc_aligned : ℕ → ℕ → Machine → Run (ℕ × Machine)
unfolding place_aligned
kmalloc_aligned size alignment h =
    if bad_alignment alignment
    then ok (0, h)
    else place_aligned alignment (kmalloc (add32 size (add32 alignment 4)) h)

pub kfree_aligned : ℕ → Machine → Run Machine
kfree_aligned p h = if p == 0 then ok h else kfree (h.mem (sub32 p 4)) h
