-- ===== src/Heap/Tests.antt =====
-- Runs of the heap on small inputs, and the theorems at concrete heaps.
use benmosh_os.Prelude.{
  ℕ, ◌+◌, ◌-◌, ◌^◌, ◌≡◌, refl, true, false, List, [], ◌∷◌, arith, some, inr, update,
}
use benmosh_os.Heap.{
  Mem, Machine, ok, panic, heap_start, heap_size, heap_init, round_up, kmalloc, kfree,
  kmalloc_aligned,
}
use benmosh_os.Heap.Chain.{Block, Chain, span, heap_init-Chain}
use benmosh_os.Heap.Alloc.{first_fit, cut}
use benmosh_os.Heap.Malloc.{Mallocs, kmalloc-Mallocs}
use benmosh_os.Heap.Free.{Frees, kfree-Frees}
use benmosh_os.Heap.Roundtrip.{RoundTrip, kmalloc-kfree}
use benmosh_os.Heap.Aligned.{AlignedMallocs, kmalloc_aligned-AlignedMallocs}
use benmosh_os.Heap.Faults.{kmalloc-kfree-panic}

abbrev zeroed : Mem
zeroed = λ a. 0

abbrev fresh : Machine
fresh = record { mem = heap_init zeroed; irq = true }

abbrev fresh_blocks : List Block
fresh_blocks = (heap_size - 8, true) ∷ []

abbrev rest_size : ℕ
rest_size = 0x400000 - 8 - 8 - 104

-- One block of 104 bytes in use, and the rest free.
abbrev one_used : Machine
one_used = record {
  mem =
      update
        (update (update (update zeroed heap_start 104) (heap_start + 4) (heap_start + 112))
          (heap_start + 112) (rest_size + 1))
        (heap_start + 116) 0;
  irq = true;
}

abbrev one_used_blocks : List Block
one_used_blocks = (104, false) ∷ (rest_size, true) ∷ []

one_used-Chain : Chain one_used.mem heap_start one_used_blocks
one_used-Chain = omega arith

round_up_runs : round_up 101 ≡ 104
unfolding round_up
round_up_runs = refl

round_up_wraps_to_zero : round_up 0xffff_ffff ≡ 0
unfolding round_up
round_up_wraps_to_zero = refl

first_fit_runs : first_fit 104 heap_start fresh_blocks ≡ some (heap_start, one_used_blocks)
unfolding first_fit cut
first_fit_runs = refl

kmalloc-Mallocs_example :
    Mallocs 101 fresh fresh_blocks
      (first_fit (round_up 101) heap_start fresh_blocks)
      (kmalloc 101 fresh)
kmalloc-Mallocs_example =
    kmalloc-Mallocs 101 fresh fresh_blocks (heap_init-Chain zeroed) (omega arith)

kfree-Frees_example :
    Frees one_used [] 104 ((rest_size, true) ∷ []) (kfree (heap_start + span [] + 8) one_used)
kfree-Frees_example =
    kfree-Frees one_used [] 104 ((rest_size, true) ∷ []) one_used-Chain (omega arith)

kmalloc-kfree_example : RoundTrip 101 fresh fresh_blocks (heap_start + 8)
kmalloc-kfree_example =
    kmalloc-kfree 101 fresh fresh_blocks (omega arith) (omega arith) (refl, tt)
      (heap_init-Chain zeroed) heap_start one_used_blocks found
  where
    found : first_fit (round_up 101) heap_start fresh_blocks ≡ some (heap_start, one_used_blocks)
    found = rw round_up_runs first_fit_runs

kmalloc_aligned-AlignedMallocs_example :
    AlignedMallocs 4096
      (2 ^ 4)
      fresh
      fresh_blocks
      (first_fit (round_up (4096 + 2 ^ 4 + 4)) heap_start fresh_blocks)
      (kmalloc_aligned 4096 (2 ^ 4) fresh)
kmalloc_aligned-AlignedMallocs_example =
    kmalloc_aligned-AlignedMallocs 4096 4 fresh fresh_blocks (heap_init-Chain zeroed) (omega arith)

kmalloc-kfree-panic_example :
    (m : Mem) × (kmalloc 0xffff_ffff fresh ≡ ok (heap_start + 8, record { mem = m; irq = true }))
    × (kfree (heap_start + 8) (record { mem = m; irq = true }) ≡ panic)
kmalloc-kfree-panic_example =
    kmalloc-kfree-panic 0xffff_ffff fresh (heap_size - 8) [] (inr (omega arith, omega arith))
      (omega arith) (heap_init-Chain zeroed)
