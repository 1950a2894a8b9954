-- ===== src/Heap/Faults.antt =====
-- Requests that `kmalloc` answers with a pointer `kfree` panics on.
use benmosh_os.Prelude.{
  ℕ, ◌+◌, ◌-◌, ◌^◌, ◌<◌, ◌≤◌, ◌≡◌, refl, true, false, List, ◌∷◌, arith, ap, ◌⊎◌, some, inl, inr,
  ◌∙◌, leb,
}
use mathlib.Core.Path.{subst}
use benmosh_os.Heap.{
  Mem, Machine, ok, panic, heap_start, max_blocks, alloc_loop, give_pointer, kmalloc, kfree,
  round_up,
}
use benmosh_os.Heap.Chain.{Block, Chain}
use benmosh_os.Heap.Alloc.{cut, first_fit}
use benmosh_os.Heap.Malloc.{Mallocs, kmalloc-Mallocs}
use benmosh_os.Heap.Free.{kfree-panic}

-- Rounding up wraps, so such a request is taken for one of 0 bytes.
round_up_wraps : (n : ℕ) → 2 ^ 32 - 4 < n → n < 2 ^ 32 → round_up n ≡ round_up 0
unfolding round_up
round_up_wraps n lo hi = ground arith

-- The answer to a request for nothing, when the first block is free and has room for another.
empty_block :
    (h : Machine) (s : ℕ) (bs : List Block)
    → 24 ≤ s
    → Chain h.mem heap_start ((s, true) ∷ bs)
    → (m : Mem) × (kmalloc 0 h ≡ ok (heap_start + 8, record { mem = m; irq = h.irq }))
      × (m heap_start ≡ 0)
unfolding first_fit cut round_up
empty_block h s bs big c =
    let fits : leb 0 s ≡ true = ground arith in
    let room : leb 24 (s - 0) ≡ true = ground arith in
    let found : first_fit (round_up 0) heap_start ((s, true) ∷ bs)
        ≡ some (heap_start, (0, false) ∷ (s - 0 - 8, true) ∷ bs) =
      rw (fits, room) refl in
    let got : Mallocs 0 h ((s, true) ∷ bs) (some (heap_start, (0, false) ∷ (s - 0 - 8, true) ∷ bs))
        (kmalloc 0 h) =
      subst (λ o. Mallocs 0 h ((s, true) ∷ bs) o (kmalloc 0 h)) found
        (kmalloc-Mallocs 0 h ((s, true) ∷ bs) c (omega arith)) in
    (got.0, got.1, got.2.0)

same_request :
    (n : ℕ) (h : Machine) → (n ≡ 0) ⊎ ((2 ^ 32 - 4 < n) × (n < 2 ^ 32)) → kmalloc n h ≡ kmalloc 0 h
unfolding kmalloc
same_request n h (inl e) = ap (λ x. kmalloc x h) e
same_request n h (inr (lo, hi)) =
    ap (λ r. give_pointer h.irq false (alloc_loop max_blocks r heap_start h.mem))
      (round_up_wraps n lo hi)

-- A request for 0 bytes, or for more than 2^32 - 4, is answered with a pointer when the first block is
-- free and has room for another, and `kfree` of that pointer is a kernel panic.
pub kmalloc-kfree-panic :
    (n : ℕ) (h : Machine) (s : ℕ) (bs : List Block)
    → (n ≡ 0) ⊎ ((2 ^ 32 - 4 < n) × (n < 2 ^ 32))
    → 24 ≤ s
    → Chain h.mem heap_start ((s, true) ∷ bs)
    → (m : Mem) × (kmalloc n h ≡ ok (heap_start + 8, record { mem = m; irq = h.irq }))
      × (kfree (heap_start + 8) (record { mem = m; irq = h.irq }) ≡ panic)
kmalloc-kfree-panic n h s bs size big c =
    let (m, run, empty) = empty_block h s bs big c in
    (
      m,
      same_request n h size ∙ run,
      kfree-panic (heap_start + 8) (record { mem = m; irq = h.irq }) (omega arith)
          (inr (inr (inr (omega arith)))),
    )
