-- ===== src/Heap/Free.antt =====
-- `kfree`: the guards, and what a block in use that passes them becomes.
use benmosh_os.Prelude.{
  ℕ, suc, ◌+◌, ◌%◌, ◌<◌, ◌≤◌, ◌≡◌, refl, sym, true, false, ◌&&◌, not, List, [], ◌∷◌, ◌++◌, arith,
  ◌==◌, length, ◌⊎◌, ◌≢◌, sub32, update, ap, ◌∙◌, eq_test-gt, length-append,
}
use mathlib.Core.Path.{subst}
use benmosh_os.Heap.{
  Mem, Machine, Run, ok, panic, heap_end, heap_start, max_blocks, set_free, merge_next, merge_prev,
  release, kfree_guard, kfree, give_back,
}
use benmosh_os.Heap.Chain.{
  Block, Chain, Seg, span, owned, owned_bounds, Chain-span, Seg-frame, Chain-split,
}
use benmosh_os.Heap.Merge.{
  Merges, Rewrites, join_after, join_before, merge_next-Chain, merge_prev-Merges, search_past,
}
use benmosh_os.Heap.Malloc.{length-span, Coalesced, inside}
use benmosh_os.Heap.Freed.{
  freed, marked_free-Chain, join_after-cons, length-join_after, owned-freed, owned-freed-append,
  freed-Coalesced,
}

-- The backward search, from the start of the heap.
search-Merges :
    (m : Mem) (pre : List Block) (q v : ℕ) (rest : List Block)
    → Seg m heap_start pre q
    → Chain m q ((v, true) ∷ rest)
    → length pre < max_blocks
    → suc (length rest) < max_blocks
    → Merges m heap_start
        (join_before pre ((v, true) ∷ rest))
        (merge_prev max_blocks heap_start q m)
unfolding join_before
search-Merges m [] q v rest here c few few' = (
  m,
  subst (λ x. merge_prev max_blocks x q m ≡ ok m) (sym here)
      (search_past m q max_blocks q ((v, true) ∷ rest) (omega arith) (omega arith) c few'),
  subst (λ x. Chain m x ((v, true) ∷ rest)) (sym here) c,
  (λ a i. refl),
  λ a i. refl,
)
search-Merges m ((u, f) ∷ pre) q v rest seg c few few' =
    merge_prev-Merges m q max_blocks heap_start u f pre v rest (omega arith) seg c (omega arith)

-- What `release` comes to: the blocks with the one at `q` freed, and no other payload in use written.
abbrev pub Releases : ℕ → Mem → List Block → List Block → Run Mem → Type 0
Releases q m cs bs r =
    (m' : Mem) × (r ≡ ok m')
    × Chain m' heap_start cs
    × ((a : ℕ) → owned heap_start cs a ≡ true → m' a ≡ m a)

module _ (m : Mem) (pre : List Block) (q s : ℕ) (post : List Block) (at : heap_start + span pre ≡ q)
    (c : Chain m heap_start (pre ++ (s, false) ∷ post)) where
  lengths : length pre + suc (length post) < max_blocks
  lengths = omega (
    arith,
    length-append pre ((s, false) ∷ post),
    length-span (pre ++ (s, false) ∷ post),
    Chain-span m heap_start (pre ++ (s, false) ∷ post) c,
  )

  parts : Seg m heap_start pre q × Chain m q ((s, false) ∷ post)
  parts = Chain-split m heap_start pre q (s, false) post at c

  marked : Mem
  marked = update m q (set_free (m q))

  marked-same : (a : ℕ) → (q == a) ≡ false → marked a ≡ m a
  unfolding marked
  marked-same a h = ground arith

  forward : Rewrites marked q (join_after s post) (merge_next q marked)
  unfolding marked
  forward = merge_next-Chain marked q s post (marked_free-Chain m q s post parts.1)

  front : Seg (merge_next q marked) heap_start pre q
  front =
      Seg-frame m (merge_next q marked) heap_start pre q
        (λ a i j.
          forward.1 a (eq_test-gt q a j) (eq_test-gt (q + 4) a (omega arith))
          ∙ marked-same a (eq_test-gt q a j))
        parts.0

  apart :
      (a : ℕ)
      → owned heap_start (freed pre s post) a ≡ true
      → ((q == a) ≡ false) × ((q + 4 == a) ≡ false)
  apart a h = ground (
    arith,
    owned-freed heap_start pre q s post a at,
    owned_bounds heap_start pre a,
    owned_bounds (q + 8 + s) post a,
  )

  backward :
      Merges
        (merge_next q marked)
        heap_start
        (freed pre s post)
        (merge_prev max_blocks heap_start q (merge_next q marked))
  unfolding freed
  backward =
      let (v, rest, e) = join_after-cons s post in
      subst
        (λ x.
          Merges (merge_next q marked) heap_start (join_before pre x)
            (merge_prev max_blocks heap_start q (merge_next q marked)))
        (sym e)
        (search-Merges (merge_next q marked) pre q v rest front
          (subst (Chain (merge_next q marked) q) e forward.0) (omega (arith, lengths))
          (omega (arith, lengths, length-join_after s post, ap (λ (x : List Block). length x) e)))

  release-Releases : Releases q m (freed pre s post) (pre ++ (s, false) ∷ post) (release q m)
  unfolding release marked
  release-Releases =
      let (m', run, chain, below, same) = backward in
      (
        m',
        run,
        chain,
        λ a h.
            let (no_size, no_next) = apart a h in
            same a h ∙ forward.1 a no_size no_next ∙ marked-same a no_size,
      )

-- The guards of `kfree`: it panics on a pointer outside the heap, on one whose block is free
-- already, and on one whose header has size 0.
pub kfree-panic :
    (p : ℕ) (h : Machine)
    → p ≢ 0
    → (sub32 p 8 < heap_start)
      ⊎ (heap_end ≤ sub32 p 8)
      ⊎ (h.mem (sub32 p 8) % 2 ≡ 1)
      ⊎ (h.mem (sub32 p 8) ≤ 1)
    → kfree p h ≡ panic
unfolding kfree kfree_guard
kfree-panic p h some_p bad = ground arith

-- A header that holds a size but 0 and no flag, within the heap.
kfree_guard-pass :
    (q s : ℕ) (m : Mem)
    → heap_start ≤ q
    → q < heap_end
    → m q ≡ s
    → s % 4 ≡ 0
    → 0 < s
    → kfree_guard q m ≡ false
unfolding kfree_guard
kfree_guard-pass q s m lo hi e al pos = ground arith

kfree-release :
    (q : ℕ) (h : Machine) (m : Mem)
    → heap_start ≤ q
    → q < heap_end
    → kfree_guard q h.mem ≡ false
    → release q h.mem ≡ ok m
    → kfree (q + 8) h ≡ ok (record { mem = m; irq = h.irq })
unfolding kfree
kfree-release q h m lo hi pass run =
    let some_p : (q + 8 == 0) ≡ false = eq_test-gt _ _ (omega arith) in
    let at : sub32 (q + 8) 8 ≡ q = omega arith in
    rw (some_p, at, pass) (ap (give_back h.irq false) run)

-- What freeing the block of size `s` behind the blocks `pre` comes to: no panic, the block is free and
-- joined with its free neighbours, its payload is in use no more, every other payload in use is in
-- use still and not written, no two free blocks lie side by side, and the interrupt flag is put back.
abbrev pub Frees : Machine → List Block → ℕ → List Block → Run Machine → Type 0
Frees h pre s post r =
    (m : Mem) × (r ≡ ok (record { mem = m; irq = h.irq }))
    × Chain m heap_start (freed pre s post)
    × (Coalesced (pre ++ (s, false) ∷ post) → Coalesced (freed pre s post))
    × ((a : ℕ)
        → owned heap_start (freed pre s post) a ≡ (
            owned heap_start (pre ++ (s, false) ∷ post) a
            && not (inside (heap_start + span pre) s a)))
    × ((a : ℕ) → owned heap_start (freed pre s post) a ≡ true → m a ≡ h.mem a)

-- `kfree` of the payload of a block in use, of a size other than 0, never runs on and does not
-- panic: the block becomes free and is joined with its free neighbours, every other payload in use
-- stays in use and is not written, and the interrupt flag is put back.
pub kfree-Frees :
    (h : Machine) (pre : List Block) (s : ℕ) (post : List Block)
    → Chain h.mem heap_start (pre ++ (s, false) ∷ post)
    → 0 < s
    → Frees h pre s post (kfree (heap_start + span pre + 8) h)
kfree-Frees h pre s post c some_size =
    let q = heap_start + span pre in
    let (m, run, chain, same) = release-Releases h.mem pre q s post refl c in
    let (front, here) = Chain-split h.mem heap_start pre q (s, false) post refl c in
    let inside_heap : q < heap_end = omega (arith, Chain-span h.mem (q + 8 + s) post here.3) in
    (
      m,
      kfree-release q h m (omega arith) inside_heap
          (kfree_guard-pass q s h.mem (omega arith) inside_heap (here.0 ∙ omega arith) here.1
            some_size)
          run,
      chain,
      freed-Coalesced pre s post,
      (λ a. owned-freed-append heap_start pre q s post a refl),
      same,
    )
