-- ===== src/Heap/Aligned.antt =====
-- `kmalloc_aligned` and `kfree_aligned`.
use benmosh_os.Prelude.{
  ℕ, ◌+◌, ◌-◌, ◌%◌, ◌^◌, ◌<◌, ◌≤◌, ◌≡◌, ◌≢◌, refl, Bool, true, false, List, [], ◌∷◌, arith, leb,
  Option, none, some, Bool-cases, leb→le, inl, inr, ap, ◌∙◌, update, update_ne, update_self, add32,
  sub32, eq_test-gt,
}
use native.Mathlib.Nat.{one-le-pow, mul-mod_left, div-mul-le_self, lt-div-mul-add}
use benmosh_os.Prelude.Bits.{two-pow-lt}
use benmosh_os.Prelude.Masks.{bit_and-high, power_of_two, power_of_two-passes}
use benmosh_os.Heap.{
  Mem, Machine, Run, ok, heap_start, kmalloc, kfree, round_up, bad_alignment, align_up,
  place_aligned, kmalloc_aligned, kfree_aligned,
}
use benmosh_os.Heap.Chain.{Block, Chain, owned, owned_bounds, Chain-span, Chain-frame}
use benmosh_os.Heap.Alloc.{first_fit}
use benmosh_os.Heap.Malloc.{Mallocs, kmalloc-Mallocs}

-- The alignments that `kmalloc_aligned` accepts are the powers of 2.
pub bad_alignment_lem :
    (a : ℕ)
    → (bad_alignment a ≡ false → (k : ℕ) × (a ≡ 2 ^ k))
      × ((k : ℕ) → a ≡ 2 ^ k → bad_alignment a ≡ false)
unfolding bad_alignment
bad_alignment_lem a = (
  (λ h. power_of_two a a (omega arith) (ground arith) (ground arith)),
  λ k e. rw e (ground (arith, one-le-pow k 2, power_of_two-passes k)),
)

-- The aligned address lies behind room for the tracker, and at most an alignment further on.
align_up_lem :
    (raw k : ℕ)
    → k ≤ 32
    → raw + 2 ^ k + 4 < 2 ^ 32
    → (align_up raw (2 ^ k) % 2 ^ k ≡ 0)
      × (raw + 4 ≤ align_up raw (2 ^ k))
      × (align_up raw (2 ^ k) ≤ raw + 2 ^ k + 3)
unfolding align_up
align_up_lem raw k h small =
    let sum : sub32 (add32 raw (add32 (2 ^ k) 4)) 1 ≡ raw + 2 ^ k + 3 = ground arith in
    let mask : 0xffff_ffff - (2 ^ k - 1) ≡ 2 ^ 32 - 2 ^ k = omega (arith, one-le-pow k 2) in
    rw (sum, mask, bit_and-high 32 k (raw + 2 ^ k + 3) h (omega arith))
      (
        mul-mod_left _ _,
        omega (
          arith,
          lt-div-mul-add {a = raw + 2 ^ k + 3} {b = 2 ^ k} (omega (arith, one-le-pow k 2)),
        ),
        div-mul-le_self _ _,
      )

-- A write into a payload in use leaves the headers alone.
pub Chain-write :
    (m : Mem) (p : ℕ) (bs : List Block) (x v : ℕ)
    → owned p bs x ≡ true
    → Chain m p bs
    → Chain (update m x v) p bs
Chain-write m p [] x v h c = c
Chain-write m p ((s, f) ∷ bs) x v h c =
    let (behind, _) = owned_bounds p ((s, f) ∷ bs) x h in
    (
      update_ne m x p v (omega arith) ∙ c.0,
      c.1,
      update_ne m x (p + 4) v (omega arith) ∙ c.2,
      elim (Bool-cases (owned (p + 8 + s) bs x)) [
        | inl later ↦ Chain-write m (p + 8 + s) bs x v later c.3
        | inr here ↦ Chain-frame m (update m x v) (p + 8 + s) bs (λ a i. ground arith) c.3
      ],
    )

ne_of_test : (f : ℕ → Bool) (x a : ℕ) → f x ≡ false → f a ≡ true → x ≢ a
ne_of_test f x a no_x yes_a e = cc (ap f e)

kfree_aligned-tracked :
    (p raw : ℕ) (m : Mem) (irq : Bool)
    → 0 < p
    → sub32 p 4 ≡ p - 4
    → kfree_aligned p (record { mem = update m (p - 4) raw; irq = irq })
      ≡ kfree raw (record { mem = update m (p - 4) raw; irq = irq })
unfolding kfree_aligned
kfree_aligned-tracked p raw m irq pos slot =
    rw (eq_test-gt p 0 pos, slot, update_self m (p - 4) raw) refl

-- The answer of `kmalloc_aligned`: null and no change when no free block has room for the request,
-- the alignment and the tracker; else a multiple of the alignment with the whole request inside the
-- block that `kmalloc` took, and before it the tracker with the pointer that `kfree` wants. No payload
-- in use is written.
abbrev pub AlignedMallocs :
    ℕ → ℕ → Machine → List Block → Option (ℕ × List Block) → Run (ℕ × Machine) → Type 0
AlignedMallocs size alignment h bs none r = r ≡ ok (0, h)
AlignedMallocs size alignment h bs (some (q, cs)) r =
    (p : ℕ) × (m : Mem) × (r ≡ ok (p, record { mem = m; irq = h.irq }))
    × (p % alignment ≡ 0)
    × ((a : ℕ)
        → p ≤ a
        → a < p + size
        → (owned heap_start cs a ≡ true) × (owned heap_start bs a ≡ false))
    × Chain m heap_start cs
    × (kfree_aligned p (record { mem = m; irq = h.irq })
        ≡ kfree (q + 8) (record { mem = m; irq = h.irq }))
    × ((a : ℕ) → owned heap_start bs a ≡ true → m a ≡ h.mem a)

module _ (size k : ℕ) (h : Machine) (bs : List Block) (c : Chain h.mem heap_start bs)
    (le : size + 2 ^ k + 4 ≤ 2 ^ 32 - 4) where
  narrow : k ≤ 32
  narrow = elim (Bool-cases (leb k 32)) [
    | inl fits ↦ leb→le k 32 fits
    | inr over ↦ absurd (omega (arith, two-pow-lt 32 k (ground arith)))
  ]

  request : add32 size (add32 (2 ^ k) 4) ≡ size + 2 ^ k + 4
  request = ground arith

  starts :
      (r : Run (ℕ × Machine))
      → kmalloc (size + 2 ^ k + 4) h ≡ r
      → kmalloc_aligned size (2 ^ k) h ≡ place_aligned (2 ^ k) r
  unfolding kmalloc_aligned
  starts r e = rw ((bad_alignment_lem (2 ^ k)).1 k refl, request) (ap (place_aligned (2 ^ k)) e)

  aligned-Mallocs :
      (o : Option (ℕ × List Block))
      → Mallocs (size + 2 ^ k + 4) h bs o (kmalloc (size + 2 ^ k + 4) h)
      → AlignedMallocs size (2 ^ k) h bs o (kmalloc_aligned size (2 ^ k) h)
  unfolding place_aligned
  aligned-Mallocs none e = starts (ok (0, h)) e
  aligned-Mallocs (some (q, cs))
        (m, e, chain, (got, fits, lo, hi, total, adds, apart), neat, same) =
      let raw = q + 8 in
      let p = align_up raw (2 ^ k) in
      let end = Chain-span h.mem heap_start bs c in
      let (multiple, above, below) = align_up_lem raw k narrow (omega arith) in
      let slot : sub32 p 4 ≡ p - 4 = ground arith in
      let holds = λ (a : ℕ) (i : q + 8 ≤ a) (j : a < q + 8 + got). payload a i j in
      let m' = update m (p - 4) raw in
      (
        p,
        m',
        starts _ e ∙ rw (eq_test-gt raw 0 (omega arith), slot) refl,
        multiple,
        (λ a i j. holds a (omega arith) (omega arith)),
        Chain-write m heap_start cs (p - 4) raw (holds (p - 4) (omega arith) (omega arith)).0 chain,
        kfree_aligned-tracked p raw m h.irq (omega arith) slot,
        λ a i.
            update_ne m (p - 4) a raw (
              ne_of_test (owned heap_start bs) (p - 4) a
                (holds (p - 4) (omega arith) (omega arith)).1 i)
            ∙ same a i,
      )
    where
      payload :
          (a : ℕ)
          → q + 8 ≤ a
          → a < q + 8 + got
          → (owned heap_start cs a ≡ true) × (owned heap_start bs a ≡ false)
      payload a i j = ground (arith, adds a, apart a)

  -- `kmalloc_aligned` answers as `AlignedMallocs` says for every alignment that is a power of 2, if the
  -- request with the alignment does not overflow.
  pub kmalloc_aligned-AlignedMallocs :
      AlignedMallocs size
        (2 ^ k)
        h
        bs
        (first_fit (round_up (size + 2 ^ k + 4)) heap_start bs)
        (kmalloc_aligned size (2 ^ k) h)
  kmalloc_aligned-AlignedMallocs =
      aligned-Mallocs (first_fit (round_up (size + 2 ^ k + 4)) heap_start bs)
        (kmalloc-Mallocs (size + 2 ^ k + 4) h bs c le)
