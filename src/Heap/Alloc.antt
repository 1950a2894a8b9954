-- ===== src/Heap/Alloc.antt =====
-- `kmalloc` is a first fit over the blocks, and writes to no payload in use.
use benmosh_os.Prelude.{
  ℕ, zero, suc, ◌+◌, ◌-◌, ◌%◌, ◌^◌, ◌<◌, ◌≤◌, ◌≡◌, refl, Bool, true, false, ◌&&◌, List, [], ◌∷◌,
  arith, leb, ltb, ◌==◌, if◌then◌else◌, length, Option, none, some, Bool-cases, inl, inr, add32,
  leb→le, ap,
}
use mathlib.Core.Option
use benmosh_os.Heap.{Mem, Run, ok, size_of, set_free, take_block, alloc_loop}
use benmosh_os.Heap.Chain.{Block, next_of, Chain, owned, owned_bounds, Chain-span, Chain-frame}

-- The first free block that is large enough, cut in two if what is left over has room for a block,
-- with the address of its header.
unfoldable pub cut : ℕ → ℕ → List Block → List Block
cut n s bs = if leb 24 (s - n) then (n, false) ∷ (s - n - 8, true) ∷ bs else (s, false) ∷ bs

unfoldable pub first_fit : ℕ → ℕ → List Block → Option (ℕ × List Block)
first_fit n p [] = none
first_fit n p ((s, f) ∷ bs) =
    if f && leb n s
    then some (p, cut n s bs)
    else Option.map (λ (q, cs). (q, (s, f) ∷ cs)) (first_fit n (p + 8 + s) bs)

-- What taking the block at `p` writes.
module _ (n p s : ℕ) (m : Mem) (h : m p ≡ s + 1) (even : s % 4 ≡ 0) (whole : n % 4 ≡ 0)
    (room : p + s < 2 ^ 31) where
  take_block-tight :
      leb 24 (s - n) ≡ false → (a : ℕ) → take_block n p m a ≡ (if p == a then s else m a)
  unfolding take_block
  take_block-tight tight a = let size : size_of (m p) ≡ s = omega arith in rw (size, tight) refl

  take_block-big :
      leb 24 (s - n) ≡ true
      → (a : ℕ)
      → take_block n p m a ≡ (
          if p + 4 == a
          then p + n + 8
          else if p == a
          then n
          else if p + n + 8 + 4 == a
          then m (p + 4)
          else if p + n + 8 == a
          then s - n - 8 + 1
          else m a)
  unfolding take_block
  take_block-big big a =
      let size : size_of (m p) ≡ s = omega arith in
      let new : add32 (add32 p n) 8 ≡ p + n + 8 = ground arith in
      let word : set_free (s - n - 8) ≡ s - n - 8 + 1 = ground arith in
      rw (size, big, new, word) (ground arith)

-- What taking the block at `p` comes to.
module _ (n p s : ℕ) (bs : List Block) (m : Mem) (whole : n % 4 ≡ 0) (le : n ≤ s)
    (c : Chain m p ((s, true) ∷ bs)) where
  room : p + s < 2 ^ 31
  room = omega (arith, Chain-span m (p + 8 + s) bs c.3)

  take_block-Chain : Chain (take_block n p m) p (cut n s bs)
  unfolding cut
  take_block-Chain = elim (Bool-cases (leb 24 (s - n))) [
    | inl big ↦ rw big (
        let at = take_block-big n p s m c.0 c.1 whole room big in
        let end : p + 8 + n + 8 + (s - n - 8) ≡ p + 8 + s = ground arith in
        (
          ground (arith, at p),
          whole,
          ground (arith, at (p + 4)),
          (
            ground (arith, at (p + 8 + n)),
            omega arith,
            rw end (ground (arith, at (p + 8 + n + 4), c.2)),
            rw end
                (Chain-frame m (take_block n p m) (p + 8 + s) bs (λ a i. ground (arith, at a)) c.3),
          ),
        ))
    | inr tight ↦ rw tight (
        let at = take_block-tight n p s m c.0 c.1 whole room tight in
        (
          ground (arith, at p),
          c.1,
          ground (arith, at (p + 4), c.2),
          Chain-frame m (take_block n p m) (p + 8 + s) bs (λ a i. ground (arith, at a)) c.3,
        ))
  ]

  -- It writes only inside the block.
  take_block-same : (a : ℕ) → (leb p a && ltb a (p + 8 + s)) ≡ false → take_block n p m a ≡ m a
  take_block-same a out = elim (Bool-cases (leb 24 (s - n))) [
    | inl big ↦ ground (arith, take_block-big n p s m c.0 c.1 whole room big a)
    | inr tight ↦ ground (arith, take_block-tight n p s m c.0 c.1 whole room tight a)
  ]

-- The loop does what `first_fit` says: null and no change when no block fits, else the payload of
-- the block, the new blocks in memory, and no write before `p` or into a payload in use.
abbrev pub Allocates : Mem → ℕ → List Block → Option (ℕ × List Block) → Run (ℕ × Mem) → Type 0
Allocates m p bs none r = r ≡ ok (0, m)
Allocates m p bs (some (q, cs)) r =
    (m' : Mem) × (r ≡ ok (q + 8, m'))
    × Chain m' p cs
    × (next_of cs p ≡ next_of bs p)
    × ((a : ℕ) → a < p → m' a ≡ m a)
    × ((a : ℕ) → owned p bs a ≡ true → m' a ≡ m a)

-- A block that is passed over.
Allocates-cons :
    (m : Mem) (p s : ℕ) (f : Bool) (bs : List Block) (o : Option (ℕ × List Block))
    (r : Run (ℕ × Mem))
    → Chain m p ((s, f) ∷ bs)
    → Allocates m (p + 8 + s) bs o r
    → Allocates m p ((s, f) ∷ bs) (Option.map (λ (q, cs). (q, (s, f) ∷ cs)) o) r
Allocates-cons m p s f bs none r c got = got
Allocates-cons m p s f bs (some (q, cs)) r c (m', e, c', nx, below, same) = (
  m',
  e,
  (
    ground (arith, below p (omega arith), c.0),
    c.1,
    ground (arith, below (p + 4) (omega arith), c.2),
    c',
  ),
  refl,
  (λ a i. below a (omega arith)),
  λ a i. ground (arith, below a, same a),
)

next_of-cut : (n s p : ℕ) (bs : List Block) → next_of (cut n s bs) p ≡ p
unfolding cut
next_of-cut n s p bs = ground arith

pub alloc_loop-Allocates :
    (rounds n p : ℕ) (bs : List Block) (m : Mem)
    → 0 < p
    → n % 4 ≡ 0
    → Chain m p bs
    → length bs < rounds
    → Allocates m p bs (first_fit n p bs) (alloc_loop rounds n (next_of bs p) m)
unfolding alloc_loop first_fit
alloc_loop-Allocates zero n p bs m pos whole c enough = absurd (omega arith)
alloc_loop-Allocates (suc rounds) n p [] m pos whole c enough = refl
alloc_loop-Allocates (suc rounds) n p ((s, false) ∷ bs) m pos whole c enough =
    let used : (m p % 2 == 1) ≡ false = ground (arith, c) in
    let at : (p == 0) ≡ false = ground arith in
    rw (at, used, c.2)
      (Allocates-cons m p s false bs (first_fit n (p + 8 + s) bs) _ c
        (alloc_loop-Allocates rounds n (p + 8 + s) bs m (omega arith) whole c.3 (omega arith)))
alloc_loop-Allocates (suc rounds) n p ((s, true) ∷ bs) m pos whole c enough =
    let unused : (m p % 2 == 1) ≡ true = ground (arith, c) in
    let at : (p == 0) ≡ false = ground arith in
    let size : size_of (m p) ≡ s = ground (arith, c) in
    elim (Bool-cases (leb n s)) [
      | inl fits ↦
          rw (at, unused, size, fits)
            (let le = leb→le n s fits in
              let here : add32 p 8 ≡ p + 8 = omega (arith, Chain-span m (p + 8 + s) bs c.3) in
              (
                take_block n p m,
                ap (λ t. ok (t, take_block n p m)) here,
                take_block-Chain n p s bs m whole le c,
                next_of-cut n s p bs,
                (λ a i. take_block-same n p s bs m whole le c a (ground arith)),
                λ a i.
                    take_block-same n p s bs m whole le c a
                      (ground (arith, owned_bounds (p + 8 + s) bs a)),
              ))
      | inr small ↦
          rw (at, unused, size, small, c.2)
            (Allocates-cons m p s true bs (first_fit n (p + 8 + s) bs) _ c (
              alloc_loop-Allocates rounds n (p + 8 + s) bs m (omega arith) whole c.3 (omega arith)))
    ]
