-- ===== src/Heap/Merge.antt =====
-- The two merges of `kfree`, with the block after and with the block before.
use benmosh_os.Prelude.{
  ℕ, zero, suc, ◌+◌, ◌%◌, ◌^◌, ◌<◌, ◌≤◌, ◌≡◌, refl, sym, Bool, true, false, List, [], ◌∷◌, arith,
  ◌==◌, length, add32, update, ap, ◌∙◌, eq_test-lt, eq_test-gt,
}
use mathlib.Core.Path.{subst}
use benmosh_os.Heap.{Mem, Run, ok, size_of, set_free, free_bit, merge_next, merge_into, merge_prev}
use benmosh_os.Heap.Chain.{
  Block, header, next_of, Chain, Seg, owned, owned_bounds, Chain-span, Seg-span, Chain-frame,
}

-- Two neighbours as one free block.
abbrev joined : Mem → ℕ → ℕ → ℕ → Mem
joined m p size q = update (update m p (size + 1)) (p + 4) (m (q + 4))

joined-Chain :
    (m : Mem) (p s t : ℕ) (f : Bool) (post : List Block)
    → s % 4 ≡ 0
    → Chain m (p + 8 + s) ((t, f) ∷ post)
    → Chain (joined m p (s + t + 8) (p + 8 + s)) p ((s + t + 8, true) ∷ post)
joined-Chain m p s t f post al c =
    let end : p + 8 + (s + t + 8) ≡ p + 8 + s + 8 + t = omega arith in
    (
      ground arith,
      omega arith,
      rw end (ground (arith, c.2)),
      rw end (Chain-frame m (joined m p (s + t + 8) (p + 8 + s)) _ post (λ a i. ground arith) c.3),
    )

joined-same :
    (m : Mem) (p size q a : ℕ) → (p == a) ≡ false → (p + 4 == a) ≡ false → joined m p size q a ≡ m a
joined-same m p size q a h k = ground arith

-- The memory holds these blocks from `p` on, and differs at most in the header at `p`.
abbrev pub Rewrites : Mem → ℕ → List Block → Mem → Type 0
Rewrites m p bs m' =
    Chain m' p bs × ((a : ℕ) → (p == a) ≡ false → (p + 4 == a) ≡ false → m' a ≡ m a)

-- The freed block with the one after it, if that is free.
unfoldable pub join_after : ℕ → List Block → List Block
join_after s [] = (s, true) ∷ []
join_after s ((t, true) ∷ post) = (s + t + 8, true) ∷ post
join_after s ((t, false) ∷ post) = (s, true) ∷ (t, false) ∷ post

-- Reading a header, and writing that of two neighbours.
pub free_bit-header : (x s : ℕ) (f : Bool) → s % 4 ≡ 0 → x ≡ header s f → free_bit x ≡ f
free_bit-header x s f al e = ground arith

pub size_of-header : (x s : ℕ) (f : Bool) → s % 4 ≡ 0 → x ≡ header s f → size_of x ≡ s
size_of-header x s f al e = ground arith

set_free-sum :
    (s t : ℕ)
    → s % 4 ≡ 0
    → t % 4 ≡ 0
    → s + t + 8 < 2 ^ 32
    → set_free (add32 (add32 s t) 8) ≡ s + t + 8 + 1
set_free-sum s t h k small = omega arith

-- What both merges write, if the one of the blocks is free.
merged :
    (m : Mem) (p s q t : ℕ) (f g : Bool)
    → s % 4 ≡ 0
    → m p ≡ header s f
    → t % 4 ≡ 0
    → m q ≡ header t g
    → s + t + 8 < 2 ^ 32
    → update
        (update m p (set_free (add32 (add32 (size_of (m p)) (size_of (m q))) 8)))
        (p + 4)
        (m (q + 4))
      ≡ joined m p (s + t + 8) q
merged m p s q t f g al e al' e' small =
    rw
      (
        size_of-header (m p) s f al e,
        size_of-header (m q) t g al' e',
        set_free-sum s t al al' small,
      )
      refl

module _ (m : Mem) (p s : ℕ) where
  merge_next-joined :
      (t : ℕ) (post : List Block)
      → Chain m p ((s, true) ∷ (t, true) ∷ post)
      → merge_next p m ≡ joined m p (s + t + 8) (p + 8 + s)
  unfolding merge_next
  merge_next-joined t post c =
      let at : (p + 8 + s == 0) ≡ false = ground arith in
      rw (c.2, at, free_bit-header _ t true c.3.1 c.3.0)
        (merged m p s (p + 8 + s) t true true c.1 c.0 c.3.1 c.3.0
          (omega (arith, Chain-span m (p + 8 + s + 8 + t) post c.3.3)))

  merge_next-used :
      (t : ℕ) (post : List Block) → Chain m p ((s, true) ∷ (t, false) ∷ post) → merge_next p m ≡ m
  unfolding merge_next
  merge_next-used t post c =
      let at : (p + 8 + s == 0) ≡ false = ground arith in
      rw (c.2, at, free_bit-header _ t false c.3.1 c.3.0) refl

  merge_next-last : Chain m p ((s, true) ∷ []) → merge_next p m ≡ m
  unfolding merge_next
  merge_next-last c = rw c.2 refl

  -- The merge with the block after comes to `join_after`, and writes only the header.
  pub merge_next-Chain :
      (post : List Block)
      → Chain m p ((s, true) ∷ post)
      → Rewrites m p (join_after s post) (merge_next p m)
  unfolding join_after
  merge_next-Chain [] c =
      subst (Rewrites m p ((s, true) ∷ [])) (sym (merge_next-last c)) (c, λ a i j. refl)
  merge_next-Chain ((t, true) ∷ post) c =
      subst (Rewrites m p ((s + t + 8, true) ∷ post)) (sym (merge_next-joined t post c))
        (joined-Chain m p s t true post c.1 c.3, joined-same m p (s + t + 8) (p + 8 + s))
  merge_next-Chain ((t, false) ∷ post) c =
      subst (Rewrites m p ((s, true) ∷ (t, false) ∷ post)) (sym (merge_next-used t post c))
        (c, λ a i j. refl)

-- The freed block with the one before it, if that is free.
unfoldable pub join_before : List Block → List Block → List Block
join_before [] bs = bs
join_before ((u, f) ∷ b ∷ pre) bs = (u, f) ∷ join_before (b ∷ pre) bs
join_before ((u, false) ∷ []) bs = (u, false) ∷ bs
join_before ((u, true) ∷ []) [] = (u, true) ∷ []
join_before ((u, true) ∷ []) ((v, g) ∷ bs) = (u + v + 8, true) ∷ bs

-- A run ends with these blocks from `p` on, and has written neither before `p` nor into a payload
-- in use.
abbrev pub Merges : Mem → ℕ → List Block → Run Mem → Type 0
Merges m p bs r =
    (m' : Mem) × (r ≡ ok m')
    × Chain m' p bs
    × ((a : ℕ) → a < p → m' a ≡ m a)
    × ((a : ℕ) → owned p bs a ≡ true → m' a ≡ m a)

module _ (m : Mem) (p u v : ℕ) (post : List Block) where
  merge_into-used : m p ≡ header u false → u % 4 ≡ 0 → (q : ℕ) → merge_into p q m ≡ m
  unfolding merge_into
  merge_into-used h al q = rw (free_bit-header _ u false al h) refl

  merge_into-free :
      m p ≡ header u true
      → u % 4 ≡ 0
      → Chain m (p + 8 + u) ((v, true) ∷ post)
      → merge_into p (p + 8 + u) m ≡ joined m p (u + v + 8) (p + 8 + u)
  unfolding merge_into
  merge_into-free h al c = rw (free_bit-header _ u true al h) (
      merged m p u (p + 8 + u) v true true al h c.1 c.0
        (omega (arith, Chain-span m (p + 8 + u + 8 + v) post c.3)))

  merge_into-Merges :
      (f : Bool)
      → m p ≡ header u f
      → u % 4 ≡ 0
      → m (p + 4) ≡ p + 8 + u
      → Chain m (p + 8 + u) ((v, true) ∷ post)
      → Merges m p (join_before ((u, f) ∷ []) ((v, true) ∷ post)) (ok (merge_into p (p + 8 + u) m))
  unfolding join_before
  merge_into-Merges false h al n c =
      (m, ap ok (merge_into-used h al (p + 8 + u)), (h, al, n, c), (λ a i. refl), λ a i. refl)
  merge_into-Merges true h al n c = (
    joined m p (u + v + 8) (p + 8 + u),
    ap ok (merge_into-free h al c),
    joined-Chain m p u v true post al c,
    (λ a i. ground arith),
    λ a i. ground (arith, owned_bounds (p + 8 + (u + v + 8)) post a),
  )

-- A block that the search passes over.
Merges-cons :
    (m : Mem) (p u : ℕ) (f : Bool) (bs : List Block) (r : Run Mem)
    → m p ≡ header u f
    → u % 4 ≡ 0
    → m (p + 4) ≡ next_of bs (p + 8 + u)
    → Merges m (p + 8 + u) bs r
    → Merges m p ((u, f) ∷ bs) r
Merges-cons m p u f bs r h al n (m', e, c, below, same) = (
  m',
  e,
  (ground (arith, below p (omega arith)), al, ground (arith, below (p + 4) (omega arith)), c),
  (λ a i. below a (omega arith)),
  λ a i. ground (arith, below a, same a),
)

-- Joining leaves a block at the front.
next_of-join_before :
    (p u : ℕ) (f : Bool) (pre : List Block) (v : ℕ) (post : List Block)
    → next_of (join_before ((u, f) ∷ pre) ((v, true) ∷ post)) p ≡ p
unfolding join_before
next_of-join_before p u false [] v post = refl
next_of-join_before p u true [] v post = refl
next_of-join_before p u f (b ∷ pre) v post = refl

-- The search for the block before `q`, from `p` on: it ends at that block, or, when `q` is the first
-- block, at the last one.
module _ (m : Mem) (q : ℕ) where
  pub search_past :
      (rounds p : ℕ) (bs : List Block)
      → 0 < p
      → q ≤ p
      → Chain m p bs
      → length bs < rounds
      → merge_prev rounds (next_of bs p) q m ≡ ok m
  unfolding merge_prev
  search_past zero p bs pos past c enough = absurd (omega arith)
  search_past (suc rounds) p [] pos past c enough = refl
  search_past (suc rounds) p ((s, f) ∷ []) pos past c enough = rw c.2 (ground arith)
  search_past (suc rounds) p ((s, f) ∷ b ∷ bs) pos past c enough =
      let here : (p == 0) ≡ false = ground arith in
      let next : (p + 8 + s == 0) ≡ false = ground arith in
      let miss : (p + 8 + s == q) ≡ false = eq_test-gt _ _ (omega arith) in
      rw (c.2, here, next, miss)
        (search_past rounds (p + 8 + s) (b ∷ bs) (omega arith) (omega arith) c.3 (omega arith))

  pub merge_prev-Merges :
      (rounds p u : ℕ) (f : Bool) (pre : List Block) (v : ℕ) (post : List Block)
      → 0 < p
      → Seg m p ((u, f) ∷ pre) q
      → Chain m q ((v, true) ∷ post)
      → length pre < rounds
      → Merges m p (join_before ((u, f) ∷ pre) ((v, true) ∷ post)) (merge_prev rounds p q m)
  unfolding merge_prev join_before
  merge_prev-Merges zero p u f pre v post pos seg c enough = absurd (omega arith)
  merge_prev-Merges (suc rounds) p u f [] v post pos (h, al, n, e) c enough =
      let here : (p == 0) ≡ false = ground arith in
      let next : (q == 0) ≡ false = ground arith in
      let hit : (q == q) ≡ true = ground arith in
      rw (n ∙ e, here, next, hit)
        (subst
          (λ x. Merges m p (join_before ((u, f) ∷ []) ((v, true) ∷ post)) (ok (merge_into p x m))) e
          (merge_into-Merges m p u v post f h al n
            (subst (λ x. Chain m x ((v, true) ∷ post)) (sym e) c)))
  merge_prev-Merges (suc rounds) p u f ((u', f') ∷ pre) v post pos (h, al, n, seg) c enough =
      let bs = join_before ((u', f') ∷ pre) ((v, true) ∷ post) in
      let first = next_of-join_before (p + 8 + u) u' f' pre v post in
      let here : (p == 0) ≡ false = ground arith in
      let next : (p + 8 + u == 0) ≡ false = ground arith in
      let miss : (p + 8 + u == q) ≡ false =
        eq_test-lt _ _ (omega (arith, Seg-span m (p + 8 + u + 8 + u') pre q seg.3)) in
      rw (n, here, next, miss)
        (Merges-cons m p u f bs (merge_prev rounds (p + 8 + u) q m) h al (n ∙ sym first)
          (merge_prev-Merges rounds (p + 8 + u) u' f' pre v post (omega arith) seg c (omega arith)))
