-- ===== src/Heap/Chain.antt =====
-- The heap as a list of blocks, each with its size and whether it is free.
use benmosh_os.Prelude.{
  ℕ, ◌+◌, ◌-◌, ◌%◌, ◌<◌, ◌≤◌, ◌≡◌, sym, Bool, true, false, ◌&&◌, ◌||◌, not, List, [], ◌∷◌, ◌++◌,
  arith, leb, ltb, if◌then◌else◌,
}
use mathlib.Core.Path.{subst}
use benmosh_os.Heap.{Mem, heap_end, heap_start, heap_size, heap_init}

abbrev pub Block : Type 0
Block = ℕ × Bool

abbrev pub header : ℕ → Bool → ℕ
header s f = s + (if f then 1 else 0)

-- The pointer to the blocks at `p`: null when there is none.
abbrev pub next_of : List Block → ℕ → ℕ
next_of [] p = 0
next_of (b ∷ bs) p = p

-- The blocks lie one behind the other from `p` to the end of the heap, and each header holds the
-- size, a multiple of 4, the flag, and the pointer to the next.
abbrev pub Chain : Mem → ℕ → List Block → Type 0
Chain m p [] = p ≡ heap_end
Chain m p ((s, f) ∷ bs) =
    (m p ≡ header s f) × (s % 4 ≡ 0) × (m (p + 4) ≡ next_of bs (p + 8 + s)) × Chain m (p + 8 + s) bs

-- The same for blocks from `p` up to another one at `q`.
abbrev pub Seg : Mem → ℕ → List Block → ℕ → Type 0
Seg m p [] q = p ≡ q
Seg m p ((s, f) ∷ bs) q =
    (m p ≡ header s f) × (s % 4 ≡ 0) × (m (p + 4) ≡ p + 8 + s) × Seg m (p + 8 + s) bs q

-- The bytes that blocks take up, headers included.
unfoldable pub span : List Block → ℕ
span [] = 0
span ((s, f) ∷ bs) = 8 + s + span bs

-- `a` lies in the payload of a block in use.
abbrev pub owned : ℕ → List Block → ℕ → Bool
owned p [] a = false
owned p ((s, f) ∷ bs) a = (not f && (leb (p + 8) a && ltb a (p + 8 + s))) || owned (p + 8 + s) bs a

pub owned_bounds :
    (p : ℕ) (bs : List Block) (a : ℕ) → owned p bs a ≡ true → (p + 8 ≤ a) × (a < p + span bs)
unfolding span
owned_bounds p [] a h = cc
owned_bounds p ((s, f) ∷ bs) a h = ground (arith, owned_bounds (p + 8 + s) bs a)

module _ (m : Mem) where
  pub Chain-span : (p : ℕ) (bs : List Block) → Chain m p bs → p + span bs ≡ heap_end
  unfolding span
  Chain-span p [] c = omega arith
  Chain-span p ((s, f) ∷ bs) c = omega (arith, Chain-span (p + 8 + s) bs c.3)

  pub Seg-span : (p : ℕ) (bs : List Block) (q : ℕ) → Seg m p bs q → p + span bs ≡ q
  unfolding span
  Seg-span p [] q c = omega arith
  Seg-span p ((s, f) ∷ bs) q c = omega (arith, Seg-span (p + 8 + s) bs q c.3)

  pub Chain-append :
      (p : ℕ) (bs : List Block) (q : ℕ) (b : Block) (cs : List Block)
      → Seg m p bs q
      → Chain m q (b ∷ cs)
      → Chain m p (bs ++ b ∷ cs)
  Chain-append p [] q b cs e c = subst (λ x. Chain m x (b ∷ cs)) (sym e) c
  Chain-append p ((s, f) ∷ []) q b cs (h, al, n, e) c =
      (h, al, n, subst (λ x. Chain m x (b ∷ cs)) (sym e) c)
  Chain-append p ((s, f) ∷ x ∷ bs) q b cs (h, al, n, rest) c =
      (h, al, n, Chain-append (p + 8 + s) (x ∷ bs) q b cs rest c)

  pub Chain-split :
      (p : ℕ) (bs : List Block) (q : ℕ) (b : Block) (cs : List Block)
      → p + span bs ≡ q
      → Chain m p (bs ++ b ∷ cs)
      → Seg m p bs q × Chain m q (b ∷ cs)
  unfolding span
  Chain-split p [] q b cs e c =
      let here : p ≡ q = omega arith in (here, subst (λ x. Chain m x (b ∷ cs)) here c)
  Chain-split p ((s, f) ∷ []) q b cs e (h, al, n, rest) =
      let here : p + 8 + s ≡ q = omega arith in
      ((h, al, n, here), subst (λ x. Chain m x (b ∷ cs)) here rest)
  Chain-split p ((s, f) ∷ x ∷ bs) q b cs e (h, al, n, rest) =
      let (seg, chain) = Chain-split (p + 8 + s) (x ∷ bs) q b cs (omega arith) rest in
      ((h, al, n, seg), chain)

  module _ (m' : Mem) where
    -- A chain reads no word before its first header.
    pub Chain-frame :
        (p : ℕ) (bs : List Block) → ((a : ℕ) → p ≤ a → m' a ≡ m a) → Chain m p bs → Chain m' p bs
    Chain-frame p [] same c = c
    Chain-frame p ((s, f) ∷ bs) same c = (
      ground (arith, same p),
      c.1,
      ground (arith, same (p + 4)),
      Chain-frame (p + 8 + s) bs (λ a h. same a (omega arith)) c.3,
    )

    pub Seg-frame :
        (p : ℕ) (bs : List Block) (q : ℕ)
        → ((a : ℕ) → p ≤ a → a < q → m' a ≡ m a)
        → Seg m p bs q
        → Seg m' p bs q
    Seg-frame p [] q same c = c
    Seg-frame p ((s, f) ∷ bs) q same c =
        let e = Seg-span (p + 8 + s) bs q c.3 in
        (
          ground (arith, same p),
          c.1,
          ground (arith, same (p + 4)),
          Seg-frame (p + 8 + s) bs q (λ a h k. same a (omega arith) k) c.3,
        )

-- `heap_init` makes the whole heap one free block.
pub heap_init-Chain : (m : Mem) → Chain (heap_init m) heap_start ((heap_size - 8, true) ∷ [])
unfolding heap_init
heap_init-Chain m = omega arith
