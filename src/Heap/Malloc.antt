-- ===== src/Heap/Malloc.antt =====
-- `kmalloc` as a whole: what it returns, and what it leaves alone.
use benmosh_os.Prelude.{
  ℕ, ◌+◌, ◌-◌, ◌*◌, ◌%◌, ◌^◌, ◌≤◌, ◌≡◌, refl, Bool, true, false, ◌&&◌, ◌||◌, List, [], ◌∷◌, arith,
  leb, ltb, length, Option, none, some, Bool-cases, inl, inr, leb→le, ap,
}
use mathlib.Core.Option
use mathlib.Core.Path.{subst}
use benmosh_os.Heap.{
  Mem, Machine, Run, ok, heap_start, max_blocks, give_pointer, alloc_loop, kmalloc, round_up,
}
use benmosh_os.Heap.Chain.{Block, next_of, Chain, span, owned, owned_bounds, Chain-span}
use benmosh_os.Heap.Alloc.{cut, first_fit, Allocates, alloc_loop-Allocates}

-- No two free blocks lie side by side.
abbrev pub starts_free : List Block → Bool
starts_free [] = false
starts_free ((s, f) ∷ bs) = f

abbrev pub Coalesced : List Block → Type 0
Coalesced [] = Unit
Coalesced ((s, f) ∷ bs) = ((f && starts_free bs) ≡ false) × Coalesced bs

abbrev pub inside : ℕ → ℕ → ℕ → Bool
inside q size a = leb (q + 8) a && ltb a (q + 8 + size)

-- The payload that is handed out was in no block in use, and joins those in use.
abbrev pub HandsOut : ℕ → ℕ → List Block → ℕ → List Block → Type 0
HandsOut n p bs q cs =
    (size : ℕ) × (n ≤ size)
    × (p ≤ q)
    × (q + 8 + size ≤ p + span bs)
    × (span cs ≡ span bs)
    × ((a : ℕ) → owned p cs a ≡ (owned p bs a || inside q size a))
    × ((a : ℕ) → inside q size a ≡ true → owned p bs a ≡ false)

cut-HandsOut : (n p s : ℕ) (bs : List Block) → n ≤ s → HandsOut n p ((s, true) ∷ bs) p (cut n s bs)
unfolding cut span
cut-HandsOut n p s bs le = elim (Bool-cases (leb 24 (s - n))) [
  | inl big ↦ rw big (
      let end : p + 8 + n + 8 + (s - n - 8) ≡ p + 8 + s = ground arith in
      (
        n,
        omega arith,
        omega arith,
        ground arith,
        ground arith,
        (λ a. rw end (ground arith)),
        λ a i. ground (arith, owned_bounds (p + 8 + s) bs a),
      ))
  | inr tight ↦ rw tight (
    s,
    le,
    omega arith,
    omega arith,
    refl,
    (λ a. ground arith),
    λ a i. ground (arith, owned_bounds (p + 8 + s) bs a),
  )
]

cut-Coalesced :
    (n s : ℕ) (bs : List Block)
    → starts_free bs ≡ false
    → Coalesced bs
    → Coalesced (cut n s bs) × (true ≡ false → starts_free (cut n s bs) ≡ false)
unfolding cut
cut-Coalesced n s bs first rest = elim (Bool-cases (leb 24 (s - n))) [
  | inl big ↦ rw big ((refl, (first, rest)), λ e. cc)
  | inr tight ↦ rw tight ((refl, rest), λ e. cc)
]

HandsOut-cons :
    (n p s : ℕ) (f : Bool) (bs : List Block) (q : ℕ) (cs : List Block)
    → HandsOut n (p + 8 + s) bs q cs
    → HandsOut n p ((s, f) ∷ bs) q ((s, f) ∷ cs)
unfolding span
HandsOut-cons n p s f bs q cs (size, le, lo, hi, total, adds, apart) = (
  size,
  le,
  omega arith,
  omega arith,
  omega arith,
  (λ a. ground (arith, adds a)),
  λ a i. ground (arith, apart a),
)

-- What `first_fit` finds, if anything.
abbrev pub Found : ℕ → ℕ → List Block → Option (ℕ × List Block) → Type 0
Found n p bs none = Unit {0}
Found n p bs (some (q, cs)) =
    HandsOut n p bs q cs
    × (Coalesced bs → Coalesced cs × (starts_free bs ≡ false → starts_free cs ≡ false))

Found-cons :
    (n p s : ℕ) (f : Bool) (bs : List Block) (o : Option (ℕ × List Block))
    → Found n (p + 8 + s) bs o
    → Found n p ((s, f) ∷ bs) (Option.map (λ (q, cs). (q, (s, f) ∷ cs)) o)
Found-cons n p s f bs none h = tt
Found-cons n p s f bs (some (q, cs)) (out, keep) =
    (HandsOut-cons n p s f bs q cs out, λ c. ((ground (arith, (keep c.1).1), (keep c.1).0), λ e. e))

first_fit-Found : (n p : ℕ) (bs : List Block) → Found n p bs (first_fit n p bs)
unfolding first_fit
first_fit-Found n p [] = tt
first_fit-Found n p ((s, false) ∷ bs) =
    Found-cons n p s false bs (first_fit n (p + 8 + s) bs) (first_fit-Found n (p + 8 + s) bs)
first_fit-Found n p ((s, true) ∷ bs) = elim (Bool-cases (leb n s)) [
  | inl fits ↦ rw fits (cut-HandsOut n p s bs (leb→le n s fits), λ c. cut-Coalesced n s bs c.0 c.1)
  | inr small ↦
      rw small
        (Found-cons n p s true bs (first_fit n (p + 8 + s) bs) (first_fit-Found n (p + 8 + s) bs))
]

pub length-span : (bs : List Block) → 8 * length bs ≤ span bs
unfolding span
length-span [] = omega arith
length-span ((s, f) ∷ bs) = omega (arith, length-span bs)

pub round_up_lem : (n : ℕ) → (round_up n % 4 ≡ 0) × (n ≤ 2 ^ 32 - 4 → n ≤ round_up n)
unfolding round_up
round_up_lem n = ground arith

-- The answer of `kmalloc`, in terms of the blocks `bs` of the heap: null and no change when no free
-- block is large enough; else the payload of a block that was free, of at least the size asked for.
-- No payload in use is written, no other payload changes hands, no two free blocks come to lie side
-- by side, and the interrupt flag is put back.
abbrev pub Mallocs : ℕ → Machine → List Block → Option (ℕ × List Block) → Run (ℕ × Machine) → Type 0
Mallocs n h bs none r = r ≡ ok (0, h)
Mallocs n h bs (some (q, cs)) r =
    (m : Mem) × (r ≡ ok (q + 8, record { mem = m; irq = h.irq }))
    × Chain m heap_start cs
    × HandsOut n heap_start bs q cs
    × (Coalesced bs → Coalesced cs)
    × ((a : ℕ) → owned heap_start bs a ≡ true → m a ≡ h.mem a)

-- The heap has a first block.
pub next_of-start :
    (m : Mem) (bs : List Block) → Chain m heap_start bs → next_of bs heap_start ≡ heap_start
next_of-start m [] c = absurd (omega arith)
next_of-start m (b ∷ bs) c = refl

module _ (n : ℕ) (h : Machine) (bs : List Block) where
  give_pointer-Mallocs :
      (o : Option (ℕ × List Block)) (r : Run (ℕ × Mem))
      → n ≤ round_up n
      → Allocates h.mem heap_start bs o r
      → Found (round_up n) heap_start bs o
      → Mallocs n h bs o (give_pointer h.irq false r)
  unfolding give_pointer
  give_pointer-Mallocs none r le run found = ap (give_pointer h.irq false) run
  give_pointer-Mallocs (some (q, cs)) r le (m, e, chain, nx, below, same)
        ((size, le', lo, hi, total, adds, apart), keep) =
      (
        m,
        ap (give_pointer h.irq false) e,
        chain,
        (size, omega arith, lo, hi, total, adds, apart),
        (λ co. (keep co).0),
        same,
      )

  -- `kmalloc` on a well-formed heap, for a request of at most 2^32 - 4 bytes, never runs on. It
  -- answers null and changes nothing when no free block is large enough; else it answers the
  -- payload of the first free block that is. No payload in use is written, no other payload
  -- changes hands, and the interrupt flag is put back.
  pub kmalloc-Mallocs :
      Chain h.mem heap_start bs
      → n ≤ 2 ^ 32 - 4
      → Mallocs n h bs (first_fit (round_up n) heap_start bs) (kmalloc n h)
  unfolding kmalloc
  kmalloc-Mallocs c le =
      give_pointer-Mallocs (first_fit (round_up n) heap_start bs) _ ((round_up_lem n).1 le)
        (subst
          (λ p.
            Allocates h.mem heap_start bs (first_fit (round_up n) heap_start bs)
              (alloc_loop max_blocks (round_up n) p h.mem))
          (next_of-start h.mem bs c)
          (alloc_loop-Allocates max_blocks (round_up n) heap_start bs h.mem (omega arith)
            (round_up_lem n).0 c (omega (arith, length-span bs, Chain-span h.mem heap_start bs c))))
        (first_fit-Found (round_up n) heap_start bs)
