-- ===== src/Heap/Roundtrip.antt =====
-- `kfree` undoes `kmalloc`.
use benmosh_os.Prelude.{
  ℕ, ◌+◌, ◌-◌, ◌^◌, ◌<◌, ◌≤◌, ◌≡◌, refl, sym, Bool, true, false, ◌&&◌, List, [], ◌∷◌, ◌++◌, arith,
  leb, Option, none, some, Bool-cases, inl, inr, ap, ◌∙◌, leb→le,
}
use mathlib.Core.Option
use mathlib.Core.Path.{subst}
use benmosh_os.Heap.{Mem, Machine, ok, heap_start, kmalloc, kfree, round_up}
use benmosh_os.Heap.Chain.{Block, Chain, span, owned}
use benmosh_os.Heap.Merge.{join_after, join_before}
use benmosh_os.Heap.Alloc.{cut, first_fit}
use benmosh_os.Heap.Malloc.{Coalesced, starts_free, Mallocs, kmalloc-Mallocs, round_up_lem}
use benmosh_os.Heap.Freed.{freed, join_after-cons}
use benmosh_os.Heap.Free.{kfree-Frees}

-- The block that was taken, and what freeing it gives.
abbrev Undoes : ℕ → ℕ → List Block → Option (ℕ × List Block) → Type 0
Undoes n p bs none = Unit {0}
Undoes n p bs (some (q, cs)) =
    (pre : List Block) × (s : ℕ) × (post : List Block) × (cs ≡ pre ++ (s, false) ∷ post)
    × (p + span pre ≡ q)
    × (n ≤ s)
    × (Coalesced bs → freed pre s post ≡ bs)

cut-Undoes :
    (n p s : ℕ) (bs : List Block) → n ≤ s → Undoes n p ((s, true) ∷ bs) (some (p, cut n s bs))
unfolding cut freed join_before join_after span
cut-Undoes n p s bs le = elim (Bool-cases (leb 24 (s - n))) [
  | inl big ↦ (
    [],
    n,
    (s - n - 8, true) ∷ bs,
    rw big refl,
    omega arith,
    omega arith,
    λ c. ap (λ t. (t, true) ∷ bs) (ground arith),
  )
  | inr tight ↦ ([], s, bs, rw tight refl, omega arith, le, λ c. alone bs c.0)
]
  where
    alone : (bs : List Block) → starts_free bs ≡ false → join_after s bs ≡ (s, true) ∷ bs
    alone [] h = refl
    alone ((t, true) ∷ bs) h = cc
    alone ((t, false) ∷ bs) h = refl

join_after-starts_free : (t : ℕ) (post : List Block) → starts_free (join_after t post) ≡ true
unfolding join_after
join_after-starts_free t [] = refl
join_after-starts_free t ((u, true) ∷ post) = refl
join_after-starts_free t ((u, false) ∷ post) = refl

freed-cons :
    (s : ℕ) (f : Bool) (pre : List Block) (t : ℕ) (post bs : List Block)
    → freed pre t post ≡ bs
    → (f && starts_free bs) ≡ false
    → freed ((s, f) ∷ pre) t post ≡ (s, f) ∷ bs
unfolding freed join_before
freed-cons s false [] t post bs e h = ground (arith, e, join_after-cons t post)
freed-cons s true [] t post bs e h =
    absurd (ground (arith, ap starts_free e, join_after-starts_free t post))
freed-cons s f (b ∷ pre) t post bs e h = ap (λ l. (s, f) ∷ l) e

Undoes-cons :
    (n p s : ℕ) (f : Bool) (bs : List Block) (o : Option (ℕ × List Block))
    → Undoes n (p + 8 + s) bs o
    → Undoes n p ((s, f) ∷ bs) (Option.map (λ (q, cs). (q, (s, f) ∷ cs)) o)
unfolding span
Undoes-cons n p s f bs none u = tt
Undoes-cons n p s f bs (some (q, cs)) (pre, t, post, e, at, le, back) = (
  (s, f) ∷ pre,
  t,
  post,
  ap (λ l. (s, f) ∷ l) e,
  omega arith,
  le,
  λ c. freed-cons s f pre t post bs (back c.1) c.0,
)

first_fit-Undoes : (n p : ℕ) (bs : List Block) → Undoes n p bs (first_fit n p bs)
unfolding first_fit
first_fit-Undoes n p [] = tt
first_fit-Undoes n p ((s, false) ∷ bs) =
    Undoes-cons n p s false bs (first_fit n (p + 8 + s) bs) (first_fit-Undoes n (p + 8 + s) bs)
first_fit-Undoes n p ((s, true) ∷ bs) = elim (Bool-cases (leb n s)) [
  | inl fits ↦ rw fits (cut-Undoes n p s bs (leb→le n s fits))
  | inr small ↦
      rw small
        (Undoes-cons n p s true bs (first_fit n (p + 8 + s) bs) (first_fit-Undoes n (p + 8 + s) bs))
]

-- The heap after a `kmalloc` of `n` bytes that answers `p`, and a `kfree` of `p`.
abbrev pub RoundTrip : ℕ → Machine → List Block → ℕ → Type 0
RoundTrip n h bs p =
    (m m' : Mem) × (kmalloc n h ≡ ok (p, record { mem = m; irq = h.irq }))
    × (kfree p (record { mem = m; irq = h.irq }) ≡ ok (record { mem = m'; irq = h.irq }))
    × Chain m' heap_start bs
    × ((a : ℕ) → owned heap_start bs a ≡ true → m' a ≡ h.mem a)

module _ (n : ℕ) (h : Machine) (bs : List Block) (pos : 0 < n) (fits : n ≤ 2 ^ 32 - 4)
    (neat : Coalesced bs) where
  undo :
      (o : Option (ℕ × List Block)) (q : ℕ) (cs : List Block)
      → o ≡ some (q, cs)
      → Undoes (round_up n) heap_start bs o
      → Mallocs n h bs o (kmalloc n h)
      → RoundTrip n h bs (q + 8)
  undo none q cs e u r = cc
  undo (some (q', cs')) q cs e (pre, s, post, same_blocks, at, le, back)
        (m, run, chain, out, keep, same) =
      let there : q' ≡ q = cc in
      let used : 0 < s = omega (arith, (round_up_lem n).1 fits) in
      let (m', run', chain', neat', own, same') =
        kfree-Frees (record { mem = m; irq = h.irq }) pre s post
          (subst (Chain m heap_start) same_blocks chain) used in
      subst (λ x. RoundTrip n h bs (x + 8)) there
        (
          m,
          m',
          run,
          subst
              (λ x.
                kfree (x + 8) (record { mem = m; irq = h.irq })
                ≡ ok (record { mem = m'; irq = h.irq }))
              at run',
          subst (Chain m' heap_start) (back neat) chain',
          λ a i. same' a (subst (λ l. owned heap_start l a ≡ true) (sym (back neat)) i) ∙ same a i,
        )

  -- `kfree` of what `kmalloc` has answered, not null, gives the blocks that there were, with every
  -- payload in use as it was, if the request is neither 0 nor over 2^32 - 4 and no two free blocks lay
  -- side by side.
  pub kmalloc-kfree :
      Chain h.mem heap_start bs
      → (q : ℕ) (cs : List Block) → first_fit (round_up n) heap_start bs ≡ some (q, cs)
      → RoundTrip n h bs (q + 8)
  kmalloc-kfree c q cs e =
      undo (first_fit (round_up n) heap_start bs) q cs e
        (first_fit-Undoes (round_up n) heap_start bs) (kmalloc-Mallocs n h bs c fits)
