-- ===== src/Heap/Freed.antt =====
-- What the blocks become when one in use is freed: both merges on the list, payloads, neighbours.
use benmosh_os.Prelude.{
  ℕ, suc, ◌+◌, ◌≤◌, ◌≡◌, ◌≢◌, refl, true, false, ◌&&◌, ◌||◌, not, List, [], ◌∷◌, ◌++◌, arith,
  length, update,
}
use mathlib.Core.Path.{subst}
use benmosh_os.Heap.{Mem, set_free}
use benmosh_os.Heap.Chain.{Block, Chain, span, owned, owned_bounds, Chain-frame}
use benmosh_os.Heap.Merge.{join_after, join_before}
use benmosh_os.Heap.Malloc.{inside, Coalesced, starts_free}

-- The blocks once the one of size `s` between `pre` and `post` is free.
unfoldable pub freed : List Block → ℕ → List Block → List Block
freed pre s post = join_before pre (join_after s post)

-- Marking the block free.
pub marked_free-Chain :
    (m : Mem) (q s : ℕ) (post : List Block)
    → Chain m q ((s, false) ∷ post)
    → Chain (update m q (set_free (m q))) q ((s, true) ∷ post)
marked_free-Chain m q s post c = (
  ground (arith, c),
  c.1,
  ground (arith, c),
  Chain-frame m (update m q (set_free (m q))) (q + 8 + s) post (λ a i. ground arith) c.3,
)

-- After the forward merge the block is at the front of a chain, whatever came after it.
pub join_after-cons :
    (s : ℕ) (post : List Block)
    → (v : ℕ) × (rest : List Block) × (join_after s post ≡ (v, true) ∷ rest)
unfolding join_after
join_after-cons s [] = (s, [], refl)
join_after-cons s ((t, true) ∷ post) = (s + t + 8, post, refl)
join_after-cons s ((t, false) ∷ post) = (s, (t, false) ∷ post, refl)

pub length-join_after : (s : ℕ) (post : List Block) → length (join_after s post) ≤ suc (length post)
unfolding join_after
length-join_after s [] = omega arith
length-join_after s ((t, true) ∷ post) = omega arith
length-join_after s ((t, false) ∷ post) = omega arith

-- Which payloads are in use then.
owned-join_before :
    (p : ℕ) (pre : List Block) (q v : ℕ) (rest : List Block) (a : ℕ)
    → p + span pre ≡ q
    → owned p (join_before pre ((v, true) ∷ rest)) a ≡ (owned p pre a || owned (q + 8 + v) rest a)
unfolding join_before span
owned-join_before p [] q v rest a e = let here : p ≡ q = omega arith in rw here refl
owned-join_before p ((u, false) ∷ []) q v rest a e =
    let here : p + 8 + u ≡ q = omega arith in rw here (ground arith)
owned-join_before p ((u, true) ∷ []) q v rest a e =
    let here : p + 8 + (u + v + 8) ≡ q + 8 + v = omega arith in rw here refl
owned-join_before p ((u, f) ∷ b ∷ pre) q v rest a e =
    ground (arith, owned-join_before (p + 8 + u) (b ∷ pre) q v rest a (omega arith))

owned-join_after :
    (q s : ℕ) (post : List Block) (a : ℕ) → owned q (join_after s post) a ≡ owned (q + 8 + s) post a
unfolding join_after
owned-join_after q s [] a = refl
owned-join_after q s ((t, true) ∷ post) a =
    let here : q + 8 + (s + t + 8) ≡ q + 8 + s + 8 + t = omega arith in rw here refl
owned-join_after q s ((t, false) ∷ post) a = refl

pub owned-append :
    (p : ℕ) (pre : List Block) (q : ℕ) (bs : List Block) (a : ℕ)
    → p + span pre ≡ q
    → owned p (pre ++ bs) a ≡ (owned p pre a || owned q bs a)
unfolding span
owned-append p [] q bs a e = let here : p ≡ q = omega arith in rw here refl
owned-append p ((u, f) ∷ pre) q bs a e =
    ground (arith, owned-append (p + 8 + u) pre q bs a (omega arith))

pub owned-freed :
    (p : ℕ) (pre : List Block) (q s : ℕ) (post : List Block) (a : ℕ)
    → p + span pre ≡ q
    → owned p (freed pre s post) a ≡ (owned p pre a || owned (q + 8 + s) post a)
unfolding freed
owned-freed p pre q s post a e =
    let (v, rest, eq) = join_after-cons s post in
    ground (arith, eq, owned-join_before p pre q v rest a e, owned-join_after q s post a)

pub owned-freed-append :
    (p : ℕ) (pre : List Block) (q s : ℕ) (post : List Block) (a : ℕ)
    → p + span pre ≡ q
    → owned p (freed pre s post) a ≡ (owned p (pre ++ (s, false) ∷ post) a && not (inside q s a))
owned-freed-append p pre q s post a e = ground (
  arith,
  owned-freed p pre q s post a e,
  owned-append p pre q ((s, false) ∷ post) a e,
  owned_bounds p pre a,
  owned_bounds (q + 8 + s) post a,
)

-- No two free blocks lie side by side after the merges.
join_before-Coalesced :
    (pre : List Block) (v : ℕ) (rest : List Block)
    → Coalesced pre
    → Coalesced ((v, true) ∷ rest)
    → Coalesced (join_before pre ((v, true) ∷ rest))
      × (starts_free pre ≡ false
          → pre ≢ []
          → starts_free (join_before pre ((v, true) ∷ rest)) ≡ false)
unfolding join_before
join_before-Coalesced [] v rest cp cr = (cr, λ h k. absurd (k refl))
join_before-Coalesced ((u, false) ∷ []) v rest cp cr = ((refl, cr), λ h k. refl)
join_before-Coalesced ((u, true) ∷ []) v rest cp cr = (cr, λ h k. cc)
join_before-Coalesced ((u, f) ∷ b ∷ pre) v rest cp cr =
    let (done, front) = join_before-Coalesced (b ∷ pre) v rest cp.1 cr in
    ((ground (arith, front), done), λ h k. h)

join_after-Coalesced : (s : ℕ) (post : List Block) → Coalesced post → Coalesced (join_after s post)
unfolding join_after
join_after-Coalesced s [] c = (refl, tt)
join_after-Coalesced s ((t, true) ∷ post) c = c
join_after-Coalesced s ((t, false) ∷ post) c = (refl, c)

Coalesced-append : (pre bs : List Block) → Coalesced (pre ++ bs) → Coalesced pre × Coalesced bs
Coalesced-append [] bs c = (tt, c)
Coalesced-append (x ∷ []) bs c = ((ground arith, tt), c.1)
Coalesced-append (x ∷ y ∷ pre) bs c =
    let (front, back) = Coalesced-append (y ∷ pre) bs c.1 in ((c.0, front), back)

pub freed-Coalesced :
    (pre : List Block) (s : ℕ) (post : List Block)
    → Coalesced (pre ++ (s, false) ∷ post)
    → Coalesced (freed pre s post)
unfolding freed
freed-Coalesced pre s post c =
    let (front, back) = Coalesced-append pre ((s, false) ∷ post) c in
    let (v, rest, e) = join_after-cons s post in
    rw e
      (join_before-Coalesced pre v rest front
        (subst Coalesced e (join_after-Coalesced s post back.1))).0
