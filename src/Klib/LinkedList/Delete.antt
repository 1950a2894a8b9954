-- ===== src/Klib/LinkedList/Delete.antt =====
-- Removal from a ring, as removal from its list, and the panic of `list_del`.
use mathlib.Core.Path.{subst}
use benmosh_os.Prelude.{
  ℕ, ◌≡◌, ◌≢◌, ◌↔◌, sym, false, List, [], ◌∷◌, ◌++◌, arith, Option, none, some, ◌⊎◌,
}
use benmosh_os.Klib.LinkedList.{Links, list_del, unlink}
use benmosh_os.Klib.LinkedList.Ring.{
  Linked, has, Distinct, IsRing, has-append, Linked-frame, Linked-split, Linked-prev, Linked-next,
  has-≢, end-≢, Distinct-append-cons,
}

-- Taking `x` out of a path.
Linked-unlink :
    (l : Links) (x p : ℕ) (pre post : List ℕ) (q : ℕ)
    → Linked l p pre x
    → Linked l x post q
    → Distinct (p ∷ pre ++ x ∷ post)
    → has q (pre ++ x ∷ post) ≡ false
    → Linked (unlink x l) p (pre ++ post) q
unfolding unlink
Linked-unlink l x p [] [] q (a, b) (a', b') d e = ground (arith, a, b, a', b', d, e)
Linked-unlink l x p [] (y ∷ ys) q (a, b) (a', b', c') d e = (
  ground (arith, a, b, a', d),
  ground (arith, a, b, a', d),
  Linked-frame l (unlink x l) y ys q
      (λ c i.
        ground (
          arith,
          b,
          has-≢ c p (x ∷ y ∷ ys) (ground (arith, i)) (d.0),
          has-≢ c x (y ∷ ys) i (d.1.0),
        ))
      (λ c i. ground (
        arith,
        b,
        a',
        d,
        end-≢ c y q ys i (d.1.1.0) (ground (arith, e)),
        end-≢ c x q ys i (ground (arith, d)) (ground (arith, e)),
      ))
      c',
)
Linked-unlink l x p (z ∷ zs) post q (a, b, c) r d e =
    let (_, absent) = Distinct-append-cons x (p ∷ z ∷ zs) post d in
    let (before, _) = Linked-prev l z zs x c in
    let (after, _) = Linked-next l x post q r in
    let p_zs = has-append p (z ∷ zs) (x ∷ post) in
    let x_zs = has-append x (p ∷ z ∷ zs) post in
    let z_zs = has-append z zs (x ∷ post) in
    let h = has-≢ (l.prev x) p (z ∷ zs) before (ground (arith, p_zs, d.0)) in
    let i = has-≢ (l.prev x) x (z ∷ zs) before (ground (arith, x_zs, absent)) in
    let j = end-≢ (l.next x) z q post after (ground (arith, z_zs, d.1.0)) (ground (arith, e)) in
    (
      ground (arith, a, h, absent),
      ground (arith, b, i, j, absent),
      Linked-unlink l x z zs post q c r (d.1) (ground (arith, e)),
    )

list_del-unlink :
    (l : Links) (x : ℕ)
    → l.prev (l.next x) ≡ x
    → l.next (l.prev x) ≡ x
    → list_del x l ≡ some (unlink x l)
unfolding list_del
list_del-unlink l x a b = ground (arith, a, b)

-- What `list_del` owes: the same ring without the node, whose fields are null.
pub Deletes : ℕ → ℕ → List ℕ → Option Links → Type 0
Deletes x head xs none = ⊥
Deletes x head xs (some l) = IsRing l head xs × (l.next x ≡ 0) × (l.prev x ≡ 0)

-- `list_del` of a node of a ring does not panic: it leaves the ring of the other nodes, in their
-- order, and the node with null fields.
pub list_del-Deletes :
    (l : Links) (x head : ℕ) (pre post : List ℕ)
    → IsRing l head (pre ++ x ∷ post)
    → Deletes x head (pre ++ post) (list_del x l)
unfolding unlink Deletes
list_del-Deletes l x head pre post r =
    let (before, after) = Linked-split l head pre x post head (r.linked) in
    let e =
      list_del-unlink l x ((Linked-next l x post head after).1)
        ((Linked-prev l head pre x before).1) in
    let (distinct_nodes, _) = Distinct-append-cons x (head ∷ pre) post (r.distinct) in
    subst (Deletes x head (pre ++ post)) (sym e) (
      record {
        linked = Linked-unlink l x head pre post head before after (r.distinct) ((r.distinct).0);
        distinct = distinct_nodes;
      },
      ground (arith),
      ground (arith),
    )

-- `list_del` panics on a node whose neighbours do not both point back at it.
pub list_del-panic :
    (l : Links) (x : ℕ)
    → (list_del x l ≡ none) ↔ ((l.prev (l.next x) ≢ x) ⊎ (l.next (l.prev x) ≢ x))
unfolding list_del
list_del-panic l x = ground arith
