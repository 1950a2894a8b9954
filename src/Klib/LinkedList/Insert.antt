-- ===== src/Klib/LinkedList/Insert.antt =====
-- Insertion at either end of a ring, as insertion in its list.
use benmosh_os.Prelude.{ℕ, ◌≡◌, ◌≢◌, false, List, [], ◌∷◌, ◌++◌, arith}
use benmosh_os.Klib.LinkedList.{Links, add_between, list_add_tail, list_add}
use benmosh_os.Klib.LinkedList.Ring.{
  Linked, has, Distinct, IsRing, Linked-frame, Linked-prev, has-≢, end-≢, Distinct-snoc,
}

Linked-add_tail :
    (l : Links) (n p : ℕ) (xs : List ℕ) (q : ℕ)
    → Linked l p xs q
    → Distinct (p ∷ xs)
    → has q xs ≡ false
    → has n (p ∷ xs) ≡ false
    → n ≢ q
    → Linked (add_between n (l.prev q) q l) p (xs ++ n ∷ []) q
unfolding add_between
Linked-add_tail l n p [] q (a, b) d e f g = ground (arith, a, b, f, g)
Linked-add_tail l n p (x ∷ xs) q (a, b, c) (d, d') e f g =
    let h = has-≢ (l.prev q) p (x ∷ xs) ((Linked-prev l x xs q c).0) d in
    (
      ground (arith, a, h, f),
      ground (arith, b, e, f, g),
      Linked-add_tail l n x xs q c d' (ground (arith, e)) (ground (arith, f)) g,
    )

-- `list_add_tail` puts a new node at the end of the list.
pub list_add_tail-IsRing :
    (l : Links) (n head : ℕ) (xs : List ℕ)
    → IsRing l head xs
    → has n (head ∷ xs) ≡ false
    → IsRing (list_add_tail n head l) head (xs ++ n ∷ [])
unfolding list_add_tail
list_add_tail-IsRing l n head xs r f = record {
  linked =
      Linked-add_tail l n head xs head (r.linked) (r.distinct) ((r.distinct).0) f
        (ground (arith, f));
  distinct = Distinct-snoc n (head ∷ xs) (r.distinct) f;
}

Linked-add :
    (l : Links) (n p : ℕ) (xs : List ℕ)
    → Linked l p xs p
    → Distinct (p ∷ xs)
    → has n (p ∷ xs) ≡ false
    → Linked (add_between n p (l.next p) l) p (n ∷ xs) p
unfolding add_between
Linked-add l n p [] (a, b) d f = ground (arith, a, b, f)
Linked-add l n p (x ∷ xs) (a, b, c) (d, d') f = (
  ground (arith),
  ground (arith, f),
  (
    ground (arith, a, f),
    ground (arith, a, d, f),
    Linked-frame l (add_between n p (l.next p) l) x xs p
        (λ z i.
          ground (arith, has-≢ z p (x ∷ xs) i d, has-≢ z n (p ∷ x ∷ xs) (ground (arith, i)) f))
        (λ z i. ground (
          arith,
          a,
          end-≢ z x p xs i (d'.0) (ground (arith, d)),
          end-≢ z n p xs i (ground (arith, f)) (ground (arith, f)),
        ))
        c,
  ),
)

-- `list_add` puts a new node at the start of the list.
pub list_add-IsRing :
    (l : Links) (n head : ℕ) (xs : List ℕ)
    → IsRing l head xs
    → has n (head ∷ xs) ≡ false
    → IsRing (list_add n head l) head (n ∷ xs)
unfolding list_add
list_add-IsRing l n head xs r f = record {
  linked = Linked-add l n head xs (r.linked) (r.distinct) f;
  distinct = ground (arith, f, r.distinct);
}
