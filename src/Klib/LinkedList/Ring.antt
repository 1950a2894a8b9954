-- ===== src/Klib/LinkedList/Ring.antt =====
-- A ring stands for the list of its nodes, and the operations are those of lists.
use benmosh_os.Prelude.{
  ℕ, ◌≡◌, ◌≢◌, refl, ap, ◌∙◌, Bool, true, false, ◌||◌, List, [], ◌∷◌, ◌++◌, arith, ◌==◌,
}
use benmosh_os.Klib.LinkedList.{Links, list_init, list_empty}

-- From `p` on the nodes `xs` follow one another to `q`, and lead back.
abbrev pub Linked : Links → ℕ → List ℕ → ℕ → Type 0
Linked l p [] q = (l.next p ≡ q) × (l.prev q ≡ p)
Linked l p (x ∷ xs) q = (l.next p ≡ x) × (l.prev x ≡ p) × Linked l x xs q

abbrev pub has : ℕ → List ℕ → Bool
has a [] = false
has a (x ∷ xs) = (x == a) || has a xs

abbrev pub Distinct : List ℕ → Type 0
Distinct [] = Unit
Distinct (x ∷ xs) = (has x xs ≡ false) × Distinct xs

-- The ring at `head` holds `xs`, each node once.
pub record IsRing (l : Links) (head : ℕ) (xs : List ℕ) : Type 0 where
  pub linked : Linked l head xs head
  pub distinct : Distinct (head ∷ xs)

pub has-append : (a : ℕ) (xs ys : List ℕ) → has a (xs ++ ys) ≡ (has a xs || has a ys)
has-append a [] ys = refl
has-append a (x ∷ xs) ys = ground (arith, has-append a xs ys)

-- Writes to other fields leave a path alone.
pub Linked-frame :
    (l l' : Links) (p : ℕ) (xs : List ℕ) (q : ℕ)
    → ((a : ℕ) → (has a (p ∷ xs)) ≡ true → l'.next a ≡ l.next a)
    → ((a : ℕ) → (has a xs || q == a) ≡ true → l'.prev a ≡ l.prev a)
    → Linked l p xs q
    → Linked l' p xs q
Linked-frame l l' p [] q n r (a, b) = (n p (ground arith) ∙ a, r q (ground arith) ∙ b)
Linked-frame l l' p (x ∷ xs) q n r (a, b, c) = (
  n p (ground arith) ∙ a,
  r x (ground arith) ∙ b,
  Linked-frame l l' x xs q (λ y i. n y (ground arith)) (λ y i. r y (ground arith)) c,
)

-- A path is parted at a node of it.
pub Linked-split :
    (l : Links) (p : ℕ) (xs : List ℕ) (x : ℕ) (ys : List ℕ) (q : ℕ)
    → Linked l p (xs ++ x ∷ ys) q
    → Linked l p xs x × Linked l x ys q
Linked-split l p [] x ys q (a, b, c) = ((a, b), c)
Linked-split l p (y ∷ xs) x ys q (a, b, c) =
    let (d, e) = Linked-split l y xs x ys q c in ((a, b, d), e)

-- `list_init` makes an empty ring.
pub list_init-IsRing : (head : ℕ) (l : Links) → IsRing (list_init head l) head []
unfolding list_init
list_init-IsRing head l = ground arith

-- `list_empty` holds of the empty ring alone.
pub list_empty_lem :
    (l : Links) (head : ℕ) (xs : List ℕ)
    → IsRing l head xs
    → (list_empty head l ≡ true → xs ≡ []) × (xs ≡ [] → list_empty head l ≡ true)
unfolding list_empty
list_empty_lem l head [] r = ((λ h. refl), λ h. ground arith)
list_empty_lem l head (x ∷ xs) r = ((λ h. ground arith), λ h. cc)

-- The node before the end of a path is on it, and leads to the end.
pub Linked-prev :
    (l : Links) (p : ℕ) (xs : List ℕ) (q : ℕ)
    → Linked l p xs q
    → (has (l.prev q) (p ∷ xs) ≡ true) × (l.next (l.prev q) ≡ q)
Linked-prev l p [] q (a, b) = ground (arith, a, b)
Linked-prev l p (x ∷ xs) q (a, b, c) = let (d, e) = Linked-prev l x xs q c in (ground (arith, d), e)

pub Linked-next :
    (l : Links) (p : ℕ) (xs : List ℕ) (q : ℕ)
    → Linked l p xs q
    → ((has (l.next p) xs || q == l.next p) ≡ true) × (l.prev (l.next p) ≡ p)
Linked-next l p [] q (a, b) = ground (arith, a, b)
Linked-next l p (x ∷ xs) q (a, b, c) = ground (arith, a, b)

-- An absent node is none of those present.
pub has-≢ : (a b : ℕ) (xs : List ℕ) → has a xs ≡ true → has b xs ≡ false → a ≢ b
has-≢ a b xs h n e = cc

pub end-≢ :
    (a b q : ℕ) (xs : List ℕ) → (has a xs || q == a) ≡ true → has b xs ≡ false → q ≢ b → a ≢ b
end-≢ a b q xs h n m e = m (ground (arith, h, ap (λ c. has c xs) e, n) ∙ e)

pub Distinct-append-cons :
    (p : ℕ) (xs ys : List ℕ)
    → Distinct (xs ++ p ∷ ys)
    → Distinct (xs ++ ys) × (has p (xs ++ ys) ≡ false)
Distinct-append-cons p [] ys (n, d) = (d, n)
Distinct-append-cons p (x ∷ xs) ys (n, d) =
    let (e, f) = Distinct-append-cons p xs ys d in
    ground (arith, e, f, n, has-append x xs (p ∷ ys), has-append x xs ys)

pub Distinct-snoc : (p : ℕ) (xs : List ℕ) → Distinct xs → has p xs ≡ false → Distinct (xs ++ p ∷ [])
Distinct-snoc p [] d n = (refl, tt)
Distinct-snoc p (x ∷ xs) (m, d) n =
    (ground (arith, m, n, has-append x xs (p ∷ [])), Distinct-snoc p xs d (ground (arith, n)))
