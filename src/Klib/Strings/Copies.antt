-- ===== src/Klib/Strings/Copies.antt =====
-- A string that strcpy of klib/string.c copies, and its comparison with the copy.
use benmosh_os.Prelude.{
  ℕ, zero, suc, ◌+◌, ◌<◌, ◌≤◌, ◌≡◌, ◌≢◌, inl, inr, ap, sym, ◌∙◌, arith, update, update_ne, some,
}
use benmosh_os.Klib.Bytes.Copies.{IsString, Outside, Disjoint}
use benmosh_os.Klib.Strings.{strcpy, strcmp}

-- `m'` holds at `dest` the `n` bytes that `m` holds at `src`, and is `m` elsewhere.
pub record Copied (dest src n : ℕ) (m m' : ℕ → ℕ) : Type 0 where
  pub bytes : (j : ℕ) → j < n → m' (dest + j) ≡ m (src + j)
  pub others : (a : ℕ) → Outside a dest n → m' a ≡ m a

further : (p j : ℕ) → p + 1 + j ≡ p + suc j
further p j = omega arith

strcpy-Copied :
    (n rounds dest src : ℕ) (m : ℕ → ℕ)
    → IsString m src n
    → Disjoint dest src (n + 1)
    → n < rounds
    → (m' : ℕ → ℕ) × (strcpy rounds dest src m ≡ some m') × Copied dest src (n + 1) m m'
unfolding strcpy
strcpy-Copied n zero dest src m s h few = absurd (omega (arith, few))
strcpy-Copied zero (suc rounds) dest src m s h few =
    (update m dest 0, ground (arith, s.null), copied)
  where
    copied : Copied dest src 1 m (update m dest 0)
    copied = record {
      bytes = λ j b. ground (arith, b, s.null);
      others = λ a o. elim o [ inl x ↦ ground (arith, x) | inr x ↦ ground (arith, x) ];
    }
strcpy-Copied (suc k) (suc rounds) dest src m s h few =
    let first = s.chars 0 (omega arith) in
    let (m', e, c) =
      strcpy-Copied k rounds (dest + 1) (src + 1) m₁ rest (shift h) (omega (arith, few)) in
    (m', ground (arith, first, e), copied m' c)
  where
    m₁ : ℕ → ℕ
    m₁ = update m dest (m src)

    apart : (j : ℕ) → j ≤ suc k → Disjoint dest src (suc k + 1) → dest ≢ src + j
    apart j b (inl x) e = omega (arith, x, e)
    apart j b (inr x) e = omega (arith, x, e, b)

    kept : (j : ℕ) → j ≤ k → m₁ (src + 1 + j) ≡ m (src + suc j)
    kept j b =
        ap m₁ (further src j)
        ∙ update_ne m dest (src + suc j) (m src) (apart (suc j) (omega (arith, b)) h)

    rest : IsString m₁ (src + 1) k
    rest = record {
      chars = λ j b e. s.chars (suc j) (omega (arith, b)) (sym (kept j (omega (arith, b))) ∙ e);
      null = kept k (omega arith) ∙ s.null;
    }

    shift : Disjoint dest src (suc k + 1) → Disjoint (dest + 1) (src + 1) (k + 1)
    shift (inl x) = inl (omega (arith, x))
    shift (inr x) = inr (omega (arith, x))

    byte :
        (m' : ℕ → ℕ) (j : ℕ)
        → Copied (dest + 1) (src + 1) (k + 1) m₁ m'
        → j < suc k + 1
        → m' (dest + j) ≡ m (src + j)
    byte m' zero c b =
        let kept_first = c.others dest (inl (omega arith)) in ground (arith, kept_first)
    byte m' (suc i) c b =
        sym (ap m' (further dest i)) ∙ c.bytes i (omega (arith, b)) ∙ kept i (omega (arith, b))

    other :
        (m' : ℕ → ℕ) (a : ℕ)
        → Copied (dest + 1) (src + 1) (k + 1) m₁ m'
        → Outside a dest (suc k + 1)
        → m' a ≡ m a
    other m' a c (inl x) = c.others a (inl (omega (arith, x))) ∙ ground (arith, x)
    other m' a c (inr x) = c.others a (inr (omega (arith, x))) ∙ ground (arith, x)

    copied :
        (m' : ℕ → ℕ) → Copied (dest + 1) (src + 1) (k + 1) m₁ m' → Copied dest src (suc k + 1) m m'
    copied m' c = record { bytes = λ j. byte m' j c; others = λ a. other m' a c }

-- Strings with the same bytes, the null included, compare as equal.
strcmp-same :
    (n rounds s1 s2 : ℕ) (m : ℕ → ℕ)
    → IsString m s1 n
    → ((j : ℕ) → j < n + 1 → m (s2 + j) ≡ m (s1 + j))
    → n < rounds
    → strcmp rounds s1 s2 m ≡ some 0
unfolding strcmp
strcmp-same n zero s1 s2 m s h few = absurd (omega (arith, few))
strcmp-same zero (suc rounds) s1 s2 m s h few =
    let same = h 0 (omega arith) in ground (arith, s.null, same)
strcmp-same (suc k) (suc rounds) s1 s2 m s h few =
    let same = h 0 (omega arith) in
    let first = s.chars 0 (omega arith) in
    let e = strcmp-same k rounds (s1 + 1) (s2 + 1) m rest bytes (omega (arith, few)) in
    ground (arith, same, first, e)
  where
    rest : IsString m (s1 + 1) k
    rest = record {
      chars = λ j b e. s.chars (suc j) (omega (arith, b)) (sym (ap m (further s1 j)) ∙ e);
      null = ap m (further s1 k) ∙ s.null;
    }

    bytes : (j : ℕ) → j < k + 1 → m (s2 + 1 + j) ≡ m (s1 + 1 + j)
    bytes j b = ap m (further s2 j) ∙ h (suc j) (omega (arith, b)) ∙ sym (ap m (further s1 j))

-- `strcpy` of a string of `n` bytes to a place that does not overlap it comes to its end in `n + 1` rounds, changes the
-- memory of the copy only, and leaves a copy that `strcmp` finds equal to the string.
pub strcpy-strcmp :
    (n rounds dest src : ℕ) (m : ℕ → ℕ)
    → IsString m src n
    → Disjoint dest src (n + 1)
    → n < rounds
    → (m' : ℕ → ℕ) × (strcpy rounds dest src m ≡ some m')
      × Copied dest src (n + 1) m m'
      × (strcmp rounds src dest m' ≡ some 0)
strcpy-strcmp n rounds dest src m s h few =
    let (m', e, c) = strcpy-Copied n rounds dest src m s h few in
    (
      m',
      e,
      c,
      strcmp-same n rounds src dest m' (string m' c) (λ j b. c.bytes j b ∙ sym (source m' c j b))
          few,
    )
  where
    outside : (j : ℕ) → j < n + 1 → Disjoint dest src (n + 1) → Outside (src + j) dest (n + 1)
    outside j b (inl x) = inr (omega (arith, x))
    outside j b (inr x) = inl (omega (arith, x, b))

    source :
        (m' : ℕ → ℕ)
        → Copied dest src (n + 1) m m'
        → (j : ℕ) → j < n + 1
        → m' (src + j) ≡ m (src + j)
    source m' c j b = c.others (src + j) (outside j b h)

    string : (m' : ℕ → ℕ) → Copied dest src (n + 1) m m' → IsString m' src n
    string m' c = record {
      chars = λ j b e. s.chars j b (sym (source m' c j (omega (arith, b))) ∙ e);
      null = source m' c n (omega arith) ∙ s.null;
    }
