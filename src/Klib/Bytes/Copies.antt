-- ===== src/Klib/Bytes/Copies.antt =====
-- What the routines leave in memory, and what they find there.
use benmosh_os.Prelude.{
  ℕ, zero, suc, ◌+◌, ◌<◌, ◌≤◌, ◌≡◌, ◌≢◌, ◌↔◌, ◌⊎◌, inl, inr, refl, ap, ◌∙◌, arith, ◌==◌, update,
  update_ne, Bool-cases, some,
}
use benmosh_os.Klib.Bytes.{memcpy_loop, memcpy, memset_loop, memset, memcmp, strlen_loop, strlen}

-- `a` is none of the `n` addresses from `p` on.
abbrev pub Outside : ℕ → ℕ → ℕ → Type 0
Outside a p n = (a < p) ⊎ (p + n ≤ a)

-- Two ranges of `n` bytes share none.
abbrev pub Disjoint : ℕ → ℕ → ℕ → Type 0
Disjoint p q n = (p + n ≤ q) ⊎ (q + n ≤ p)

loop-other :
    (n d s i : ℕ) (m : ℕ → ℕ) (a : ℕ)
    → (a < d + i) ⊎ (d + i + n ≤ a)
    → memcpy_loop n d s i m a ≡ m a
unfolding memcpy_loop
loop-other zero d s i m a h = refl
loop-other (suc n) d s i m a (inl h) =
    loop-other n d s (i + 1) (update m (d + i) (m (s + i))) a (inl (omega (arith, h)))
    ∙ ground (arith, h)
loop-other (suc n) d s i m a (inr h) =
    loop-other n d s (i + 1) (update m (d + i) (m (s + i))) a (inr (omega (arith, h)))
    ∙ ground (arith, h)

loop-copies :
    (n d s i : ℕ) (m : ℕ → ℕ) (j : ℕ)
    → Disjoint d s (i + n)
    → i ≤ j
    → j < i + n
    → memcpy_loop n d s i m (d + j) ≡ m (s + j)
unfolding memcpy_loop
loop-copies zero d s i m j h lo hi = absurd (omega (arith, lo, hi))
loop-copies (suc n) d s i m j h lo hi =
    let m' = update m (d + i) (m (s + i)) in
    elim (Bool-cases (i == j)) [
      | inl e ↦ loop-other n d s (i + 1) m' (d + j) (inl (ground (arith, e))) ∙ ground (arith, e)
      | inr e ↦
          loop-copies n d s (i + 1) m' j (shift h) (ground (arith, e, lo)) (omega (arith, hi))
          ∙ update_ne m (d + i) (s + j) (m (s + i)) (λ f. apart h f)
    ]
  where
    shift : Disjoint d s (i + suc n) → Disjoint d s (i + 1 + n)
    shift (inl x) = inl (omega (arith, x))
    shift (inr x) = inr (omega (arith, x))

    apart : Disjoint d s (i + suc n) → d + i ≢ s + j
    apart (inl x) f = omega (arith, x, f)
    apart (inr x) f = omega (arith, x, f, hi)

-- `memcpy` between ranges that share no byte: the destination holds the bytes of the source, and no
-- other byte changes.
pub memcpy_lem :
    (dest src count : ℕ) (m : ℕ → ℕ)
    → Disjoint dest src count
    → ((j : ℕ) → j < count → memcpy dest src count m (dest + j) ≡ m (src + j))
      × ((a : ℕ) → Outside a dest count → memcpy dest src count m a ≡ m a)
unfolding memcpy
memcpy_lem dest src count m h = (
  (λ j b. loop-copies count dest src 0 m j (all_rounds h) (omega arith) (omega (arith, b))),
  λ a o. loop-other count dest src 0 m a (from_zero o),
)
  where
    all_rounds : Disjoint dest src count → Disjoint dest src (0 + count)
    all_rounds (inl x) = inl (omega (arith, x))
    all_rounds (inr x) = inr (omega (arith, x))

    from_zero : {a : ℕ} → Outside a dest count → (a < dest + 0) ⊎ (dest + 0 + count ≤ a)
    from_zero (inl x) = inl (omega (arith, x))
    from_zero (inr x) = inr (omega (arith, x))

set-other :
    (n d v i : ℕ) (m : ℕ → ℕ) (a : ℕ)
    → (a < d + i) ⊎ (d + i + n ≤ a)
    → memset_loop n d v i m a ≡ m a
unfolding memset_loop
set-other zero d v i m a h = refl
set-other (suc n) d v i m a (inl h) =
    set-other n d v (i + 1) (update m (d + i) v) a (inl (omega (arith, h))) ∙ ground (arith, h)
set-other (suc n) d v i m a (inr h) =
    set-other n d v (i + 1) (update m (d + i) v) a (inr (omega (arith, h))) ∙ ground (arith, h)

set-fills :
    (n d v i : ℕ) (m : ℕ → ℕ) (j : ℕ) → i ≤ j → j < i + n → memset_loop n d v i m (d + j) ≡ v
unfolding memset_loop
set-fills zero d v i m j lo hi = absurd (omega (arith, lo, hi))
set-fills (suc n) d v i m j lo hi = elim (Bool-cases (i == j)) [
  | inl e ↦
      set-other n d v (i + 1) (update m (d + i) v) (d + j) (inl (ground (arith, e)))
      ∙ ground (arith, e)
  | inr e ↦
      set-fills n d v (i + 1) (update m (d + i) v) j (ground (arith, e, lo)) (omega (arith, hi))
]

-- `memset`: each byte of the range holds the value, and no other byte changes.
pub memset_lem :
    (dest v count : ℕ) (m : ℕ → ℕ)
    → ((j : ℕ) → j < count → memset dest v count m (dest + j) ≡ v)
      × ((a : ℕ) → Outside a dest count → memset dest v count m a ≡ m a)
unfolding memset
memset_lem dest v count m = (
  (λ j b. set-fills count dest v 0 m j (omega arith) (omega (arith, b))),
  λ a o. set-other count dest v 0 m a (from_zero o),
)
  where
    from_zero : {a : ℕ} → Outside a dest count → (a < dest + 0) ⊎ (dest + 0 + count ≤ a)
    from_zero (inl x) = inl (omega (arith, x))
    from_zero (inr x) = inr (omega (arith, x))

-- A string of `n` bytes and its null.
pub record IsString (m : ℕ → ℕ) (str n : ℕ) : Type 0 where
  pub chars : (j : ℕ) → j < n → m (str + j) ≢ 0
  pub null : m (str + n) ≡ 0

strlen_loop-rest :
    (rounds str len n : ℕ) (m : ℕ → ℕ)
    → IsString m str n
    → len ≤ n
    → n < len + rounds
    → strlen_loop rounds str len m ≡ some n
unfolding strlen_loop
strlen_loop-rest zero str len n m s lo hi = absurd (omega (arith, lo, hi))
strlen_loop-rest (suc rounds) str len n m s lo hi = elim (Bool-cases (len == n)) [
  | inl e ↦ ground (arith, e, s.null)
  | inr e ↦
      (let rest =
          strlen_loop-rest rounds str (len + 1) n m s (ground (arith, e, lo)) (omega (arith, hi)) in
        let more = s.chars len (ground (arith, e, lo)) in ground (arith, rest, more))
]

-- `strlen` of a string of `n` bytes is `n`, and takes no more than `n + 1` rounds.
pub strlen_lem :
    (rounds str n : ℕ) (m : ℕ → ℕ) → IsString m str n → n < rounds → strlen rounds str m ≡ some n
unfolding strlen
strlen_lem rounds str n m s h = strlen_loop-rest rounds str 0 n m s (omega arith) (omega (arith, h))

-- `memcmp` is 0 exactly when the two ranges hold the same bytes.
pub memcmp_lem :
    (count s1 s2 : ℕ) (m : ℕ → ℕ)
    → (memcmp count s1 s2 m ≡ 0) ↔ ((j : ℕ) → j < count → m (s1 + j) ≡ m (s2 + j))
unfolding memcmp
memcmp_lem zero s1 s2 m = ((λ h j b. absurd (omega (arith, b))), λ h. refl)
memcmp_lem (suc count) s1 s2 m =
    let (there, back) = memcmp_lem count (s1 + 1) (s2 + 1) m in
    (
      (λ h.
          let first : m s1 ≡ m s2 = ground (arith, h) in
          let others : memcmp count (s1 + 1) (s2 + 1) m ≡ 0 = ground (arith, h) in
          equal_from first (there others)),
      λ h.
          let first : m s1 ≡ m s2 = ap m (omega arith) ∙ h 0 (omega arith) ∙ ap m (omega arith) in
          let others =
            back (λ j b. ap m (omega arith) ∙ h (j + 1) (omega (arith, b)) ∙ ap m (omega arith)) in
          ground (arith, first, others),
    )
  where
    equal_from :
        m s1 ≡ m s2
        → ((j : ℕ) → j < count → m (s1 + 1 + j) ≡ m (s2 + 1 + j))
        → (j : ℕ) → j < suc count
        → m (s1 + j) ≡ m (s2 + j)
    equal_from first others zero b = ap m (omega arith) ∙ first ∙ ap m (omega arith)
    equal_from first others (suc j) b =
        ap m (omega arith) ∙ others j (omega (arith, b)) ∙ ap m (omega arith)
