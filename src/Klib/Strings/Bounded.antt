-- ===== src/Klib/Strings/Bounded.antt =====
-- What strncpy of klib/string.c leaves in memory.
use benmosh_os.Prelude.{
  ℕ, zero, suc, ◌+◌, ◌<◌, ◌≤◌, ◌≡◌, ◌⊎◌, inl, inr, refl, sym, ◌∙◌, arith, ◌==◌, true, false, ltb,
  if◌then◌else◌, ◌≢◌, update, update_ne, Bool-cases,
}
use benmosh_os.Klib.Bytes.Copies.{IsString, Outside, Disjoint}
use benmosh_os.Klib.Strings.{pad, strncpy_loop, strncpy}

pad-other : (n d i : ℕ) (m : ℕ → ℕ) (a : ℕ) → (a < d + i) ⊎ (d + i + n ≤ a) → pad n d i m a ≡ m a
unfolding pad
pad-other zero d i m a h = refl
pad-other (suc n) d i m a (inl h) =
    pad-other n d (i + 1) (update m (d + i) 0) a (inl (omega (arith, h))) ∙ ground (arith, h)
pad-other (suc n) d i m a (inr h) =
    pad-other n d (i + 1) (update m (d + i) 0) a (inr (omega (arith, h))) ∙ ground (arith, h)

pad-zero : (n d i : ℕ) (m : ℕ → ℕ) (j : ℕ) → i ≤ j → j < i + n → pad n d i m (d + j) ≡ 0
unfolding pad
pad-zero zero d i m j lo hi = absurd (omega (arith, lo, hi))
pad-zero (suc n) d i m j lo hi = elim (Bool-cases (i == j)) [
  | inl e ↦
      pad-other n d (i + 1) (update m (d + i) 0) (d + j) (inl (ground (arith, e)))
      ∙ ground (arith, e)
  | inr e ↦ pad-zero n d (i + 1) (update m (d + i) 0) j (ground (arith, e, lo)) (omega (arith, hi))
]

loop-other :
    (n d s i : ℕ) (m : ℕ → ℕ) (a : ℕ)
    → (a < d + i) ⊎ (d + i + n ≤ a)
    → strncpy_loop n d s i m a ≡ m a
unfolding strncpy_loop
loop-other zero d s i m a h = refl
loop-other (suc n) d s i m a (inl h) =
    let m₁ = update m (d + i) (m (s + i)) in
    let later = loop-other n d s (i + 1) m₁ a (inl (omega (arith, h))) in
    elim (Bool-cases (m (s + i) == 0)) [
      | inl e ↦ rw e (pad-other (suc n) d i m a (inl h))
      | inr e ↦ rw e (later ∙ ground (arith, h))
    ]
loop-other (suc n) d s i m a (inr h) =
    let m₁ = update m (d + i) (m (s + i)) in
    let later = loop-other n d s (i + 1) m₁ a (inr (omega (arith, h))) in
    elim (Bool-cases (m (s + i) == 0)) [
      | inl e ↦ rw e (pad-other (suc n) d i m a (inr h))
      | inr e ↦ rw e (later ∙ ground (arith, h))
    ]

-- The bytes before `k` are no nulls and the byte there is one, as far as the first `n` bytes tell.
record Ends (m : ℕ → ℕ) (str n k : ℕ) : Type 0 where
  chars : (j : ℕ) → j < k → j < n → m (str + j) ≢ 0
  null : k < n → m (str + k) ≡ 0

loop-bytes :
    (n d s i k : ℕ) (m : ℕ → ℕ) (j : ℕ)
    → Ends m s (i + n) k
    → Disjoint d s (i + n)
    → i ≤ k
    → i ≤ j
    → j < i + n
    → strncpy_loop n d s i m (d + j) ≡ (if ltb j k then m (s + j) else 0)
unfolding strncpy_loop
loop-bytes zero d s i k m j w h le lo hi = absurd (omega (arith, lo, hi))
loop-bytes (suc n) d s i k m j w h le lo hi = elim (Bool-cases (m (s + i) == 0)) [
  | inl e ↦
      let end = ends_here e in
      let past : ltb j k ≡ false = ground (arith, end, lo) in
      rw (e, past) (pad-zero (suc n) d i m j lo hi)
  | inr e ↦
      let before = goes_on e in
      rw e (elim (Bool-cases (i == j)) [
        | inl f ↦
            loop-other n d s (i + 1) m₁ (d + j) (inl (ground (arith, f)))
            ∙ ground (arith, f, before)
        | inr f ↦
            loop-bytes n d s (i + 1) k m₁ j rest (shift h) (omega (arith, before))
              (ground (arith, f, lo)) (omega (arith, hi))
            ∙ rw (kept j hi) refl
      ])
]
  where
    m₁ : ℕ → ℕ
    m₁ = update m (d + i) (m (s + i))

    ends_here : m (s + i) == 0 ≡ true → k ≤ i
    ends_here e = elim (Bool-cases (ltb i k)) [
      | inl a ↦ absurd (w.chars i (ground (arith, a)) (omega arith) (ground (arith, e)))
      | inr a ↦ ground (arith, a)
    ]

    goes_on : m (s + i) == 0 ≡ false → i < k
    goes_on e = elim (Bool-cases (i == k)) [
      | inl a ↦ let null = w.null (ground (arith, a)) in absurd (ground (arith, e, a, null))
      | inr a ↦ ground (arith, a, le)
    ]

    shift : Disjoint d s (i + suc n) → Disjoint d s (i + 1 + n)
    shift (inl x) = inl (omega (arith, x))
    shift (inr x) = inr (omega (arith, x))

    apart : (p : ℕ) → p < i + suc n → Disjoint d s (i + suc n) → d + i ≢ s + p
    apart p b (inl x) f = omega (arith, x, f)
    apart p b (inr x) f = omega (arith, x, f, b)

    kept : (p : ℕ) → p < i + suc n → m₁ (s + p) ≡ m (s + p)
    kept p b = update_ne m (d + i) (s + p) (m (s + i)) (apart p b h)

    rest : Ends m₁ s (i + 1 + n) k
    rest = record {
      chars = λ p a b e. w.chars p a (omega (arith, b)) (sym (kept p (omega (arith, b))) ∙ e);
      null = λ b. kept k (omega (arith, b)) ∙ w.null (omega (arith, b));
    }

-- `strncpy` of a string of `k` bytes to `n` bytes that do not overlap as many at the string: each byte is that of the
-- string before its end and a null from there on, and no other byte changes.
pub strncpy-bytes :
    (dest src n k : ℕ) (m : ℕ → ℕ)
    → IsString m src k
    → Disjoint dest src n
    → ((j : ℕ) → j < n → strncpy dest src n m (dest + j) ≡ (if ltb j k then m (src + j) else 0))
      × ((a : ℕ) → Outside a dest n → strncpy dest src n m a ≡ m a)
unfolding strncpy
strncpy-bytes dest src n k m s h = (
  (λ j b.
      loop-bytes n dest src 0 k m j ends (from_zero h) (omega arith) (omega arith)
        (omega (arith, b))),
  λ a o. loop-other n dest src 0 m a (outside o),
)
  where
    ends : Ends m src (0 + n) k
    ends = record { chars = λ j a b. s.chars j a; null = λ b. s.null }

    from_zero : Disjoint dest src n → Disjoint dest src (0 + n)
    from_zero (inl x) = inl (omega (arith, x))
    from_zero (inr x) = inr (omega (arith, x))

    outside : {a : ℕ} → Outside a dest n → (a < dest + 0) ⊎ (dest + 0 + n ≤ a)
    outside (inl x) = inl (omega (arith, x))
    outside (inr x) = inr (omega (arith, x))
