-- ===== src/Pmm/Count.antt =====
-- How many numbers below a bound satisfy a test.
use benmosh_os.Prelude.{
  ℕ, zero, suc, ◌+◌, ◌<◌, ◌≤◌, ◌≡◌, refl, ◌≢◌, Bool, true, false, arith, if◌then◌else◌, ◌==◌,
  Bool-cases, inl, inr,
}

unfoldable pub count_below : ℕ → (ℕ → Bool) → ℕ
count_below zero p = 0
count_below (suc n) p = count_below n p + (if p n then 1 else 0)

pub count_below-le : (n : ℕ) (p : ℕ → Bool) → count_below n p ≤ n
unfolding count_below
count_below-le zero p = omega arith
count_below-le (suc n) p = ground (arith, count_below-le n p)

module _ (p q : ℕ → Bool) where
  pub count_below-same : (n : ℕ) → ((i : ℕ) → i < n → p i ≡ q i) → count_below n p ≡ count_below n q
  unfolding count_below
  count_below-same zero same = refl
  count_below-same (suc n) same =
      ground (arith, count_below-same n (λ i h. same i (omega arith)), same n (omega arith))

  -- Tests that differ at one number, where only the second holds, count to successive numbers.
  pub count_below-suc :
      (n f : ℕ)
      → f < n
      → p f ≡ false
      → q f ≡ true
      → ((i : ℕ) → i < n → i ≢ f → p i ≡ q i)
      → count_below n q ≡ suc (count_below n p)
  unfolding count_below
  count_below-suc zero f h no_f yes_f same = absurd (omega arith)
  count_below-suc (suc n) f h no_f yes_f same = elim (Bool-cases (f == n)) [
    | inl last ↦ ground (arith, count_below-same n (λ i k. same i (omega arith) (ground arith)))
    | inr before ↦ ground (
      arith,
      count_below-suc n f (ground arith) no_f yes_f (λ i k d. same i (omega arith) d),
      same n (omega arith),
    )
  ]
