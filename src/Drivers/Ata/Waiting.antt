-- ===== src/Drivers/Ata/Waiting.antt =====
-- When the two waits of ata.c end, and with which answer.
use benmosh_os.Prelude.{
  ℕ, zero, suc, ◌+◌, ◌≤◌, ◌<◌, ◌≡◌, ◌↔◌, refl, sym, ◌∙◌, true, false, inl, inr, arith, Bool-cases,
  ◌==◌,
}
use mathlib.Core.Bool.{false≢true}
use benmosh_os.Drivers.Ata.{Bus, is_error, is_ready, wait_for, ata_wait_ready}

-- A status that neither ends the wait nor reports an error.
abbrev pub IsPending : ℕ → ℕ → Type 0
IsPending mask s = (is_error s ≡ false) × (is_ready mask s ≡ false)

abbrev pub IsAnswer : ℕ → ℕ → Type 0
IsAnswer mask s = (is_error s ≡ false) × (is_ready mask s ≡ true)

-- Among the `rounds` reads from number `n` on there is a status that ends the wait, and all before it are
-- pending.
abbrev pub AnswersWithin : (ℕ → ℕ) → ℕ → ℕ → ℕ → Type 0
AnswersWithin status rounds mask n =
    (k : ℕ) × (n ≤ k)
    × (k < n + rounds)
    × ((j : ℕ) → n ≤ j → j < k → IsPending mask (status j))
    × IsAnswer mask (status k)

module _ (status word : ℕ → ℕ) (mask : ℕ) where
  wait_for-error :
      (rounds : ℕ) (b : Bus)
      → is_error (status b.polls) ≡ true
      → (wait_for status word (suc rounds) mask b).0 ≡ false
  unfolding wait_for
  wait_for-error rounds b e = rw e refl

  wait_for-ready :
      (rounds : ℕ) (b : Bus)
      → IsAnswer mask (status b.polls)
      → (wait_for status word (suc rounds) mask b).0 ≡ true
  unfolding wait_for
  wait_for-ready rounds b (e, r) = rw (e, r) refl

  wait_for-pending :
      (rounds : ℕ) (b : Bus)
      → IsPending mask (status b.polls)
      → (wait_for status word (suc rounds) mask b).0
        ≡ (wait_for status word rounds mask (record b { polls = suc b.polls })).0
  unfolding wait_for
  wait_for-pending rounds b (e, r) = rw (e, r) refl

  -- A pending status comes before what the rest of the loop sees.
  later :
      (rounds n : ℕ)
      → IsPending mask (status n)
      → AnswersWithin status rounds mask (suc n)
      → AnswersWithin status (suc rounds) mask n
  later rounds n p (k, l, h, before, now) = (
    k,
    omega (arith, l),
    omega (arith, h),
    λ j le lt. elim (Bool-cases (n == j)) [
      | inl e ↦ let same : n ≡ j = ground (arith, e) in rw (sym same) p
      | inr e ↦ before j (ground (arith, e, le)) lt
    ],
    now,
  )

  wait_for-answers :
      (rounds : ℕ) (b : Bus)
      → (wait_for status word rounds mask b).0 ≡ true
      → AnswersWithin status rounds mask b.polls
  unfolding wait_for
  wait_for-answers zero b h = absurd (cc)
  wait_for-answers (suc rounds) b h = elim (Bool-cases (is_error (status b.polls))) [
    | inl e ↦ absurd (false≢true (sym (wait_for-error rounds b e) ∙ h))
    | inr e ↦ elim (Bool-cases (is_ready mask (status b.polls))) [
      | inl r ↦
          (b.polls, omega arith, omega arith, λ j le lt. absurd (omega (arith, le, lt)), (e, r))
      | inr r ↦
          later rounds b.polls (e, r)
            (wait_for-answers rounds (record b { polls = suc b.polls })
              (sym (wait_for-pending rounds b (e, r)) ∙ h))
    ]
  ]

  answers-wait_for :
      (rounds : ℕ) (b : Bus)
      → AnswersWithin status rounds mask b.polls
      → (wait_for status word rounds mask b).0 ≡ true
  answers-wait_for zero b (k, l, h, _, _) = absurd (omega (arith, l, h))
  answers-wait_for (suc rounds) b (k, l, h, before, now) = elim (Bool-cases (b.polls == k)) [
    | inl e ↦ let same : b.polls ≡ k = ground (arith, e) in wait_for-ready rounds b (rw same now)
    | inr e ↦
        wait_for-pending rounds b (before b.polls (omega arith) (ground (arith, e, l)))
        ∙ answers-wait_for rounds (record b { polls = suc b.polls })
            (
              k,
              ground (arith, e, l),
              omega (arith, h),
              λ j le lt. before j (omega (arith, le)) lt,
              now,
            )
  ]

  wait_for-polls :
      (rounds : ℕ) (b : Bus) → (wait_for status word rounds mask b).1.polls ≤ b.polls + rounds
  unfolding wait_for
  wait_for-polls zero b = omega arith
  wait_for-polls (suc rounds) b =
      let rest = wait_for-polls rounds (record b { polls = suc b.polls }) in ground (arith, rest)

-- `ata_wait_ready` succeeds just when, among the next million statuses, one has BSY clear and RDY set and
-- those up to it report no error and are not such themselves; in any case it reads no more than a million.
pub ata_wait_ready-answers :
    (status word : ℕ → ℕ) (b : Bus)
    → (((ata_wait_ready status word b).0 ≡ true) ↔ AnswersWithin status 1000000 0x40 b.polls)
      × ((ata_wait_ready status word b).1.polls ≤ b.polls + 1000000)
unfolding ata_wait_ready
ata_wait_ready-answers status word b = (
  (wait_for-answers status word 0x40 1000000 b, answers-wait_for status word 0x40 1000000 b),
  wait_for-polls status word 0x40 1000000 b,
)
