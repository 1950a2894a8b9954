-- ===== src/Fs/Fat16/LongNames/Reading.antt =====
-- The search of fs/fat16.c reads back the long name that `fat16_insert_entry` has written.
use benmosh_os.Prelude.{
  ℕ, zero, suc, ◌+◌, ◌-◌, ◌*◌, ◌/◌, ◌%◌, ◌≤◌, ◌<◌, ◌≡◌, inl, inr, refl, sym, ap, ◌∙◌, true, false,
  arith, ◌==◌, ltb, leb, Bool-cases, if◌then◌else◌, List, [], ◌∷◌, length, bit_or, ◌&&◌,
}
use benmosh_os.Fs.Volume.{Bytes}
use benmosh_os.Fs.Fat16.Names.{lower, lfn_checksum}
use benmosh_os.Fs.Fat16.Find.{copy_fragment, FindFile, take_fragment, same_lfn}
use benmosh_os.Fs.Fat16.Insert.{lfn_record, record_at}
use benmosh_os.Fs.Fat16.LongNames.{Plain, char_at}
use benmosh_os.Fs.Fat16.LongNames.Assembly.{
  Assembled, number_bits, number_small, fragment-number, copy_fragment-char, copy_fragment-other,
}

-- The context after the first `n` records from record `i` on, if they are fragments.
unfoldable pub take_all : ℕ → (ℕ → Bytes) → ℕ → FindFile → FindFile
take_all zero entry i ctx = ctx
take_all (suc n) entry i ctx = take_all n entry (i + 1) (take_fragment (entry i) ctx)

pub char_at-end : (name : List ℕ) (k : ℕ) → length name ≤ k → char_at name k ≡ 0
unfolding char_at
char_at-end [] k h = refl
char_at-end (c ∷ name) zero h = absurd (omega (arith, h))
char_at-end (c ∷ name) (suc k) h = char_at-end name k (omega (arith, h))

module _ (name : List ℕ) (plain : Plain name) where
  fragment-Assembled :
      (chksum number m : ℕ) (b : Bytes)
      → Assembled name (13 * suc m) b
      → Assembled name (13 * m) (copy_fragment (lfn_record name chksum number (suc m)) (m * 13) b)
  fragment-Assembled chksum number m b h k = elim (Bool-cases (ltb k (m * 13))) [
    | inl e ↦
        copy_fragment-other name plain chksum number (suc m) (m * 13) b k (inl (ground (arith, e)))
        ∙ h k
        ∙ ground (arith, e)
    | inr e ↦ elim (Bool-cases (ltb k (m * 13 + 13))) [
      | inr f ↦
          copy_fragment-other name plain chksum number (suc m) (m * 13) b k
            (inr (ground (arith, f)))
          ∙ h k
          ∙ ground (arith, f)
      | inl f ↦
          let j = k - m * 13 in
          let place : m * 13 + j ≡ k = ground (arith, e) in
          let pos : (suc m - 1) * 13 + j ≡ k = ground (arith, e) in
          ap (copy_fragment (lfn_record name chksum number (suc m)) (m * 13) b) (sym place)
          ∙ copy_fragment-char name plain chksum number (suc m) (m * 13) b j (ground (arith, e, f))
          ∙ ap (char_at name) pos
          ∙ ground (arith, e)
    ]
  ]

  pub record_number : ℕ → ℕ → ℕ
  record_number i m = if i == 0 then bit_or (suc m % 256) 0x40 else suc m % 256

  pub record_number-bits : (i m : ℕ) → m < 20 → record_number i m % 32 ≡ suc m
  unfolding record_number
  record_number-bits i m h =
      let small : suc m % 256 ≡ suc m = omega (arith, h) in
      let bits = number_bits (suc m) (omega (arith, h)) in
      rw small (elim (Bool-cases (i == 0)) [ inl e ↦ rw e bits | inr e ↦ rw e (omega (arith, h)) ])

  pub record_number-lt : (i m : ℕ) → m < 20 → record_number i m < 0xE5
  unfolding record_number
  record_number-lt i m h =
      let small : suc m % 256 ≡ suc m = omega (arith, h) in
      let below = number_small (suc m) (omega (arith, h)) in
      rw small (elim (Bool-cases (i == 0)) [ inl e ↦ rw e below | inr e ↦ rw e (omega (arith, h)) ])

  module _ (sfn : List ℕ) (attributes cluster size : ℕ) where
    pub record_at-lfn :
        (i m : ℕ)
        → i + suc m ≡ (length name + 12) / 13
        → record_at name sfn attributes cluster size i
          ≡ lfn_record name (lfn_checksum sfn) (record_number i m) (suc m)
    unfolding record_at record_number
    record_at-lfn i m h =
        let inside : ltb i ((length name + 12) / 13) ≡ true = ground (arith, h) in
        let number : (length name + 12) / 13 - i ≡ suc m = omega (arith, h) in
        rw (inside, number) refl

    take_fragment-record :
        (i m : ℕ) (ctx : FindFile)
        → i + suc m ≡ (length name + 12) / 13
        → m < 20
        → take_fragment (record_at name sfn attributes cluster size i) ctx ≡ record ctx {
          lfn_buffer =
              copy_fragment
                (lfn_record name (lfn_checksum sfn) (record_number i m) (suc m))
                (m * 13)
                ctx.lfn_buffer;
        }
    unfolding take_fragment
    take_fragment-record i m ctx h small =
        let number : lfn_record name (lfn_checksum sfn) (record_number i m) (suc m) 0 % 32 ≡ suc m =
          ap (λ x. x % 32)
            (fragment-number name plain (lfn_checksum sfn) (record_number i m) (suc m))
          ∙ record_number-bits i m small in
        let guard : leb 1 (suc m) && leb (suc m) 20 ≡ true = ground (arith, small) in
        let offset : suc m - 1 ≡ m = omega arith in
        rw (record_at-lfn i m h, number, guard, offset) refl

    pub take_all-Assembled :
        (m i : ℕ) (ctx : FindFile)
        → i + m ≡ (length name + 12) / 13
        → m ≤ 20
        → Assembled name (13 * m) ctx.lfn_buffer
        → ((k : ℕ)
            → (take_all m (record_at name sfn attributes cluster size) i ctx).lfn_buffer k
              ≡ char_at name k)
          × ((take_all m (record_at name sfn attributes cluster size) i ctx).target_name
              ≡ ctx.target_name)
    unfolding take_all
    take_all-Assembled zero i ctx h small done = (λ k. done k ∙ ground arith, refl)
    take_all-Assembled (suc m) i ctx h small done =
        let next =
          take_all-Assembled m (i + 1)
            record ctx {
              lfn_buffer =
                  copy_fragment (lfn_record name (lfn_checksum sfn) (record_number i m) (suc m))
                    (m * 13) ctx.lfn_buffer;
            }
            (omega (arith, h)) (omega (arith, small))
            (fragment-Assembled (lfn_checksum sfn) (record_number i m) m ctx.lfn_buffer done) in
        rw (take_all, take_fragment-record i m ctx h (omega (arith, small))) next

pub same_lfn-char_at :
    (target : List ℕ) (b : Bytes) (i : ℕ)
    → Plain target
    → ((j : ℕ) → b (i + j) ≡ char_at target j)
    → same_lfn b i target ≡ true
unfolding same_lfn char_at
same_lfn-char_at [] b i plain h = let e : b i ≡ 0 = ap b (omega arith) ∙ h 0 in rw e refl
same_lfn-char_at (c ∷ target) b i (lo, hi, plain) h =
    let e : b i ≡ c = ap b (omega arith) ∙ h 0 in
    let rest = same_lfn-char_at target b (i + 1) plain (λ j. ap b (omega arith) ∙ h (suc j)) in
    let nonzero : (c == 0) ≡ false = ground (arith, lo) in
    let same : (lower c == lower c) ≡ true = ground arith in rw (e, nonzero, same) rest

pub char_at-first : (name : List ℕ) → Plain name → 1 ≤ length name → (char_at name 0 == 0) ≡ false
unfolding char_at
char_at-first [] plain some = absurd (omega (arith, some))
char_at-first (c ∷ name) (lo, _, _) some = ground (arith, lo)
