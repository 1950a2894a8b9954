-- ===== src/Fs/Fat16/LongNames/Assembly.antt =====
-- The fragments of a long name, put together by the search of fs/fat16.c.
use benmosh_os.Prelude.{
  ℕ, ◌+◌, ◌-◌, ◌*◌, ◌%◌, ◌≤◌, ◌<◌, ◌≡◌, ◌⊎◌, inl, inr, refl, ap, ◌∙◌, arith, ◌==◌, ltb, leb,
  Bool-cases, if◌then◌else◌, List, update, bit_or, all_below-lt, ==_iff,
}
use benmosh_os.Fs.Volume.{Bytes, get16}
use benmosh_os.Fs.Fat16.Find.{lfn_char, copy_units, copy_fragment}
use benmosh_os.Fs.Fat16.Insert.{name_unit, put_units, lfn_record}
use benmosh_os.Fs.Fat16.LongNames.{
  Plain, char_at, lfn_char-name_unit, put_units-far, put_units-byte, put_units-unit,
  copy_units-other, copy_units-unit,
}

module _ (name : List ℕ) (plain : Plain name) (chksum number lfn_idx : ℕ) where
  abbrev fragment : Bytes
  fragment = lfn_record name chksum number lfn_idx

  abbrev start : ℕ
  start = (lfn_idx - 1) * 13

  abbrev header : Bytes
  header = update (update (update (λ _. 0) 0 number) 11 0x0F) 13 chksum

  abbrev first_run : Bytes
  first_run = put_units 5 name start 1 header

  abbrev second_run : Bytes
  second_run = put_units 6 name (start + 5) 14 first_run

  fragment-first : (j : ℕ) → j < 5 → get16 fragment (1 + 2 * j) ≡ name_unit name (start + j)
  unfolding lfn_record
  fragment-first j h =
      put_units-far 2 name (start + 11) 28 second_run (1 + 2 * j) (inl (omega (arith, h)))
      ∙ put_units-far 6 name (start + 5) 14 first_run (1 + 2 * j) (inl (omega (arith, h)))
      ∙ put_units-unit 5 name start 1 header j plain h

  fragment-second : (j : ℕ) → j < 6 → get16 fragment (14 + 2 * j) ≡ name_unit name (start + 5 + j)
  unfolding lfn_record
  fragment-second j h =
      put_units-far 2 name (start + 11) 28 second_run (14 + 2 * j) (inl (omega (arith, h)))
      ∙ put_units-unit 6 name (start + 5) 14 first_run j plain h

  fragment-third : (j : ℕ) → j < 2 → get16 fragment (28 + 2 * j) ≡ name_unit name (start + 11 + j)
  unfolding lfn_record
  fragment-third j h = put_units-unit 2 name (start + 11) 28 second_run j plain h

  pub fragment-number : fragment 0 ≡ number
  unfolding lfn_record
  fragment-number =
      put_units-byte 2 name (start + 11) 28 second_run 0 (inl (omega arith))
      ∙ put_units-byte 6 name (start + 5) 14 first_run 0 (inl (omega arith))
      ∙ put_units-byte 5 name start 1 header 0 (inl (omega arith))

  pub fragment-attributes : fragment 11 ≡ 0x0F
  unfolding lfn_record
  fragment-attributes =
      put_units-byte 2 name (start + 11) 28 second_run 11 (inl (omega arith))
      ∙ put_units-byte 6 name (start + 5) 14 first_run 11 (inl (omega arith))
      ∙ put_units-byte 5 name start 1 header 11 (inr (omega arith))

  module _ (o : ℕ) (buffer : Bytes) where
    abbrev copied_first : Bytes
    copied_first = copy_units 5 fragment 1 o buffer

    abbrev copied_second : Bytes
    copied_second = copy_units 6 fragment 14 (o + 5) copied_first

    -- A fragment puts its thirteen characters into the buffer.
    pub copy_fragment-char :
        (j : ℕ) → j < 13 → copy_fragment fragment o buffer (o + j) ≡ char_at name (start + j)
    unfolding copy_fragment
    copy_fragment-char j h = elim (Bool-cases (ltb j 5)) [
      | inl e ↦
          copy_units-other 2 fragment 28 (o + 11) copied_second (o + j) (inl (ground (arith, e)))
          ∙ copy_units-other 6 fragment 14 (o + 5) copied_first (o + j) (inl (ground (arith, e)))
          ∙ copy_units-unit 5 fragment 1 o buffer j (ground (arith, e))
          ∙ ap lfn_char (fragment-first j (ground (arith, e)))
          ∙ lfn_char-name_unit name (start + j) plain
      | inr e ↦ elim (Bool-cases (ltb j 11)) [
        | inl f ↦
            let i = j - 5 in
            let at : o + j ≡ o + 5 + i = ground (arith, e) in
            let pos : start + j ≡ start + 5 + i = ground (arith, e) in
            rw (at, pos)
              (copy_units-other 2 fragment 28 (o + 11) copied_second (o + 5 + i)
                  (inl (ground (arith, f)))
                ∙ copy_units-unit 6 fragment 14 (o + 5) copied_first i (ground (arith, e, f))
                ∙ ap lfn_char (fragment-second i (ground (arith, e, f)))
                ∙ lfn_char-name_unit name (start + 5 + i) plain)
        | inr f ↦
            let i = j - 11 in
            let at : o + j ≡ o + 11 + i = ground (arith, f) in
            let pos : start + j ≡ start + 11 + i = ground (arith, f) in
            rw (at, pos)
              (copy_units-unit 2 fragment 28 (o + 11) copied_second i (ground (arith, f, h))
                ∙ ap lfn_char (fragment-third i (ground (arith, f, h)))
                ∙ lfn_char-name_unit name (start + 11 + i) plain)
      ]
    ]

    pub copy_fragment-other :
        (k : ℕ) → (k < o) ⊎ (o + 13 ≤ k) → copy_fragment fragment o buffer k ≡ buffer k
    unfolding copy_fragment
    copy_fragment-other k h =
        copy_units-other 2 fragment 28 (o + 11) copied_second k (outside h 11 2 (omega arith))
        ∙ copy_units-other 6 fragment 14 (o + 5) copied_first k (outside h 5 6 (omega arith))
        ∙ copy_units-other 5 fragment 1 o buffer k
            (elim h [ inl x ↦ inl x | inr x ↦ inr (omega (arith, x)) ])
      where
        outside : (k < o) ⊎ (o + 13 ≤ k) → (a n : ℕ) → a + n ≤ 13 → (k < o + a) ⊎ (o + a + n ≤ k)
        outside (inl x) a n le = inl (omega (arith, x))
        outside (inr x) a n le = inr (omega (arith, x, le))

-- The buffer has the characters of the name from `lo` on, and zeros before.
abbrev pub Assembled : List ℕ → ℕ → Bytes → Type 0
Assembled name lo b = (k : ℕ) → b k ≡ (if leb lo k then char_at name k else 0)

-- The number of a fragment, with or without the bit 0x40.
pub number_bits : (m : ℕ) → m < 21 → bit_or m 0x40 % 32 ≡ m
number_bits m h =
    (==_iff (bit_or m 0x40 % 32) m).0 (all_below-lt 21 (λ i. bit_or i 0x40 % 32 == i) refl m h)

pub number_small : (m : ℕ) → m < 21 → bit_or m 0x40 < 0xE5
number_small m h =
    let small = all_below-lt 21 (λ i. ltb (bit_or i 0x40) 0xE5) refl m h in ground (arith, small)
