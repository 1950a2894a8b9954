-- ===== src/Drivers/Ata/Transfer.antt =====
-- What a read of a sector by ata.c leaves in the buffer.
use benmosh_os.Prelude.{
  ℕ, zero, suc, ◌+◌, ◌*◌, ◌/◌, ◌%◌, ◌≤◌, ◌<◌, ◌≡◌, ◌⊎◌, inl, inr, refl, ◌∙◌, true, false, arith,
  ◌==◌, Bool-cases, if◌then◌else◌, update,
}
use benmosh_os.Drivers.Ata.{
  Bus, Buffer, timeout, wait_for, read_words, ata_read_sector, ata_wait_ready, ata_wait_drq, select,
}

-- Byte number `j` of the words from number `first` on, little-endian.
abbrev pub word_byte : (ℕ → ℕ) → ℕ → ℕ → ℕ
word_byte word first j =
    if j % 2 == 0 then word (first + j / 2) % 256 else word (first + j / 2) / 256 % 256

module _ (status word : ℕ → ℕ) where
  wait_for-words :
      (rounds mask : ℕ) (b : Bus) → (wait_for status word rounds mask b).1.words ≡ b.words
  unfolding wait_for
  wait_for-words zero mask b = refl
  wait_for-words (suc rounds) mask b =
      let rest = wait_for-words rounds mask (record b { polls = suc b.polls }) in
      ground (arith, rest)

  read_words-above :
      (n i : ℕ) (buffer : Buffer) (b : Bus) (j : ℕ)
      → 2 * (i + n) ≤ j
      → (read_words status word n i buffer b).0 j ≡ buffer j
  unfolding read_words
  read_words-above zero i buffer b j h = refl
  read_words-above (suc n) i buffer b j h =
      read_words-above n (i + 1) _ _ j (omega (arith, h)) ∙ ground (arith, h)

  read_words-below :
      (n i : ℕ) (buffer : Buffer) (b : Bus) (j : ℕ)
      → j < 2 * i
      → (read_words status word n i buffer b).0 j ≡ buffer j
  unfolding read_words
  read_words-below zero i buffer b j h = refl
  read_words-below (suc n) i buffer b j h =
      read_words-below n (i + 1) _ _ j (omega (arith, h)) ∙ ground (arith, h)

  read_words-words :
      (n i : ℕ) (buffer : Buffer) (b : Bus)
      → (read_words status word n i buffer b).1.words ≡ b.words + n
  unfolding read_words
  read_words-words zero i buffer b = omega arith
  read_words-words (suc n) i buffer b =
      read_words-words n (i + 1) _ (record b { words = suc b.words }) ∙ omega arith

  -- `first` is the number that the word 0 of the buffer would have.
  read_words-bytes :
      (n i first : ℕ) (buffer : Buffer) (b : Bus) (j : ℕ)
      → b.words ≡ first + i
      → 2 * i ≤ j
      → j < 2 * (i + n)
      → (read_words status word n i buffer b).0 j ≡ word_byte word first j
  unfolding read_words
  read_words-bytes zero i first buffer b j start lo hi = absurd (omega (arith, lo, hi))
  read_words-bytes (suc n) i first buffer b j start lo hi = elim (Bool-cases (j / 2 == i)) [
    | inr e ↦
        read_words-bytes n (i + 1) first _ _ j (omega (arith, start)) (ground (arith, e, lo))
          (omega (arith, hi))
    | inl e ↦ read_words-below n (i + 1) _ _ j (ground (arith, e)) ∙ fresh (ground (arith, e))
  ]
    where
      fresh :
          j / 2 ≡ i
          → update
              (update buffer (2 * i) (word b.words % 256))
              (2 * i + 1)
              (word b.words / 256 % 256)
              j
            ≡ word_byte word first j
      fresh same =
          let w : b.words ≡ first + j / 2 = omega (arith, start, same) in
          rw w (ground (arith, same))

-- A read that succeeds leaves in the bytes 0 to 511 of the buffer the low and the high byte of the 256 words
-- that the drive answers next, and the bytes behind them as they were; a read that fails leaves the
-- whole buffer as it was and takes no word.
pub ata_read_sector-buffer :
    (status word : ℕ → ℕ) (lba : ℕ) (buffer : Buffer) (b : Bus)
    → let (ok, filled, after) = ata_read_sector status word lba buffer b in
      ((ok ≡ true)
        × ((j : ℕ) → j < 512 → filled j ≡ word_byte word b.words j)
        × ((j : ℕ) → 512 ≤ j → filled j ≡ buffer j)
        × (after.words ≡ b.words + 256))
      ⊎ ((ok ≡ false) × (filled ≡ buffer) × (after.words ≡ b.words))
unfolding ata_read_sector ata_wait_ready ata_wait_drq select
ata_read_sector-buffer status word lba buffer b =
    let b1 = (ata_wait_ready status word b).1 in
    let b2 = (ata_wait_drq status word (select lba 0x20 b1)).1 in
    let w1 = wait_for-words status word timeout 0x40 b in
    let w2 = wait_for-words status word timeout 0x08 (select lba 0x20 b1) ∙ w1 in
    elim (Bool-cases (ata_wait_ready status word b).0) [
      | inr e ↦ inr (rw e refl, rw e refl, rw e w1)
      | inl e ↦ elim (Bool-cases (ata_wait_drq status word (select lba 0x20 b1)).0) [
        | inr f ↦ inr (rw (e, f) refl, rw (e, f) refl, rw (e, f) w2)
        | inl f ↦ inl (
          rw (e, f) refl,
          λ j h.
              rw (e, f)
                (read_words-bytes status word 256 0 b.words buffer b2 j (omega (arith, w2))
                  (omega arith) (omega (arith, h))),
          λ j h. rw (e, f) (read_words-above status word 256 0 buffer b2 j (omega (arith, h))),
          rw (e, f) (read_words-words status word 256 0 buffer b2 ∙ omega (arith, w2)),
        )
      ]
    ]
