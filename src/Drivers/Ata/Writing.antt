-- ===== src/Drivers/Ata/Writing.antt =====
-- Which words a write of a sector by ata.c sends to the drive.
use benmosh_os.Prelude.{
  ℕ, zero, suc, ◌+◌, ◌*◌, ◌%◌, ◌^◌, ◌≡◌, inl, inr, refl, ap, ◌∙◌, true, arith, Bool-cases, List, [],
  ◌∷◌, ◌++◌,
}
use mathlib.Core.Bool.{false≢true}
use benmosh_os.Drivers.Ata.Registers.{register, lba_register, select-registers}
use benmosh_os.Drivers.Ata.{
  is_error, is_ready, PortWrite, outportb, outportw, Bus, Buffer, timeout, wait_for, send,
  send_words, select, ata_wait_ready, ata_wait_drq, ata_write_sector,
}

abbrev pub buffer_word : Buffer → ℕ → ℕ
buffer_word buffer j = buffer (2 * j) + 256 * buffer (2 * j + 1)

-- The first `n` words of the buffer on their way to the data port, the last one first.
pub data_words : Buffer → ℕ → List PortWrite
data_words buffer zero = []
data_words buffer (suc n) = outportw 0x1F0 (buffer_word buffer n) ∷ data_words buffer n

send_words-data_words :
    (n i : ℕ) (buffer : Buffer) (b : Bus) (before : List PortWrite)
    → b.writes ≡ data_words buffer i ++ before
    → (send_words n i buffer b).writes ≡ data_words buffer (i + n) ++ before
unfolding send_words data_words
send_words-data_words zero i buffer b before e =
    let here : i ≡ i + 0 = omega arith in e ∙ ap (λ k. data_words buffer k ++ before) here
send_words-data_words (suc n) i buffer b before e =
    let sent = send (outportw 0x1F0 (buffer_word buffer i)) b in
    let next : suc i ≡ i + 1 = omega arith in
    let all : i + 1 + n ≡ i + suc n = omega arith in
    send_words-data_words n (i + 1) buffer sent before (
      ap (λ ws. outportw 0x1F0 (buffer_word buffer i) ∷ ws) e
      ∙ ap (λ k. data_words buffer k ++ before) next)
    ∙ ap (λ k. data_words buffer k ++ before) all

wait_for-writes :
    (status word : ℕ → ℕ) (rounds mask : ℕ) (b : Bus)
    → (wait_for status word rounds mask b).1.writes ≡ b.writes
unfolding wait_for
wait_for-writes status word zero mask b = refl
wait_for-writes status word (suc rounds) mask b =
    let next : Bus = record b { polls = suc b.polls } in
    let rest = wait_for-writes status word rounds mask next in
    elim (Bool-cases (is_error (status b.polls))) [
      | inl e ↦ rw e refl
      | inr e ↦ elim (Bool-cases (is_ready mask (status b.polls))) [
        | inl r ↦ rw (e, r) refl
        | inr r ↦ rw (e, r) rest
      ]
    ]

-- The registers that `select` fills, the command last.
select-command :
    (lba command : ℕ) (b : Bus)
    → (rs : List PortWrite) × ((select lba command b).writes ≡ outportb 0x1F7 command ∷ rs)
      × (lba_register rs ≡ lba % 2 ^ 28)
      × (register 0x1F2 rs ≡ 1)
unfolding select lba_register register
select-command lba command b = (_, refl, (select-registers lba command b).0, refl)

-- A write of a sector that succeeds ends in these writes to the ports, each right behind the other: the command to
-- write, the 256 words of the buffer from the first on to the data port, each of its low and its high byte, and the
-- command to flush. When the command to write is sent, the registers hold the number of the sector modulo 2^28 and a
-- count of one.
pub ata_write_sector-words :
    (status word : ℕ → ℕ) (lba : ℕ) (buffer : Buffer) (b : Bus)
    → (ata_write_sector status word lba buffer b).0 ≡ true
    → (rs : List PortWrite) × ((ata_write_sector status word lba buffer b).1.writes
        ≡ outportb 0x1F7 0xE7 ∷ data_words buffer 256 ++ outportb 0x1F7 0x30 ∷ rs)
      × (lba_register rs ≡ lba % 2 ^ 28)
      × (register 0x1F2 rs ≡ 1)
unfolding ata_write_sector ata_wait_ready ata_wait_drq data_words
ata_write_sector-words status word lba buffer b ok =
    let wait_writes = wait_for-writes status word timeout in
    let b1 = (ata_wait_ready status word b).1 in
    let b2 = (ata_wait_drq status word (select lba 0x30 b1)).1 in
    let sent = send_words 256 0 buffer b2 in
    let b3 = (ata_wait_ready status word sent).1 in
    let (rs, command, sector, one) = select-command lba 0x30 b1 in
    let words =
      send_words-data_words 256 0 buffer b2 (outportb 0x1F7 0x30 ∷ rs)
        (wait_writes 0x08 (select lba 0x30 b1) ∙ command) in
    let all =
      wait_writes 0x40 (send (outportb 0x1F7 0xE7) b3)
      ∙ ap (λ ws. outportb 0x1F7 0xE7 ∷ ws) (wait_writes 0x40 sent ∙ words) in
    elim (Bool-cases (ata_wait_ready status word b).0) [
      | inr e ↦ absurd (false≢true (rw e at ok))
      | inl e ↦ elim (Bool-cases (ata_wait_drq status word (select lba 0x30 b1)).0) [
        | inr f ↦ absurd (false≢true (rw (e, f) at ok))
        | inl f ↦ elim (Bool-cases (ata_wait_ready status word sent).0) [
          | inr g ↦ absurd (false≢true (rw (e, f, g) at ok))
          | inl g ↦ (rs, rw (e, f, g) all, sector, one)
        ]
      ]
    ]
