-- ===== src/Drivers/Ata/Tests.antt =====
-- The driver of the disk at concrete inputs.
use benmosh_os.Prelude.{
  ℕ, ◌+◌, ◌%◌, ◌^◌, ◌≤◌, ◌<◌, ◌≡◌, refl, ◌↔◌, ◌⊎◌, true, false, List, [], ◌∷◌, ◌++◌, if◌then◌else◌,
  ltb,
}
use benmosh_os.Drivers.Ata.{
  PortWrite, outportb, Bus, ata_wait_ready, ata_read_sector, ata_write_sector, ata_wait_drq,
  wait_for,
}
use benmosh_os.Drivers.Ata.Registers.{lba_register, register}
use benmosh_os.Drivers.Ata.Writing.{data_words, ata_write_sector-words}
use benmosh_os.Drivers.Ata.Waiting.{AnswersWithin, ata_wait_ready-answers}
use benmosh_os.Drivers.Ata.Transfer.{word_byte, ata_read_sector-buffer}

-- A drive that is busy for three reads of its status, and then ready with data.
abbrev busy_first : ℕ → ℕ
busy_first n = if ltb n 3 then 0x80 else 0x48

abbrev counting : ℕ → ℕ
counting n = 0x100 + n

abbrev quiet : Bus
quiet = record { polls = 0; words = 0; writes = [] }

ata_wait_ready-answers_example :
    (((ata_wait_ready busy_first counting quiet).0 ≡ true)
      ↔ AnswersWithin busy_first 1000000 0x40 0)
    × ((ata_wait_ready busy_first counting quiet).1.polls ≤ 0 + 1000000)
ata_wait_ready-answers_example = ata_wait_ready-answers busy_first counting quiet

ata_read_sector-buffer_example :
    let (ok, filled, after) = ata_read_sector busy_first counting 7 (λ _. 0) quiet in
    ((ok ≡ true)
      × ((j : ℕ) → j < 512 → filled j ≡ word_byte counting 0 j)
      × ((j : ℕ) → 512 ≤ j → filled j ≡ 0)
      × (after.words ≡ 0 + 256))
    ⊎ ((ok ≡ false) × (filled ≡ (λ _. 0)) × (after.words ≡ 0))
ata_read_sector-buffer_example = ata_read_sector-buffer busy_first counting 7 (λ _. 0) quiet

-- A drive that is always ready, with data.
abbrev at_once : ℕ → ℕ
at_once n = 0x48

write-succeeds : (ata_write_sector at_once counting 0x12345678 (λ j. j % 256) quiet).0 ≡ true
unfolding ata_write_sector ata_wait_ready ata_wait_drq wait_for
write-succeeds = refl

ata_write_sector-words_example :
    (rs : List PortWrite) × ((ata_write_sector at_once counting 0x12345678
        (λ j. j % 256)
        quiet).1.writes
      ≡ outportb 0x1F7 0xE7 ∷ data_words (λ j. j % 256) 256 ++ outportb 0x1F7 0x30 ∷ rs)
    × (lba_register rs ≡ 0x12345678 % 2 ^ 28)
    × (register 0x1F2 rs ≡ 1)
ata_write_sector-words_example =
    ata_write_sector-words at_once counting 0x12345678 (λ j. j % 256) quiet write-succeeds
