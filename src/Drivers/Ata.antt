-- ===== src/Drivers/Ata.antt =====
-- drivers/ata/ata.c: a sector is read from the disk, or written to it, through the ports of the drive.
pub mod Registers
pub mod Waiting
pub mod Transfer
pub mod Writing
mod Tests
use benmosh_os.Prelude.{
  ℕ, zero, suc, ◌+◌, ◌*◌, ◌/◌, ◌%◌, ◌^◌, Bool, true, false, ◌&&◌, not, List, [], ◌∷◌, ◌++◌, ◌==◌,
  if◌then◌else◌, bit_and, bit_or, update,
}

-- A write to a port, of a byte or a word.
pub data PortWrite : Type 0 where
  outportb : ℕ → ℕ → PortWrite
  outportw : ℕ → ℕ → PortWrite

-- What the driver has done with the drive: the reads of the status port and of the data port so far, and
-- the writes, the last one first.
pub record Bus : Type 0 where
  pub polls : ℕ
  pub words : ℕ
  pub writes : List PortWrite

abbrev pub send : PortWrite → Bus → Bus
send w b = record b { writes = w ∷ b.writes }

-- The rounds of the two loops that wait.
abbrev pub timeout : ℕ
timeout = 1000000

-- The bytes of a buffer by their offsets.
abbrev pub Buffer : Type 0
Buffer = ℕ → ℕ

abbrev pub is_error : ℕ → Bool
is_error status = not (bit_and status 0x01 == 0)

-- BSY is clear and the bit that the loop waits for is set.
abbrev pub is_ready : ℕ → ℕ → Bool
is_ready mask status = bit_and status 0x80 == 0 && not (bit_and status mask == 0)

-- The sector number and the command go to the registers.
pub select : ℕ → ℕ → Bus → Bus
select lba command b = send (outportb 0x1F7 command) (
    send (outportb 0x1F5 (lba / 2 ^ 16 % 256)) (
      send (outportb 0x1F4 (lba / 2 ^ 8 % 256)) (
        send (outportb 0x1F3 (lba % 256))
          (send (outportb 0x1F2 1) (send (outportb 0x1F6 (bit_or 0xE0 (lba / 2 ^ 24 % 16))) b)))))

-- The words of a buffer from number `i` on go to the data port.
pub send_words : ℕ → ℕ → Buffer → Bus → Bus
send_words zero i buffer b = b
send_words (suc rounds) i buffer b =
    send_words rounds (i + 1) buffer
      (send (outportw 0x1F0 (buffer (2 * i) + 256 * buffer (2 * i + 1))) b)

-- The drive answers the read number `n` of its status port with `status n`, and that of its data port with
-- `word n`.
module _ (status word : ℕ → ℕ) where
  -- The loop of `ata_wait_ready` and `ata_wait_drq`, which differ in the bit that they wait for.
  pub wait_for : ℕ → ℕ → Bus → Bool × Bus
  wait_for zero mask b = (false, b)
  wait_for (suc rounds) mask b =
      let next = record b { polls = suc b.polls } in
      let rest = wait_for rounds mask next in
      if is_error (status b.polls)
      then (false, next)
      else if is_ready mask (status b.polls)
      then (true, next)
      else rest

  pub ata_wait_ready : Bus → Bool × Bus
  ata_wait_ready b = wait_for timeout 0x40 b

  pub ata_wait_drq : Bus → Bool × Bus
  ata_wait_drq b = wait_for timeout 0x08 b

  -- The words of the data port go to the buffer from word `i` on.
  pub read_words : ℕ → ℕ → Buffer → Bus → Buffer × Bus
  read_words zero i buffer b = (buffer, b)
  read_words (suc rounds) i buffer b =
      read_words rounds (i + 1)
        (update (update buffer (2 * i) (word b.words % 256)) (2 * i + 1) (word b.words / 256 % 256))
        (record b { words = suc b.words })

  -- After a failed wait the buffer is as it was. The first component tells a success.
  pub ata_read_sector : ℕ → Buffer → Bus → Bool × Buffer × Bus
  ata_read_sector lba buffer b =
      let (ready, b1) = ata_wait_ready b in
      let (drq, b2) = ata_wait_drq (select lba 0x20 b1) in
      let (filled, b3) = read_words 256 0 buffer b2 in
      if not ready
      then (false, buffer, b1)
      else if not drq
      then (false, buffer, b2)
      else (true, filled, b3)

  pub ata_write_sector : ℕ → Buffer → Bus → Bool × Bus
  ata_write_sector lba buffer b =
      let (ready, b1) = ata_wait_ready b in
      let (drq, b2) = ata_wait_drq (select lba 0x30 b1) in
      let (complete, b3) = ata_wait_ready (send_words 256 0 buffer b2) in
      let (flushed, b4) = ata_wait_ready (send (outportb 0x1F7 0xE7) b3) in
      if not ready
      then (false, b1)
      else if not drq
      then (false, b2)
      else if not complete
      then (false, b3)
      else (flushed, b4)
