-- ===== src/Drivers/Ata/Registers.antt =====
-- The registers of the drive after ata.c has selected a sector: what the drive makes of the bytes on its ports.
use benmosh_os.Prelude.{
  ℕ, ◌+◌, ◌*◌, ◌/◌, ◌%◌, ◌^◌, ◌≡◌, ◌<◌, refl, List, [], ◌∷◌, ◌==◌, if◌then◌else◌, bit_or, arith,
}
use benmosh_os.Prelude.Masks.{bit_or-low}
use benmosh_os.Drivers.Ata.{PortWrite, outportb, outportw, Bus, select}

-- The last byte that was written to a port.
unfoldable pub register : ℕ → List PortWrite → ℕ
register port [] = 0
register port (outportb p v ∷ ws) = let before = register port ws in if p == port then v else before
register port (outportw p v ∷ ws) = register port ws

-- The sector number in the registers: the low bits of the drive register on top of three bytes.
unfoldable pub lba_register : List PortWrite → ℕ
lba_register ws =
    register 0x1F6 ws % 16 * 2 ^ 24
    + register 0x1F5 ws * 2 ^ 16
    + register 0x1F4 ws * 2 ^ 8
    + register 0x1F3 ws

drive_byte : (x : ℕ) → x < 16 → bit_or 0xE0 x ≡ 0xE0 + x
drive_byte x h = bit_or-low 4 14 x h

bytes_of :
    (lba : ℕ)
    → lba / 2 ^ 24 % 16 * 2 ^ 24
        + lba / 2 ^ 16 % 256 * 2 ^ 16
        + lba / 2 ^ 8 % 256 * 2 ^ 8
        + lba % 256
      ≡ lba % 2 ^ 28
bytes_of lba = omega arith

-- After a selection the registers of the drive hold the sector number modulo 2 ^ 28, one sector as the
-- count, the command, and in the top bits of the drive register LBA mode and the master drive, whatever
-- they held before.
pub select-registers :
    (lba command : ℕ) (b : Bus)
    → let ws = (select lba command b).writes in
      (lba_register ws ≡ lba % 2 ^ 28)
      × (register 0x1F2 ws ≡ 1)
      × (register 0x1F7 ws ≡ command)
      × (register 0x1F6 ws / 16 ≡ 14)
unfolding select lba_register register
select-registers lba command b =
    let e = drive_byte (lba / 2 ^ 24 % 16) (omega arith) in
    (rw e (omega arith), refl, refl, rw e (omega arith))
