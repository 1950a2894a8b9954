-- ===== src/Cpu.antt =====
-- cpu/ports/ports.h: the interrupt flag. `true` means that interrupts are enabled.
use benmosh_os.Prelude.{Bool, false}

-- `irq_save` hands back the flags and disables interrupts.
unfoldable pub irq_save : Bool → Bool × Bool
irq_save irq = (irq, false)

-- `irq_restore` puts back the flags given, whatever the present ones are.
unfoldable pub irq_restore : Bool → Bool → Bool
irq_restore flags irq = flags
