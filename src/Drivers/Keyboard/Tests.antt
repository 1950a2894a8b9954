-- ===== src/Drivers/Keyboard/Tests.antt =====
-- A few keys typed and read, and the theorems at concrete keyboards.
use benmosh_os.Prelude.{◌≡◌, refl, List, [], ◌∷◌, arith, false}
use benmosh_os.Drivers.Keyboard.{Keyboard, kbd_getchar, keyboard_handler, push_char, decode}
use benmosh_os.Drivers.Keyboard.Fifo.{IsValid}
use benmosh_os.Drivers.Keyboard.Handler.{
  Event, interrupt, read, reads, expected_reads, view, reads-expected,
}

abbrev boot : Keyboard
boot = record {
  shift_pressed = false;
  ctrl_pressed = false;
  kbd_fifo = λ i. 0;
  kbd_head = 127;
  kbd_tail = 127;
}

boot-IsValid : IsValid boot
boot-IsValid = record { head_lt = omega arith; tail_lt = omega arith }

abbrev typed : List Event
typed =
    interrupt 0x1E
    ∷ interrupt 0x2A
    ∷ interrupt 0x1F
    ∷ read
    ∷ interrupt 0xAA
    ∷ interrupt 0x1C
    ∷ read
    ∷ read
    ∷ read
    ∷ []

-- `a`, shift with `s`, return: the last read finds nothing.
reads-typed : reads typed boot ≡ 97 ∷ 83 ∷ 10 ∷ 0 ∷ []
unfolding reads keyboard_handler push_char kbd_getchar decode
reads-typed = refl

reads-expected_example : reads typed boot ≡ expected_reads typed (view boot)
reads-expected_example =
    reads-expected typed boot
      (omega arith, (omega arith, (omega arith, (omega arith, (omega arith, tt))))) boot-IsValid
