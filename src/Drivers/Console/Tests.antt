-- ===== src/Drivers/Console/Tests.antt =====
-- A console of 25 rows, and the theorems at it.
use benmosh_os.Prelude.{◌+◌, ◌*◌, ◌%◌, ◌≡◌, true, not, ◌&&◌, arith, bit_or}
use benmosh_os.Drivers.Console.{Console, update_screen, print_char}
use benmosh_os.Drivers.Console.Screen.{Holds, update_screen-video}
use benmosh_os.Drivers.Console.Print.{IsValid, drops_irq, print_char-irq, print_char-IsValid}

-- The cursor stands in row 30, of which 25 are kept, and the view is at the end.
abbrev console : Console
console = record {
  max_history_rows = 25;
  line_buffer = λ a. 0;
  line_lengths = λ i. 0;
  absolute_write_row = 30;
  write_col = 3;
  view_start_row = 6;
  current_color = 0x0F;
  ansi_state = 0;
  ansi_code = 0;
  video = λ a. 0;
  cursor = 0;
  irq = true;
}

console-IsValid : IsValid console
console-IsValid = record { column = omega arith; rows = omega arith; on_screen = omega arith }

update_screen-video_example :
    (Holds console 30
      → (update_screen console).video (24 * 80 + 3) ≡ console.line_buffer (30 % 25 * 80 + 3))
    × (¬ Holds console 30 → (update_screen console).video (24 * 80 + 3) ≡ bit_or 32 (0x0F * 256))
update_screen-video_example =
    update_screen-video console 24 3 (omega arith) (omega arith) (omega arith)

print_char-irq_example : (print_char 27 console).irq ≡ (not (drops_irq 27 console) && console.irq)
print_char-irq_example = print_char-irq 27 console

print_char-IsValid_example : IsValid (print_char 10 console)
print_char-IsValid_example = print_char-IsValid 10 console console-IsValid (omega arith)
