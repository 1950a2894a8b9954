-- ===== src/Drivers/Console/Print.antt =====
-- `print_char`: its invariant, what it shows, and the interrupt flag on each of its paths.
use benmosh_os.Cpu.{irq_save, irq_restore}
use benmosh_os.Prelude.{
  ℕ, ◌+◌, ◌-◌, ◌*◌, ◌%◌, ◌^◌, ◌<◌, ◌≤◌, ◌≡◌, ◌≢◌, refl, ap, arith, update, true, false, leb, ◌==◌,
  if◌then◌else◌, Bool, ◌&&◌, ◌||◌, not,
}
use benmosh_os.Drivers.Console.{
  Console, cell, print_char, print_normal, put_char, put_cell, backspace, next_row, wipe_row,
  follow, apply_ansi_color,
}
use benmosh_os.Drivers.Console.Screen.{update_screen-kept}

-- The write position is inside a row of the ring, and no row below the screen.
pub record IsValid (c : Console) : Type 0 where
  pub column : c.write_col < 80
  pub rows : 0 < c.max_history_rows
  pub on_screen : c.absolute_write_row < c.view_start_row + 25

put_char-column : (x : ℕ) (c : Console) → c.write_col < 80 → (put_char x c).write_col < 80
unfolding put_char backspace next_row wipe_row put_cell
put_char-column x c h = ground (arith, h)

put_char-irq : (x : ℕ) (c : Console) → (put_char x c).irq ≡ c.irq
unfolding put_char backspace next_row wipe_row put_cell
put_char-irq x c = ground arith

put_char-rows : (x : ℕ) (c : Console) → (put_char x c).max_history_rows ≡ c.max_history_rows
unfolding put_char backspace next_row wipe_row put_cell
put_char-rows x c = ground arith

put_char-view :
    (x : ℕ) (c : Console)
    → ((put_char x c).view_start_row ≡ c.view_start_row)
      × ((put_char x c).absolute_write_row ≤ c.absolute_write_row + 1)
unfolding put_char backspace next_row wipe_row put_cell
put_char-view x c = (ground arith, ground arith)

-- Whether `print_char` returns from within an escape sequence without `irq_restore`.
abbrev pub drops_irq : ℕ → Console → Bool
drops_irq x c = ((c.ansi_state == 0) && (x == 27)) || ((c.ansi_state == 1) && (x == 91))

print_normal-irq : (flags : Bool) (x : ℕ) (c : Console) → (print_normal flags x c).irq ≡ flags
unfolding print_normal irq_restore
print_normal-irq flags x c = refl

-- After `print_char` the interrupt flag is what it was, but for two characters, the escape and the
-- bracket after it: with these, interrupts stay off.
pub print_char-irq : (x : ℕ) (c : Console) → (print_char x c).irq ≡ (not (drops_irq x c) && c.irq)
unfolding print_char irq_save irq_restore print_normal
print_char-irq x c = ground arith

follow-kept :
    (c : Console)
    → ((follow c).write_col ≡ c.write_col)
      × ((follow c).max_history_rows ≡ c.max_history_rows)
      × ((follow c).line_buffer ≡ c.line_buffer)
      × ((follow c).absolute_write_row ≡ c.absolute_write_row)
unfolding follow
follow-kept c = (ground arith, ground arith, ground arith, ground arith)

follow-screen :
    (c : Console)
    → c.absolute_write_row ≤ c.view_start_row + 25
    → c.view_start_row + 25 < 2 ^ 32
    → (follow c).absolute_write_row < (follow c).view_start_row + 25
unfolding follow
follow-screen c h b = ground (arith, h, b)

normal-IsValid :
    (flags : Bool) (x : ℕ) (c : Console)
    → IsValid c
    → c.view_start_row + 25 < 2 ^ 32
    → IsValid (print_normal flags x c)
unfolding print_normal
normal-IsValid flags x c v b =
    let d = put_char x c in
    let e = follow d in
    let k = update_screen-kept e in
    let (same_view, one_more) = put_char-view x c in
    let (same_col, same_rows, _, _) = follow-kept d in
    let on_screen =
      follow-screen d (omega (arith, one_more, same_view, v.on_screen))
        (omega (arith, same_view, b)) in
    record {
      column = omega (arith, ap (λ f. f.write_col) k, same_col, put_char-column x c v.column);
      rows = omega (arith, ap (λ f. f.max_history_rows) k, same_rows, put_char-rows x c, v.rows);
      on_screen =
          omega (arith, ap (λ f. f.absolute_write_row) k, ap (λ f. f.view_start_row) k, on_screen);
    }

if_both : (b : Bool) (c d : Console) → IsValid c → IsValid d → IsValid (if b then c else d)
if_both true c d p q = p
if_both false c d p q = q

-- Changes to the escape sequence, the color and the flag alone.
unmoved-IsValid :
    (c d : Console)
    → IsValid c
    → d.write_col ≡ c.write_col
    → d.max_history_rows ≡ c.max_history_rows
    → d.absolute_write_row ≡ c.absolute_write_row
    → d.view_start_row ≡ c.view_start_row
    → IsValid d
unmoved-IsValid c d v e f g h = record {
  column = omega (arith, v.column, e);
  rows = omega (arith, v.rows, f);
  on_screen = omega (arith, v.on_screen, g, h);
}

color-IsValid : (code : ℕ) (c : Console) → IsValid c → IsValid (apply_ansi_color code c)
unfolding apply_ansi_color
color-IsValid code c v =
    if_both (code == 0) _ _ (unmoved-IsValid c _ v refl refl refl refl)
      (unmoved-IsValid c _ v refl refl refl refl)

-- `print_char` keeps the write position inside a row of the ring and the cursor's row above the bottom of
-- the screen, for every byte and in every state of the escape sequence, while row numbers stay within 32
-- bits.
pub print_char-IsValid :
    (x : ℕ) (c : Console) → IsValid c → c.view_start_row + 25 < 2 ^ 32 → IsValid (print_char x c)
unfolding print_char irq_save irq_restore
print_char-IsValid x c v b =
    let quiet = λ (a b : ℕ) (irq : Bool).
      unmoved-IsValid c (record c { ansi_state = a; ansi_code = b; irq = irq }) v refl refl refl
        refl in
    let normal = λ (a : ℕ).
      normal-IsValid c.irq x (record c { ansi_state = a; irq = false }) (quiet a c.ansi_code false)
        b in
    let coloured = record c { irq = false } in
    if_both (c.ansi_state == 0) _ _
      (if_both (x == 27) _ _ (quiet 1 c.ansi_code false) (normal c.ansi_state))
      (if_both (c.ansi_state == 1) _ _ (if_both (x == 91) _ _ (quiet 2 0 false) (normal 0)) (
        if_both (c.ansi_state == 2) _ _
          (if_both (leb 48 x && leb x 57) _ _
            (quiet c.ansi_state ((c.ansi_code * 10 + (x - 48)) % 2 ^ 32) c.irq)
            (if_both (x == 109) _ _
              (unmoved-IsValid (apply_ansi_color c.ansi_code coloured) _
                (color-IsValid c.ansi_code coloured (quiet c.ansi_state c.ansi_code false)) refl
                refl refl refl)
              (normal 0)))
          (normal c.ansi_state)))

-- The state of `print_char` in which characters are text.
abbrev pub IsText : ℕ → Console → Type 0
IsText x c = (c.ansi_state ≡ 0) × (x ≢ 27) × (x ≢ 10) × (x ≢ 8)

-- The ring with the character written, before the screen is drawn.
abbrev written : ℕ → Console → Console
written x c = record c {
  line_buffer =
      update c.line_buffer (c.absolute_write_row % c.max_history_rows * 80 + c.write_col)
        (cell x c);
  write_col = c.write_col + 1;
  irq = false;
}
