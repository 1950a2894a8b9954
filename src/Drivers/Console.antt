-- ===== src/Drivers/Console.antt =====
-- drivers/print/print.c: the console, a ring buffer of rows with its ANSI state machine, and the screen
-- that shows 25 of them. Rows lie one behind the other in an array of cells, as in the source. Characters
-- are bytes, and the hardware cursor is the position last sent to the port.
pub mod Screen
pub mod Print
mod Tests
use benmosh_os.Cpu.{irq_save, irq_restore}
use benmosh_os.Prelude.{
  ℕ, zero, suc, ◌+◌, ◌-◌, ◌*◌, ◌/◌, ◌%◌, ◌^◌, Bool, true, false, ◌&&◌, bit_and, bit_or, leb, ltb,
  ◌==◌, if◌then◌else◌, update, add32, sub32, List, [], ◌∷◌,
}

abbrev pub max_row : ℕ
max_row = 25

abbrev pub max_col : ℕ
max_col = 80

pub record Console : Type 0 where
  pub max_history_rows : ℕ
  pub line_buffer : ℕ → ℕ
  pub line_lengths : ℕ → ℕ
  pub absolute_write_row : ℕ
  pub write_col : ℕ
  pub view_start_row : ℕ
  pub current_color : ℕ
  pub ansi_state : ℕ
  pub ansi_code : ℕ
  pub video : ℕ → ℕ
  pub cursor : ℕ
  pub irq : Bool

-- The cell `x | color << 8`.
abbrev pub cell : ℕ → Console → ℕ
cell x c = bit_or x (c.current_color * 256)

abbrev pub blank_cell : Console → ℕ
blank_cell c = cell 32 c

pub update_cursor : ℕ → ℕ → Console → Console
update_cursor x y c = record c { cursor = (y * max_col + x) % 2 ^ 16 }

-- `rounds` cells from `base + col` on, by a function of the column: `memsetw`, and the inner loops of
-- `update_screen`.
pub draw_cells : ℕ → (ℕ → ℕ) → ℕ → ℕ → (ℕ → ℕ) → ℕ → ℕ
draw_cells zero f base col cells = cells
draw_cells (suc rounds) f base col cells =
    draw_cells rounds f base (col + 1) (update cells (base + col) (f col))

-- The oldest row that the ring still holds.
pub oldest_row : Console → ℕ
oldest_row c =
    if leb c.max_history_rows c.absolute_write_row
    then c.absolute_write_row - c.max_history_rows + 1
    else 0

-- What the screen shows in a row.
pub row_cells : Console → ℕ → ℕ → ℕ
row_cells c row col =
    let abs_row = add32 c.view_start_row row in
    if leb (oldest_row c) abs_row && leb abs_row c.absolute_write_row
    then c.line_buffer (abs_row % c.max_history_rows * max_col + col)
    else blank_cell c

pub draw_rows : ℕ → ℕ → Console → (ℕ → ℕ) → ℕ → ℕ
draw_rows zero row c video = video
draw_rows (suc rounds) row c video =
    draw_rows rounds (row + 1) c (draw_cells max_col (row_cells c row) (row * max_col) 0 video)

pub update_screen : Console → Console
update_screen c =
    let screen_cursor_y = sub32 c.absolute_write_row c.view_start_row in
    let drawn = record c { video = draw_rows max_row 0 c c.video } in
    if ltb screen_cursor_y max_row
    then update_cursor c.write_col screen_cursor_y drawn
    else update_cursor 0 (max_row + 1) drawn

-- A row of the ring is wiped.
pub wipe_row : ℕ → Console → Console
wipe_row row c = record c {
  line_buffer =
      draw_cells max_col (λ _. blank_cell c) (row % c.max_history_rows * max_col) 0 c.line_buffer;
}

pub clear_lengths : ℕ → ℕ → (ℕ → ℕ) → ℕ → ℕ
clear_lengths zero i l = l
clear_lengths (suc rounds) i l = clear_lengths rounds (i + 1) (update l i 0)

pub screen_clear : Console → Console
screen_clear c =
    let cleared = record c {
      line_buffer = draw_cells (c.max_history_rows * max_col) (λ _. blank_cell c) 0 0 c.line_buffer;
      absolute_write_row = 0;
      write_col = 0;
      view_start_row = 0;
      line_lengths = clear_lengths c.max_history_rows 0 c.line_lengths;
      irq = (irq_save c.irq).1;
    } in
    let shown = update_screen cleared in record shown { irq = irq_restore c.irq shown.irq }

-- The switch of `apply_ansi_color`, as pairs of a code and a foreground.
abbrev pub foregrounds : List (ℕ × ℕ)
foregrounds =
    (30, 0x00)
    ∷ (31, 0x04)
    ∷ (32, 0x02)
    ∷ (33, 0x0E)
    ∷ (34, 0x01)
    ∷ (35, 0x05)
    ∷ (36, 0x03)
    ∷ (37, 0x07)
    ∷ (90, 0x08)
    ∷ (91, 0x0C)
    ∷ (92, 0x0A)
    ∷ (93, 0x0E)
    ∷ (94, 0x09)
    ∷ (95, 0x0D)
    ∷ (96, 0x0B)
    ∷ (97, 0x0F)
    ∷ []

pub switch_color : List (ℕ × ℕ) → ℕ → ℕ → ℕ
switch_color [] code color = color
switch_color ((k, fg) ∷ cases) code color =
    if code == k then bit_or (bit_and color 0xF0) fg else switch_color cases code color

pub apply_ansi_color : ℕ → Console → Console
apply_ansi_color code c =
    if code == 0
    then record c { current_color = 0x0F }
    else record c { current_color = switch_color foregrounds code c.current_color }

-- The cursor moves to the next row, which is wiped.
pub next_row : ℕ → Console → Console
next_row length c =
    let idx = c.absolute_write_row % c.max_history_rows in
    let row = add32 c.absolute_write_row 1 in
    wipe_row row (record c {
      line_lengths = update c.line_lengths idx (length % 256);
      write_col = 0;
      absolute_write_row = row;
    })

pub put_cell : ℕ → ℕ → ℕ → Console → Console
put_cell row col x c = record c {
  line_buffer = update c.line_buffer (row % c.max_history_rows * max_col + col) x;
}

pub backspace : Console → Console
backspace c =
    let row = c.absolute_write_row - 1 in
    let length = c.line_lengths (row % c.max_history_rows) in
    let col = if leb max_col length then max_col - 1 else length in
    if ltb 0 c.write_col
    then put_cell c.absolute_write_row (c.write_col - 1) (blank_cell c)
        (record c { write_col = c.write_col - 1 })
    else if ltb 0 c.absolute_write_row
    then put_cell row col (blank_cell c) (record c { absolute_write_row = row; write_col = col })
    else c

pub put_char : ℕ → Console → Console
put_char character c =
    let written =
      put_cell c.absolute_write_row c.write_col (cell character c)
        (record c { write_col = c.write_col + 1 }) in
    if character == 10
    then next_row c.write_col c
    else if character == 8
    then backspace c
    else if leb max_col (c.write_col + 1)
    then next_row max_col written
    else written

-- The end of `print_char`: the view follows the cursor, and the screen is drawn.
pub follow : Console → Console
follow c =
    if leb (add32 c.view_start_row max_row) c.absolute_write_row
    then record c { view_start_row = add32 (sub32 c.absolute_write_row max_row) 1 }
    else c

pub print_normal : Bool → ℕ → Console → Console
print_normal flags character c =
    let shown = update_screen (follow (put_char character c)) in
    record shown { irq = irq_restore flags shown.irq }

-- Two of the returns inside an escape sequence come without `irq_restore`.
pub print_char : ℕ → Console → Console
print_char character c =
    let flags = c.irq in
    let d = record c { irq = (irq_save c.irq).1 } in
    let left = record d { ansi_state = 0 } in
    if c.ansi_state == 0
    then (if character == 27 then record d { ansi_state = 1 } else print_normal flags character d)
    else if c.ansi_state == 1
    then (if character == 91
        then record d { ansi_state = 2; ansi_code = 0 }
        else print_normal flags character left)
    else if c.ansi_state == 2
    then (if leb 48 character && leb character 57
        then record d {
          ansi_code = (c.ansi_code * 10 + (character - 48)) % 2 ^ 32;
          irq = irq_restore flags d.irq;
        }
        else if character == 109
        then (let coloured = apply_ansi_color c.ansi_code d in
            record coloured { ansi_state = 0; irq = irq_restore flags d.irq })
        else print_normal flags character left)
    else print_normal flags character d

-- `puts`, over the characters before the null.
pub puts : List ℕ → Console → Console
puts [] c = c
puts (x ∷ xs) c = puts xs (print_char x c)

pub scroll_history_up : ℕ → Console → Console
scroll_history_up lines c =
    let up = if leb lines c.view_start_row then c.view_start_row - lines else 0 in
    let view = if ltb up (oldest_row c) then oldest_row c else up in
    let shown = update_screen (record c { view_start_row = view; irq = (irq_save c.irq).1 }) in
    record shown { irq = irq_restore c.irq shown.irq }

pub scroll_history_down : ℕ → Console → Console
scroll_history_down lines c =
    let max_view_start =
      if leb 24 c.absolute_write_row then add32 (sub32 c.absolute_write_row max_row) 1 else 0 in
    let down = add32 c.view_start_row lines in
    let view = if ltb max_view_start down then max_view_start else down in
    let shown = update_screen (record c { view_start_row = view; irq = (irq_save c.irq).1 }) in
    record shown { irq = irq_restore c.irq shown.irq }

pub set_print_color : ℕ → Console → Console
set_print_color color c =
    let at = c.absolute_write_row % c.max_history_rows * max_col + c.write_col in
    let coloured = record c { current_color = color % 256 } in
    let x = cell (bit_and (c.line_buffer at) 0xFF) coloured in
    let d = record coloured { line_buffer = update c.line_buffer at x } in
    let screen_y = sub32 c.absolute_write_row c.view_start_row in
    if ltb screen_y max_row
    then record d { video = update d.video (screen_y * max_col + c.write_col) x }
    else d
