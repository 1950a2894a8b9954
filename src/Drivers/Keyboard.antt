-- ===== src/Drivers/Keyboard.antt =====
-- drivers/keyboard/keyboard.c: the keyboard's handler and the FIFO that it fills. A scancode is the byte
-- that port 0x60 returns, which the handler takes as an argument.
pub mod Fifo
pub mod Handler
mod Tests
use benmosh_os.Prelude.{
  ℕ, ◌+◌, ◌%◌, Bool, true, false, not, ◌&&◌, ◌||◌, List, [], ◌∷◌, ltb, ◌==◌, if◌then◌else◌, update,
  get_or, bit_and,
}

abbrev pub kbd_buffer_size : ℕ
kbd_buffer_size = 128

-- The static variables of the driver.
pub record Keyboard : Type 0 where
  pub shift_pressed : Bool
  pub ctrl_pressed : Bool
  pub kbd_fifo : ℕ → ℕ
  pub kbd_head : ℕ
  pub kbd_tail : ℕ

-- The keys' characters; the rest of the 128 entries is 0.
abbrev pub scancode_map_normal : List ℕ
scancode_map_normal =
    0 ∷ 27 ∷ 49 ∷ 50 ∷ 51 ∷ 52 ∷ 53 ∷ 54 ∷ 55 ∷ 56 ∷ 57 ∷ 48 ∷ 45 ∷ 61 ∷ 8 ∷ 9 ∷ 113 ∷ 119 ∷ 101
    ∷ 114 ∷ 116 ∷ 121 ∷ 117 ∷ 105 ∷ 111 ∷ 112 ∷ 91 ∷ 93 ∷ 10 ∷ 0 ∷ 97 ∷ 115 ∷ 100 ∷ 102 ∷ 103 ∷ 104
    ∷ 106 ∷ 107 ∷ 108 ∷ 59 ∷ 39 ∷ 96 ∷ 0 ∷ 92 ∷ 122 ∷ 120 ∷ 99 ∷ 118 ∷ 98 ∷ 110 ∷ 109 ∷ 44 ∷ 46 ∷ 47
    ∷ 0 ∷ 42 ∷ 0 ∷ 32 ∷ []

abbrev pub scancode_map_shifted : List ℕ
scancode_map_shifted =
    0 ∷ 27 ∷ 33 ∷ 64 ∷ 35 ∷ 36 ∷ 37 ∷ 94 ∷ 38 ∷ 42 ∷ 40 ∷ 41 ∷ 95 ∷ 43 ∷ 8 ∷ 9 ∷ 81 ∷ 87 ∷ 69 ∷ 82
    ∷ 84 ∷ 89 ∷ 85 ∷ 73 ∷ 79 ∷ 80 ∷ 123 ∷ 125 ∷ 10 ∷ 0 ∷ 65 ∷ 83 ∷ 68 ∷ 70 ∷ 71 ∷ 72 ∷ 74 ∷ 75 ∷ 76
    ∷ 58 ∷ 34 ∷ 126 ∷ 0 ∷ 124 ∷ 90 ∷ 88 ∷ 67 ∷ 86 ∷ 66 ∷ 78 ∷ 77 ∷ 60 ∷ 62 ∷ 63 ∷ 0 ∷ 42 ∷ 0 ∷ 32
    ∷ []

-- `keyboard_pop_char`, and `kbd_getchar`, which has the same body.
pub kbd_getchar : Keyboard → ℕ × Keyboard
kbd_getchar k =
    if k.kbd_head == k.kbd_tail
    then (0, k)
    else (k.kbd_fifo (k.kbd_tail), record k { kbd_tail = (k.kbd_tail + 1) % kbd_buffer_size })

-- The end of the handler: a character other than 0 goes into the FIFO unless that is full.
pub push_char : ℕ → Keyboard → Keyboard
push_char c k =
    let next = (k.kbd_head + 1) % kbd_buffer_size in
    if c == 0
    then k
    else if next == k.kbd_tail
    then k
    else record k { kbd_fifo = update k.kbd_fifo (k.kbd_head) c; kbd_head = next }

-- The character of a make code under the modifiers.
pub decode : Bool → Bool → ℕ → ℕ
decode shift ctrl scancode =
    if scancode == 0x1C
    then 10
    else if scancode == 0x0E
    then 8
    else if ctrl && (scancode == 0x2E)
    then 3
    else if scancode == 72
    then 0x11
    else if scancode == 80
    then 0x12
    else if ltb scancode 128
    then (if shift
        then get_or scancode_map_shifted scancode 0
        else get_or scancode_map_normal scancode 0)
    else 0

-- What the handler asks of the console.
pub data Scroll : Type 0 where
  no_scroll : Scroll
  scroll_history_up : ℕ → Scroll
  scroll_history_down : ℕ → Scroll

pub keyboard_handler : ℕ → Keyboard → Scroll × Keyboard
keyboard_handler scancode k =
    if not (bit_and scancode 0x80 == 0)
    then (let key_released = bit_and scancode 0x7F in
        if (key_released == 0x2A) || (key_released == 0x36)
        then (no_scroll, record k { shift_pressed = false })
        else if key_released == 0x1D
        then (no_scroll, record k { ctrl_pressed = false })
        else (no_scroll, k))
    else if (scancode == 0x2A) || (scancode == 0x36)
    then (no_scroll, record k { shift_pressed = true })
    else if scancode == 0x1D
    then (no_scroll, record k { ctrl_pressed = true })
    else if scancode == 0x49
    then (scroll_history_up 5, k)
    else if scancode == 0x51
    then (scroll_history_down 5, k)
    else (no_scroll, push_char (decode k.shift_pressed k.ctrl_pressed scancode) k)
