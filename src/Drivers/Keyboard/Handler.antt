-- ===== src/Drivers/Keyboard/Handler.antt =====
-- The handler against a description of it: keys by their numbers, and a queue of at most 127 characters.
use mathlib.Core.Path.{subst}
use benmosh_os.Prelude.{
  ℕ, ◌%◌, ◌<◌, ◌≡◌, refl, sym, ap, ◌∙◌, List, [], ◌∷◌, arith, ltb, ◌==◌, ◌||◌, not, if◌then◌else◌,
  Bool, true, false, bit_and, all_below-lt,
}
use benmosh_os.Drivers.Keyboard.{
  Keyboard, Scroll, no_scroll, scroll_history_up, scroll_history_down, kbd_getchar, push_char,
  decode, keyboard_handler,
}
use benmosh_os.Drivers.Keyboard.Fifo.{
  IsValid, queue, offer, front, rest, kbd_getchar-queue, push_char-queue,
}

-- What a scancode means.
pub data Action : Type 0 where
  shift : Bool → Action
  ctrl : Bool → Action
  scroll : Scroll → Action
  types : ℕ → Action

pub classify : ℕ → Action
classify s =
    if (s == 0x2A) || (s == 0x36)
    then shift true
    else if (s == 0xAA) || (s == 0xB6)
    then shift false
    else if s == 0x1D
    then ctrl true
    else if s == 0x9D
    then ctrl false
    else if s == 0x49
    then scroll (scroll_history_up 5)
    else if s == 0x51
    then scroll (scroll_history_down 5)
    else if ltb s 128
    then types s
    else scroll no_scroll

-- What a user of the driver knows of it.
pub record View : Type 0 where
  pub shifted : Bool
  pub controlled : Bool
  pub line : List ℕ

pub view : Keyboard → View
view k = record { shifted = k.shift_pressed; controlled = k.ctrl_pressed; line = queue k }

view_lem :
    (k : Keyboard) {a b : Bool} (q : List ℕ)
    → k.shift_pressed ≡ a
    → k.ctrl_pressed ≡ b
    → queue k ≡ q
    → view k ≡ record { shifted = a; controlled = b; line = q }
unfolding view
view_lem k q e f g = λ i. record { shifted = e i; controlled = f i; line = g i }

pub expected : Action → View → Scroll × View
expected (shift b) v = (no_scroll, record v { shifted = b })
expected (ctrl b) v = (no_scroll, record v { controlled = b })
expected (scroll s) v = (s, v)
expected (types s) v =
    (no_scroll, record v { line = offer (decode v.shifted v.controlled s) v.line })

act : Action → Keyboard → Scroll × Keyboard
act (shift b) k = (no_scroll, record k { shift_pressed = b })
act (ctrl b) k = (no_scroll, record k { ctrl_pressed = b })
act (scroll s) k = (s, k)
act (types s) k = (no_scroll, push_char (decode k.shift_pressed k.ctrl_pressed s) k)

high_bit : (s : ℕ) → s < 256 → (bit_and s 0x80 == 0) ≡ ltb s 128
high_bit s b = ground (
  arith,
  all_below-lt 256 (λ s. if (bit_and s 0x80 == 0) then ltb s 128 else not (ltb s 128)) refl s b,
)

low_bits : (s : ℕ) → s < 256 → bit_and s 0x7F ≡ s % 128
low_bits s b = ground (arith, all_below-lt 256 (λ s. bit_and s 0x7F == s % 128) refl s b)

handler-act : (s : ℕ) (k : Keyboard) → s < 256 → keyboard_handler s k ≡ act (classify s) k
unfolding keyboard_handler classify act
handler-act s k b = ground (arith, high_bit s b, low_bits s b)

push_char-modifiers :
    (c : ℕ) (k : Keyboard)
    → ((push_char c k).shift_pressed ≡ k.shift_pressed)
      × ((push_char c k).ctrl_pressed ≡ k.ctrl_pressed)
unfolding push_char
push_char-modifiers c k = ground arith

pub push_char-IsValid : (c : ℕ) (k : Keyboard) → IsValid k → IsValid (push_char c k)
unfolding push_char
push_char-IsValid c k v = ground arith

act-IsValid : (a : Action) (k : Keyboard) → IsValid k → IsValid ((act a k).1)
unfolding act
act-IsValid (shift b) k v = record { head_lt = v.head_lt; tail_lt = v.tail_lt }
act-IsValid (ctrl b) k v = record { head_lt = v.head_lt; tail_lt = v.tail_lt }
act-IsValid (scroll s) k v = v
act-IsValid (types s) k v = push_char-IsValid (decode k.shift_pressed k.ctrl_pressed s) k v

act-expected :
    (a : Action) (k : Keyboard)
    → IsValid k
    → ((act a k).0, view ((act a k).1)) ≡ expected a (view k)
unfolding act expected view queue
act-expected (shift b) k v = refl
act-expected (ctrl b) k v = refl
act-expected (scroll s) k v = refl
act-expected (types s) k v =
    let c = decode k.shift_pressed k.ctrl_pressed s in
    let (same_shift, same_ctrl) = push_char-modifiers c k in
    ap (λ t. (no_scroll, t))
      (view_lem (push_char c k) (offer c (queue k)) same_shift same_ctrl (push_char-queue k c v))

-- On every byte the handler does what the number of the key says (`classify` and `expected`): it
-- sets or clears a modifier, asks for a scroll, or offers the character of the key to a queue of
-- at most 127; and it keeps the state valid.
pub keyboard_handler-expected :
    (s : ℕ) (k : Keyboard)
    → s < 256
    → IsValid k
    → IsValid ((keyboard_handler s k).1)
      × (((keyboard_handler s k).0, view ((keyboard_handler s k).1))
          ≡ expected (classify s) (view k))
keyboard_handler-expected s k b v =
    let e = sym (handler-act s k b) in
    (
      subst (λ r. IsValid (r.1)) e (act-IsValid (classify s) k v),
      subst (λ r. (r.0, view (r.1)) ≡ expected (classify s) (view k)) e
          (act-expected (classify s) k v),
    )

taken : View → View
taken v = record v { line = rest (v.line) }

kbd_getchar-modifiers :
    (k : Keyboard)
    → (((kbd_getchar k).1).shift_pressed ≡ k.shift_pressed)
      × (((kbd_getchar k).1).ctrl_pressed ≡ k.ctrl_pressed)
unfolding kbd_getchar
kbd_getchar-modifiers k = ground arith

kbd_getchar-IsValid : (k : Keyboard) → IsValid k → IsValid ((kbd_getchar k).1)
unfolding kbd_getchar
kbd_getchar-IsValid k v = ground arith

kbd_getchar-view : (k : Keyboard) → IsValid k → view ((kbd_getchar k).1) ≡ taken (view k)
unfolding view taken
kbd_getchar-view k v =
    let (same_shift, same_ctrl) = kbd_getchar-modifiers k in
    view_lem ((kbd_getchar k).1) (rest (queue k)) same_shift same_ctrl ((kbd_getchar-queue k v).1)

-- An interrupt with a scancode, or a program that reads a character.
pub data Event : Type 0 where
  interrupt : ℕ → Event
  read : Event

abbrev pub Bytes : List Event → Type 0
Bytes [] = Unit
Bytes (interrupt s ∷ es) = (s < 256) × Bytes es
Bytes (read ∷ es) = Bytes es

-- The characters that programs read in a sequence of events.
unfoldable pub reads : List Event → Keyboard → List ℕ
reads [] k = []
reads (interrupt s ∷ es) k = reads es ((keyboard_handler s k).1)
reads (read ∷ es) k = (kbd_getchar k).0 ∷ reads es ((kbd_getchar k).1)

pub expected_reads : List Event → View → List ℕ
expected_reads [] v = []
expected_reads (interrupt s ∷ es) v = expected_reads es ((expected (classify s) v).1)
expected_reads (read ∷ es) v =
    front (v.line) ∷ expected_reads es (record v { line = rest (v.line) })

-- In every sequence of bytes from the keyboard and reads by programs, the programs read what they
-- would from a queue of at most 127 characters.
pub reads-expected :
    (es : List Event) (k : Keyboard)
    → Bytes es
    → IsValid k
    → reads es k ≡ expected_reads es (view k)
unfolding reads expected_reads view taken
reads-expected [] k bs v = refl
reads-expected (interrupt s ∷ es) k (b, bs) v =
    let (valid, same) = keyboard_handler-expected s k b v in
    reads-expected es ((keyboard_handler s k).1) bs valid ∙ ap (λ r. expected_reads es (r.1)) same
reads-expected (read ∷ es) k bs v =
    ap (λ c. c ∷ reads es ((kbd_getchar k).1)) ((kbd_getchar-queue k v).0)
    ∙ ap (λ cs. front (queue k) ∷ cs)
        (reads-expected es ((kbd_getchar k).1) bs (kbd_getchar-IsValid k v)
          ∙ ap (expected_reads es) (kbd_getchar-view k v))
