-- ===== src/Drivers/Console/Screen.antt =====
-- What `update_screen` draws, and where scrolling takes the view.
use benmosh_os.Prelude.{
  ℕ, zero, suc, ◌+◌, ◌-◌, ◌*◌, ◌%◌, ◌^◌, ◌<◌, ◌≤◌, ◌≡◌, ◌≢◌, ◌⊎◌, inl, inr, refl, sym, ap, ◌∙◌,
  arith, update, update_ne, Bool-cases, leb, ltb, ◌==◌, if◌then◌else◌, Bool, sub32, bit_or,
}
use benmosh_os.Cpu.{irq_restore}
use benmosh_os.Drivers.Console.{
  Console, draw_cells, draw_rows, row_cells, update_screen, update_cursor, oldest_row,
  scroll_history_up, scroll_history_down,
}

pub draw_cells-other :
    (n : ℕ) (f : ℕ → ℕ) (base col : ℕ) (cells : ℕ → ℕ) (a : ℕ)
    → (a < base + col) ⊎ (base + col + n ≤ a)
    → draw_cells n f base col cells a ≡ cells a
unfolding draw_cells
draw_cells-other zero f base col cells a h = refl
draw_cells-other (suc n) f base col cells a h =
    draw_cells-other n f base (col + 1) (update cells (base + col) (f col)) a (outside h)
    ∙ update_ne cells (base + col) a (f col) (λ e. here h e)
  where
    outside :
        (a < base + col) ⊎ (base + col + suc n ≤ a)
        → (a < base + (col + 1)) ⊎ (base + (col + 1) + n ≤ a)
    outside (inl x) = inl (omega (arith, x))
    outside (inr x) = inr (omega (arith, x))

    here : (a < base + col) ⊎ (base + col + suc n ≤ a) → base + col ≢ a
    here (inl x) e = omega (arith, x, e)
    here (inr x) e = omega (arith, x, e)

pub draw_cells-at :
    (n : ℕ) (f : ℕ → ℕ) (base col : ℕ) (cells : ℕ → ℕ) (j : ℕ)
    → col ≤ j
    → j < col + n
    → draw_cells n f base col cells (base + j) ≡ f j
unfolding draw_cells
draw_cells-at zero f base col cells j lo hi = absurd (omega (arith, lo, hi))
draw_cells-at (suc n) f base col cells j lo hi = elim (Bool-cases (col == j)) [
  | inl e ↦
      draw_cells-other n f base (col + 1) (update cells (base + col) (f col)) (base + j)
        (inl (ground (arith, e)))
      ∙ ground (arith, e)
  | inr e ↦
      draw_cells-at n f base (col + 1) (update cells (base + col) (f col)) j (ground (arith, e, lo))
        (omega (arith, hi))
]

draw_rows-other :
    (n r : ℕ) (c : Console) (video : ℕ → ℕ) (a : ℕ) → a < r * 80 → draw_rows n r c video a ≡ video a
unfolding draw_rows
draw_rows-other zero r c video a h = refl
draw_rows-other (suc n) r c video a h =
    draw_rows-other n (r + 1) c (draw_cells 80 (row_cells c r) (r * 80) 0 video) a
      (omega (arith, h))
    ∙ draw_cells-other 80 (row_cells c r) (r * 80) 0 video a (inl (omega (arith, h)))

draw_rows-at :
    (n r : ℕ) (c : Console) (video : ℕ → ℕ) (row col : ℕ)
    → r ≤ row
    → row < r + n
    → col < 80
    → draw_rows n r c video (row * 80 + col) ≡ row_cells c row col
unfolding draw_rows
draw_rows-at zero r c video row col lo hi b = absurd (omega (arith, lo, hi))
draw_rows-at (suc n) r c video row col lo hi b = elim (Bool-cases (r == row)) [
  | inl e ↦
      (let same : r ≡ row = ground (arith, e) in
        draw_rows-other n (r + 1) c (draw_cells 80 (row_cells c r) (r * 80) 0 video)
          (row * 80 + col) (omega (arith, same, b))
        ∙ ap (λ k. draw_cells 80 (row_cells c r) (r * 80) 0 video (k * 80 + col)) (sym same)
        ∙ draw_cells-at 80 (row_cells c r) (r * 80) 0 video col (omega arith) b
        ∙ ap (λ k. row_cells c k col) same)
  | inr e ↦
      draw_rows-at n (r + 1) c (draw_cells 80 (row_cells c r) (r * 80) 0 video) row col
        (ground (arith, e, lo)) (omega (arith, hi)) b
]

pub update_screen-row_cells :
    (c : Console) (row col : ℕ)
    → row < 25
    → col < 80
    → (update_screen c).video (row * 80 + col) ≡ row_cells c row col
unfolding update_screen update_cursor
update_screen-row_cells c row col h b =
    elim (Bool-cases (ltb (sub32 c.absolute_write_row c.view_start_row) 25)) [
      | inl e ↦ rw e (draw_rows-at 25 0 c c.video row col (omega arith) (omega (arith, h)) b)
      | inr e ↦ rw e (draw_rows-at 25 0 c c.video row col (omega arith) (omega (arith, h)) b)
    ]

-- The ring holds a row from when it is begun until as many rows are begun behind it as the ring has room for.
abbrev pub Holds : Console → ℕ → Type 0
Holds c r = (r ≤ c.absolute_write_row) × (c.absolute_write_row < r + c.max_history_rows)

-- A row that the ring holds is drawn, and any other is blank.
row_cells-Holds :
    (c : Console) (row col : ℕ)
    → c.view_start_row + row < 2 ^ 32
    → let r = c.view_start_row + row in
      (Holds c r → row_cells c row col ≡ c.line_buffer (r % c.max_history_rows * 80 + col))
      × (¬ Holds c r → row_cells c row col ≡ bit_or 32 (c.current_color * 256))
unfolding row_cells oldest_row
row_cells-Holds c row col small = (
  (λ h. ground (arith, h.0, h.1, small)),
  λ out. elim (Bool-cases (leb (c.view_start_row + row) c.absolute_write_row)) [
    | inr e ↦ ground (arith, e, small)
    | inl e ↦
        elim (Bool-cases (ltb c.absolute_write_row (c.view_start_row + row + c.max_history_rows))) [
          | inl f ↦ absurd (out (ground (arith, e), ground (arith, f)))
          | inr f ↦ ground (arith, e, f, small)
        ]
  ],
)

-- On each of the 25 rows of 80 cells `update_screen` shows the row that has the number of the first one in view plus
-- that on the screen: the cells of the ring for it if it has been begun and not been overwritten since, and blanks in
-- the current color otherwise. The numbers of the rows in view are of 32 bits.
pub update_screen-video :
    (c : Console) (row col : ℕ)
    → row < 25
    → col < 80
    → c.view_start_row + 25 ≤ 2 ^ 32
    → let r = c.view_start_row + row in
      let shown = (update_screen c).video (row * 80 + col) in
      (Holds c r → shown ≡ c.line_buffer (r % c.max_history_rows * 80 + col))
      × (¬ Holds c r → shown ≡ bit_or 32 (c.current_color * 256))
update_screen-video c row col h b small =
    let drawn = update_screen-row_cells c row col h b in
    let (held, blank) = row_cells-Holds c row col (omega (arith, h, small)) in
    ((λ i. drawn ∙ held i), λ i. drawn ∙ blank i)

pub update_screen-kept :
    (c : Console)
    → update_screen c
      ≡ record c { video = (update_screen c).video; cursor = (update_screen c).cursor }
unfolding update_screen update_cursor
update_screen-kept c = elim (Bool-cases (ltb (sub32 c.absolute_write_row c.view_start_row) 25)) [
  | inl e ↦ rw e refl
  | inr e ↦ rw e refl
]

-- Where scrolling leaves the console `d` that was `c`: nothing but the view has moved.
pub record Scrolled (c : Console) (view : ℕ) (d : Console) : Type 0 where
  pub moved : d.view_start_row ≡ view
  pub same_row : d.absolute_write_row ≡ c.absolute_write_row
  pub same_column : d.write_col ≡ c.write_col
  pub same_buffer : d.line_buffer ≡ c.line_buffer
  pub same_irq : d.irq ≡ c.irq

moved-Scrolled :
    (c : Console) (view v : ℕ) (irq : Bool)
    → v ≡ view
    → Scrolled c view
        (record (update_screen (record c { view_start_row = v; irq = irq })) { irq = c.irq })
moved-Scrolled c view v irq e =
    let k = update_screen-kept (record c { view_start_row = v; irq = irq }) in
    record {
      moved = ap (λ d. d.view_start_row) k ∙ e;
      same_row = ap (λ d. d.absolute_write_row) k;
      same_column = ap (λ d. d.write_col) k;
      same_buffer = ap (λ d. d.line_buffer) k;
      same_irq = refl;
    }

-- `scroll_history_up` moves the view up by the lines asked for, but not past the oldest row that the
-- ring still holds; the rows, the write position and the interrupt flag stay.
pub scroll_history_up-Scrolled :
    (lines : ℕ) (c : Console)
    → Scrolled c
        (if leb (c.view_start_row - lines) (oldest_row c)
          then oldest_row c
          else c.view_start_row - lines)
        (scroll_history_up lines c)
unfolding scroll_history_up irq_restore
scroll_history_up-Scrolled lines c =
    moved-Scrolled c
      (if leb (c.view_start_row - lines) (oldest_row c)
        then oldest_row c
        else c.view_start_row - lines)
      _ _ (ground arith)

-- `scroll_history_down` moves the view down by the lines asked for, but not past the last 25 rows, if
-- the sum stays within 32 bits; the rows, the write position and the interrupt flag stay.
pub scroll_history_down-Scrolled :
    (lines : ℕ) (c : Console)
    → c.view_start_row + lines < 2 ^ 32
    → c.absolute_write_row < 2 ^ 32
    → Scrolled c
        (if leb (c.view_start_row + lines) (c.absolute_write_row - 24)
          then c.view_start_row + lines
          else c.absolute_write_row - 24)
        (scroll_history_down lines c)
unfolding scroll_history_down irq_restore
scroll_history_down-Scrolled lines c small row =
    moved-Scrolled c
      (if leb (c.view_start_row + lines) (c.absolute_write_row - 24)
        then c.view_start_row + lines
        else c.absolute_write_row - 24)
      _ _ (ground (arith, small, row))
