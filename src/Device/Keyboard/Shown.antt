-- ===== src/Device/Keyboard/Shown.antt =====
-- Which character Keyboard::trigger puts on the screen, and where.
use mpstu_bs.Prelude.{
  ℕ, ◌+◌, ◌-◌, ◌*◌, ◌<◌, ◌≡◌, refl, sym, ap, ◌∙◌, Bool, true, false, not, ◌||◌, none, some, Option,
  [], ◌∷◌, ltb, ◌==◌, if◌then◌else◌, arith,
}
use mpstu_bs.Machine.CgaScreen.{
  ℤ, pos, negsuc, Cell, Screen, width, height, show, setpos, getpos, write_step, move_step,
  print_step, print_loop, print_from, print,
}
use mpstu_bs.Machine.CgaScreen.Position.{OnScreen, column_lt, row_lt, getpos-setpos, setpos-cells}
use mpstu_bs.Device.Keyboard.{k0}
use mpstu_bs.Device.Keyboard.Window.{SameWindow, setpos-SameWindow, SameWindow-OnScreen}

-- Neither the end of a text, nor a backspace, a tab or the end of a line.
abbrev pub ordinary : ℕ → Bool
ordinary c = not ((c == 0) || (c == 8) || (c == 9) || (c == 10))

-- The memory of the screen with a character at column x and row y of the window.
abbrev pub written : Screen → ℕ → ℕ → ℕ → ℕ → Cell
written s x y c i =
    if s.from_col + x + (s.from_row + y) * 80 == i then record { c = c; a = k0 } else s.cells i

-- The screen `t` has the character at column x and row y, and differs in no other place; the cursor
-- is at the next column.
abbrev pub Shows : Bool → ℕ → ℕ → ℕ → Screen → ℕ → ℕ → Screen → Type 0
Shows false c x y s x' y' t = Unit
Shows true c x y s x' y' t = ((i : ℕ) → t.cells i ≡ written s x y c i) × (x' ≡ x + 1) × (y' ≡ y)

show-written :
    (s : Screen) (x y c : ℕ)
    → OnScreen s
    → x < width s
    → y < height s
    → show (pos (s.from_col + x)) (pos (s.from_row + y)) c k0 s.cells ≡ written s x y c
unfolding show
show-written s x y c on h k =
    let a = column_lt s x on h in
    let b = row_lt s y on k in
    let inside : (ltb 79 (s.from_col + x) || ltb 24 (s.from_row + y)) ≡ false = ground arith in
    rw inside refl

ordinary_step :
    (s : Screen) (x y c : ℕ) (cells : ℕ → Cell)
    → x + 1 < width s
    → ordinary c ≡ true
    → print_step s k0 c (record { x = x; y = y; remain = 0; cells = cells }) ≡ (
      true,
      record {
        x = x + 1;
        y = y;
        remain = 0;
        cells = show (pos (s.from_col + x)) (pos (s.from_row + y)) c k0 cells;
      },
    )
unfolding print_step write_step move_step
ordinary_step s x y c cells h plain =
    let b : (c == 8) ≡ false = ground arith in
    let t : (c == 9) ≡ false = ground arith in
    let n : (c == 10) ≡ false = ground arith in
    let w : (x == width s - 1) ≡ false = ground arith in rw (b, t, n, w) refl

ordinary_loop :
    (s : Screen) (x y c : ℕ)
    → x + 1 < width s
    → ordinary c ≡ true
    → print_loop 5 s k0 (c ∷ []) (record { x = x; y = y; remain = 0; cells = s.cells })
      ≡ some (record {
        x = x + 1;
        y = y;
        remain = 0;
        cells = show (pos (s.from_col + x)) (pos (s.from_row + y)) c k0 s.cells;
      })
unfolding print_loop
ordinary_loop s x y c h plain =
    let z : (c == 0) ≡ false = ground arith in
    let step = ordinary_step s x y c s.cells h plain in rw (step, z) refl

print-ordinary :
    (s : Screen) (x y c : ℕ)
    → OnScreen s
    → x + 1 < width s
    → y < height s
    → ordinary c ≡ true
    → getpos s ≡ (pos x, pos y)
    → print 5 (c ∷ []) k0 s
      ≡ some (setpos (pos (x + 1)) (pos y) (record s { cells = written s x y c }))
unfolding print print_from
print-ordinary s x y c on h k plain at = rw at (
    rw (ordinary_loop s x y c h plain, print_from)
      (rw (show-written s x y c on (omega arith) k) refl))

the_screen : (s t : Screen) → some s ≡ some t → s ≡ t
the_screen s t e = ap (λ (o : Option Screen). elim o [ none ↦ s | some u ↦ u ]) e

natural : ℤ → ℕ
natural (pos n) = n
natural (negsuc n) = 0

-- A printed character stands where the cursor was.
pub print-Shows :
    (s t : Screen) (x y c x' y' : ℕ)
    → OnScreen s
    → x + 1 < width s
    → y < height s
    → ordinary c ≡ true
    → print 5 (c ∷ []) k0 (setpos (pos x) (pos y) s) ≡ some t
    → getpos t ≡ (pos x', pos y')
    → Shows true c x y s x' y' t
unfolding natural
print-Shows s t x y c x' y' on h k plain printed at =
    let s1 = setpos (pos x) (pos y) s in
    let w1 = setpos-SameWindow (pos x) (pos y) s in
    let on1 : OnScreen s1 = SameWindow-OnScreen s s1 w1 on in
    let wide : x + 1 < width s1 = rw (w1.from_col, w1.to_col) h in
    let high : y < height s1 = rw (w1.from_row, w1.to_row) k in
    let home = getpos-setpos s x y on (omega arith) k in
    let s2 = record s1 { cells = written s1 x y c } in
    let on2 : OnScreen s2 = record {
      columns = on1.columns;
      right = on1.right;
      rows = on1.rows;
      bottom = on1.bottom;
    } in
    let same : setpos (pos (x + 1)) (pos y) s2 ≡ t =
      the_screen _ t (sym (print-ordinary s1 x y c on1 wide high plain home) ∙ printed) in
    let there : (pos (x + 1), pos y) ≡ (pos x', pos y') =
      sym (getpos-setpos s2 (x + 1) y on2 wide high) ∙ ap getpos same ∙ at in
    (
      λ i.
          ap (λ (u : Screen). u.cells i) (sym same)
          ∙ ap (λ m. m i) (setpos-cells (pos (x + 1)) (pos y) s2)
          ∙ written-setpos s s1 x y c i w1 (ap (λ m. m i) (setpos-cells (pos x) (pos y) s)),
      sym (ap (λ p. natural p.0) there),
      sym (ap (λ p. natural p.1) there),
    )
  where
    written-setpos :
        (s s1 : Screen) (x y c i : ℕ)
        → SameWindow s s1
        → s1.cells i ≡ s.cells i
        → written s1 x y c i ≡ written s x y c i
    written-setpos s s1 x y c i w e = rw (w.from_col, w.from_row, e) refl
