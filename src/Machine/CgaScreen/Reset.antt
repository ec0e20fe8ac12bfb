-- ===== src/Machine/CgaScreen/Reset.antt =====
-- CGA_Screen::reset fills the window.
use mpstu_bs.Prelude.{
  ℕ, zero, suc, ◌+◌, ◌*◌, ◌≤◌, ◌<◌, ◌≡◌, refl, ap, ap₂, subst, ◌∙◌, inl, inr, true, false, ◌&&◌,
  ◌||◌, ltb, ◌==◌, arith, Bool-cases, ==_refl,
}
use mpstu_bs.Machine.CgaScreen.{
  ℤ, pos, difference, Cell, Screen, width, height, show, setpos, getpos, fill_rows, fill_columns,
  reset,
}
use mpstu_bs.Machine.CgaScreen.Position.{
  OnScreen, Framed, setpos-cells, column_lt, row_lt, difference-add, quotient, remainder,
}
use mpstu_bs.Machine.CgaScreen.Memory.{fill_columns-Framed}

module _ (character attrib : ℕ) where
  abbrev pub filled : Cell
  filled = record { c = character; a = attrib }

  show-kept :
      (col row i : ℕ) (cells : ℕ → Cell)
      → cells i ≡ filled
      → show (pos col) (pos row) character attrib cells i ≡ filled
  unfolding show
  show-kept col row i cells h = elim (Bool-cases (ltb 79 col || ltb 24 row)) [
    | inl far ↦ rw far h
    | inr near ↦
        rw near (elim (Bool-cases (col + row * 80 == i)) [ inl e ↦ rw e refl | inr n ↦ rw n h ])
  ]

  show-there :
      (col row : ℕ) (cells : ℕ → Cell)
      → col < 80
      → row < 25
      → show (pos col) (pos row) character attrib cells (col + row * 80) ≡ filled
  unfolding show
  show-there col row cells a b =
      let near : (ltb 79 col || ltb 24 row) ≡ false = ground arith in
      rw near (rw (==_refl (col + row * 80)) refl)

  fill_rows-kept :
      (k col row i : ℕ) (cells : ℕ → Cell)
      → cells i ≡ filled
      → fill_rows k col row character attrib cells i ≡ filled
  unfolding fill_rows
  fill_rows-kept zero col row i cells h = h
  fill_rows-kept (suc k) col row i cells h =
      fill_rows-kept k col (row + 1) i _ (show-kept col row i cells h)

  fill_rows-there :
      (k col row r : ℕ) (cells : ℕ → Cell)
      → col < 80
      → r < 25
      → row ≤ r
      → r < row + k
      → fill_rows k col row character attrib cells (col + r * 80) ≡ filled
  unfolding fill_rows
  fill_rows-there zero col row r cells a b l u = absurd (omega arith)
  fill_rows-there (suc k) col row r cells a b l u = elim (Bool-cases (row == r)) [
    | inl e ↦
        let same : row ≡ r = ground arith in
        fill_rows-kept k col (row + 1) (col + r * 80) _ (
          subst (λ t. show (pos col) (pos row) character attrib cells (col + t * 80) ≡ filled) same
            (show-there col row cells a (omega arith)))
    | inr n ↦ fill_rows-there k col (row + 1) r _ a b (ground arith) (omega arith)
  ]

  fill_columns-kept :
      (k rows col row i : ℕ) (cells : ℕ → Cell)
      → cells i ≡ filled
      → fill_columns k rows col row character attrib cells i ≡ filled
  unfolding fill_columns
  fill_columns-kept zero rows col row i cells h = h
  fill_columns-kept (suc k) rows col row i cells h =
      fill_columns-kept k rows (col + 1) row i _ (fill_rows-kept rows col row i cells h)

  fill_columns-there :
      (k rows col row q r : ℕ) (cells : ℕ → Cell)
      → q < 80
      → r < 25
      → col ≤ q
      → q < col + k
      → row ≤ r
      → r < row + rows
      → fill_columns k rows col row character attrib cells (q + r * 80) ≡ filled
  unfolding fill_columns
  fill_columns-there zero rows col row q r cells a b l u l' u' = absurd (omega arith)
  fill_columns-there (suc k) rows col row q r cells a b l u l' u' = elim (Bool-cases (col == q)) [
    | inl e ↦
        let same : col ≡ q = ground arith in
        fill_columns-kept k rows (col + 1) row (q + r * 80) _ (
          subst (λ t. fill_rows rows col row character attrib cells (t + r * 80) ≡ filled) same
            (fill_rows-there rows col row r cells (omega arith) b l' u'))
    | inr n ↦ fill_columns-there k rows (col + 1) row q r _ a b (ground arith) (omega arith) l' u'
  ]

  cursor-home :
      (s : Screen) (memory : ℕ → Cell)
      → OnScreen s
      → getpos
          (record (setpos (pos 0) (pos 0) (record s { cells = memory })) { rel_x = 0; rel_y = 0 })
        ≡ (pos 0, pos 0)
  unfolding getpos setpos
  cursor-home s memory on =
      let inside : (ltb 0 (width s) && ltb 0 (height s)) ≡ true = ground arith in
      let a = column_lt s 0 on (omega arith) in
      let b = row_lt s 0 on (omega arith) in
      elim (Bool-cases s.use_cursor) [
        | inl cursor ↦ rw inside (
            rw cursor (
              ap₂ (λ (i j : ℤ). (i, j))
                (ap (λ d. difference d s.from_col) (remainder (s.from_col + 0) (s.from_row + 0) a b)
                  ∙ difference-add s.from_col 0)
                (ap (λ d. difference d s.from_row) (quotient (s.from_col + 0) (s.from_row + 0) a b)
                  ∙ difference-add s.from_row 0)))
        | inr none_shown ↦ rw inside (rw none_shown refl)
      ]

  -- In a window on the screen `reset` shows the character at each of its places, changes nothing
  -- outside, and puts the cursor to the upper left corner.
  pub reset-filled :
      (s : Screen)
      → OnScreen s
      → (x y : ℕ) → x < width s
      → y < height s
      → ((reset character attrib s).cells (s.from_col + x + (s.from_row + y) * 80) ≡ filled)
        × Framed s s.cells (reset character attrib s).cells
        × (getpos (reset character attrib s) ≡ (pos 0, pos 0))
  unfolding reset
  reset-filled s on x y l u =
      let memory =
        fill_columns (width s) (height s) s.from_col s.from_row character attrib s.cells in
      let same : (setpos (pos 0) (pos 0) (record s { cells = memory })).cells ≡ memory =
        setpos-cells (pos 0) (pos 0) (record s { cells = memory }) in
      let a : s.from_col ≤ s.to_col = on.columns in
      let b : s.from_row ≤ s.to_row = on.rows in
      let c : s.to_col < 80 = on.right in
      let d : s.to_row < 25 = on.bottom in
      (
        ap (λ m. m (s.from_col + x + (s.from_row + y) * 80)) same
            ∙ fill_columns-there (width s) (height s) s.from_col s.from_row (s.from_col + x)
                (s.from_row + y) s.cells (omega arith) (omega arith) (omega arith) (omega arith)
                (omega arith) (omega arith),
        λ i o.
            ap (λ m. m i) same
            ∙ fill_columns-Framed s on (width s) (height s) s.from_col s.from_row character attrib
                s.cells (omega arith) (omega arith) (omega arith) (omega arith) i o,
        cursor-home s memory on,
      )
