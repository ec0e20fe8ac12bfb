-- ===== src/Machine/CgaScreen/Position.antt =====
-- CGA_Screen::setpos, getpos and show: positions inside a window.
use mpstu_bs.Prelude.{
  ℕ, ◌+◌, ◌-◌, ◌*◌, ◌/◌, ◌%◌, ◌^◌, ◌≤◌, ◌<◌, ◌≡◌, refl, ap, ap₂, ◌∙◌, inl, inr, Bool, true, false,
  ◌&&◌, ◌||◌, ltb, leb, ◌==◌, arith, Bool-cases,
}
use mpstu_bs.Machine.CgaScreen.{
  ℤ, pos, negsuc, difference, Cell, Screen, width, height, show, setpos, getpos,
}

-- A window that lies on the screen of 80 columns and 25 rows.
pub record OnScreen (s : Screen) : Type 0 where
  pub columns : s.from_col ≤ s.to_col
  pub right : s.to_col < 80
  pub rows : s.from_row ≤ s.to_row
  pub bottom : s.to_row < 25

pub column_lt : (s : Screen) (x : ℕ) → OnScreen s → x < width s → s.from_col + x < 80
column_lt s x on h = let c = on.columns in let r = on.right in omega arith

pub row_lt : (s : Screen) (y : ℕ) → OnScreen s → y < height s → s.from_row + y < 25
row_lt s y on h = let t = on.rows in let b = on.bottom in omega arith

pub difference-add : (a b : ℕ) → difference (a + b) a ≡ pos b
unfolding difference
difference-add a b =
    let le : leb a (a + b) ≡ true = ground arith in
    let e : a + b - a ≡ b = omega arith in rw (le, e) refl

pub quotient :
    (x y : ℕ)
    → x < 80
    → y < 25
    → ((x + y * 80) % 2 ^ 16 / 256 * 256 + (x + y * 80) % 2 ^ 16 % 256) / 80 ≡ y
quotient x y h k = omega arith

pub remainder :
    (x y : ℕ)
    → x < 80
    → y < 25
    → let d = (x + y * 80) % 2 ^ 16 / 256 * 256 + (x + y * 80) % 2 ^ 16 % 256 in d - d / 80 * 80 ≡ x
remainder x y h k = omega arith

-- Inside a window on the screen `getpos` gives the position that `setpos` set, with the hardware
-- cursor and without.
pub getpos-setpos :
    (s : Screen) (x y : ℕ)
    → OnScreen s
    → x < width s
    → y < height s
    → getpos (setpos (pos x) (pos y) s) ≡ (pos x, pos y)
unfolding getpos setpos
getpos-setpos s x y on h k =
    let inside : (ltb x (width s) && ltb y (height s)) ≡ true = ground arith in
    let a = column_lt s x on h in
    let b = row_lt s y on k in
    rw inside (elim (Bool-cases s.use_cursor) [
      | inl cursor ↦ rw cursor (
          ap₂ (λ (i j : ℤ). (i, j))
            (ap (λ d. difference d s.from_col) (remainder (s.from_col + x) (s.from_row + y) a b)
              ∙ difference-add s.from_col x)
            (ap (λ d. difference d s.from_row) (quotient (s.from_col + x) (s.from_row + y) a b)
              ∙ difference-add s.from_row y))
      | inr none_shown ↦ rw none_shown refl
    ])

-- Whether a place in the memory of the screen belongs to the window.
abbrev pub in_window : Screen → ℕ → Bool
in_window s i =
    (leb s.from_col (i % 80) && leb (i % 80) s.to_col)
    && (leb s.from_row (i / 80) && leb (i / 80) s.to_row)

-- The memory differs inside the window only.
abbrev pub Framed : Screen → (ℕ → Cell) → (ℕ → Cell) → Type 0
Framed s before after = (i : ℕ) → in_window s i ≡ false → after i ≡ before i

-- The places of the window.
pub place :
    (s : Screen) (col row : ℕ)
    → OnScreen s
    → s.from_col ≤ col
    → col ≤ s.to_col
    → s.from_row ≤ row
    → row ≤ s.to_row
    → (i : ℕ) → (col + row * 80 == i) ≡ true
    → in_window s i ≡ true
place s col row on a b c d i e =
    let r = on.right in
    let same : col + row * 80 ≡ i = ground arith in
    let x : i % 80 ≡ col = omega arith in
    let y : i / 80 ≡ row = omega arith in rw (x, y) (ground arith)

pub show-Framed :
    (s : Screen) (col row character attrib : ℕ) (cells : ℕ → Cell)
    → OnScreen s
    → s.from_col ≤ col
    → col ≤ s.to_col
    → s.from_row ≤ row
    → row ≤ s.to_row
    → Framed s cells (show (pos col) (pos row) character attrib cells)
unfolding show
show-Framed s col row character attrib cells on a b c d i out =
    elim (Bool-cases (ltb 79 col || ltb 24 row)) [
      | inl far ↦ rw far refl
      | inr near ↦ rw near (elim (Bool-cases (col + row * 80 == i)) [
        | inl e ↦ absurd (let p = place s col row on a b c d i e in ground arith)
        | inr n ↦ rw n refl
      ])
    ]

-- `setpos` leaves the memory of the screen as it is.
pub setpos-cells : (x y : ℤ) (s : Screen) → (setpos x y s).cells ≡ s.cells
unfolding setpos
setpos-cells (pos x) (pos y) s = elim (Bool-cases (ltb x (width s) && ltb y (height s))) [
  | inl inside ↦
      rw inside (elim (Bool-cases s.use_cursor) [ inl c ↦ rw c refl | inr c ↦ rw c refl ])
  | inr outside ↦ rw outside refl
]
setpos-cells (negsuc x) y s = refl
setpos-cells (pos x) (negsuc y) s = refl
