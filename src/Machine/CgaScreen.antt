-- ===== src/Machine/CgaScreen.antt =====
-- machine/cgascr.h and machine/cgascr.cc: a window of the text screen. The parameters of the
-- constructor are natural numbers; positions that can be negative are `ℤ`.
pub mod Position
pub mod Memory
pub mod Round
pub mod Print
pub mod Reset
use mpstu_bs.Prelude.{
  ℕ, zero, suc, ◌+◌, ◌-◌, ◌*◌, ◌/◌, ◌%◌, ◌^◌, Bool, true, false, not, ◌&&◌, ◌||◌, Option, none,
  some, List, [], ◌∷◌, ltb, leb, ◌==◌, if◌then◌else◌,
}

pub data ℤ : Type 0 where
  pos : ℕ → ℤ
  negsuc : ℕ → ℤ

-- `a - b`
unfoldable pub difference : ℕ → ℕ → ℤ
difference a b = if leb b a then pos (a - b) else negsuc (b - a - 1)

pub record Cell : Type 0 where
  pub c : ℕ
  pub a : ℕ

-- The fields of the window, the memory of the screen, and the two bytes of the hardware cursor.
pub record Screen : Type 0 where
  pub from_col : ℕ
  pub to_col : ℕ
  pub from_row : ℕ
  pub to_row : ℕ
  pub use_cursor : Bool
  pub rel_x : ℕ
  pub rel_y : ℕ
  pub cells : ℕ → Cell
  pub high : ℕ
  pub low : ℕ

abbrev pub width : Screen → ℕ
width s = s.to_col - s.from_col + 1

abbrev pub height : Screen → ℕ
height s = s.to_row - s.from_row + 1

-- `if (x < 0) { x = size + x; }`
abbrev pub other_side : ℕ → ℤ → ℤ
other_side size (pos n) = pos n
other_side size (negsuc n) = difference size (n + 1)

abbrev store_at : ℤ → ℤ → Cell → (ℕ → Cell) → ℕ → Cell
store_at (negsuc x) y cell cells = cells
store_at (pos x) (negsuc y) cell cells = cells
store_at (pos x) (pos y) cell cells =
    if ltb 79 x || ltb 24 y then cells else (λ i. if x + y * 80 == i then cell else cells i)

-- The static `show`, on the memory of the screen.
unfoldable pub show : ℤ → ℤ → ℕ → ℕ → (ℕ → Cell) → ℕ → Cell
show x y character attrib cells =
    store_at (other_side 80 x) (other_side 25 y) (record { c = character; a = attrib }) cells

abbrev in_bounds : Screen → ℤ → ℤ → Bool
in_bounds s (pos x) (pos y) = ltb x (width s) && ltb y (height s)
in_bounds s (negsuc x) y = false
in_bounds s (pos x) (negsuc y) = false

abbrev natural : ℤ → ℕ
natural (pos n) = n
natural (negsuc n) = 0

-- `setpos`; outside the window nothing happens.
unfoldable pub setpos : ℤ → ℤ → Screen → Screen
setpos x y s =
    let data16 = (s.from_col + natural x + (s.from_row + natural y) * 80) % 2 ^ 16 in
    if not (in_bounds s x y)
    then s
    else if s.use_cursor
    then record s { high = data16 / 256; low = data16 % 256 }
    else record s { rel_x = natural x; rel_y = natural y }

unfoldable pub getpos : Screen → ℤ × ℤ
getpos s =
    let data16 = s.high * 256 + s.low in
    if s.use_cursor
    then (difference (data16 - data16 / 80 * 80) s.from_col, difference (data16 / 80) s.from_row)
    else (pos s.rel_x, pos s.rel_y)

-- The loops that move the rows of the window up: `k` columns from `col` on, `k` rows from `row` on.
unfoldable pub move_columns : ℕ → ℕ → ℕ → (ℕ → Cell) → ℕ → Cell
move_columns zero col row cells = cells
move_columns (suc k) col row cells =
    move_columns k (col + 1) row
      (λ i. if col + row * 80 == i then cells (col + (row + 1) * 80) else cells i)

unfoldable pub move_rows : ℕ → ℕ → ℕ → ℕ → (ℕ → Cell) → ℕ → Cell
move_rows zero columns col row cells = cells
move_rows (suc k) columns col row cells =
    move_rows k columns col (row + 1) (move_columns columns col row cells)

-- The loop that clears the last line, `k` columns from `col` on.
unfoldable pub clear_columns : ℕ → ℕ → ℕ → ℕ → (ℕ → Cell) → ℕ → Cell
clear_columns zero col row attrib cells = cells
clear_columns (suc k) col row attrib cells =
    clear_columns k (col + 1) row attrib (show (pos col) (pos row) b' ' attrib cells)

-- The local variables of `print`, and the memory.
pub record Line : Type 0 where
  pub x : ℕ
  pub y : ℕ
  pub remain : ℕ
  pub cells : ℕ → Cell

-- A tab: a space at a time, and the last place is only passed over.
unfoldable pub tab_step : Screen → ℕ → Line → Bool × Line
tab_step s attrib l =
    let remain = if l.remain == 0 then 4 - l.x % 4 else l.remain in
    if ltb 1 remain
    then (
      false,
      record l {
        remain = remain - 1;
        cells = show (pos (s.from_col + l.x)) (pos (s.from_row + l.y)) b' ' attrib l.cells;
      },
    )
    else (true, record l { remain = 0 })

-- The middle part of the loop, which writes the character; the first part of the result is whether
-- `i` is incremented.
unfoldable pub write_step : Screen → ℕ → ℕ → Line → Bool × Line
write_step s attrib c l =
    let put = λ (d : ℕ). record l {
      cells = show (pos (s.from_col + l.x)) (pos (s.from_row + l.y)) d attrib l.cells;
    } in
    if c == 9
    then tab_step s attrib l
    else if c == 8
    then (true, put b' ')
    else if not (c == 10)
    then (true, put c)
    else (true, l)

-- The last part of the loop. After a backspace `--x` and `++x` cancel out.
unfoldable pub move_step : Screen → ℕ → ℕ → Bool → Bool → Line → Line
move_step s attrib c new_line last_line l =
    if last_line
    then record l {
      x = 0;
      cells =
          clear_columns (width s) s.from_col (s.from_row + l.y) attrib
            (move_rows (s.to_row - s.from_row) (width s) s.from_col s.from_row l.cells);
    }
    else if new_line
    then record l { x = 0; y = l.y + 1 }
    else if c == 8
    then l
    else record l { x = l.x + 1 }

-- One round of the loop of `print`, at a character that is not 0.
unfoldable pub print_step : Screen → ℕ → ℕ → Line → Bool × Line
print_step s attrib c l =
    let l1 = if (c == 8) && ltb 0 l.x then record l { x = l.x - 1 } else l in
    let new_line = not (c == 8) && ((l1.x == width s - 1) || (c == 10)) in
    let last_line = new_line && (l1.y == height s - 1) in
    let (next, l2) = write_step s attrib c l1 in (next, move_step s attrib c new_line last_line l2)

unfoldable pub print_loop : ℕ → Screen → ℕ → List ℕ → Line → Option Line
print_loop zero s attrib cs l = none
print_loop (suc k) s attrib [] l = some l
print_loop (suc k) s attrib (c ∷ cs) l =
    let (next, l') = print_step s attrib c l in
    let skipped = print_loop k s attrib cs l in
    let onward = print_loop k s attrib cs l' in
    let again = print_loop k s attrib (c ∷ cs) l' in
    if c == 0 then skipped else if next then onward else again

-- `print` after its call of `getpos`; a hardware cursor that stands before the window has no result.
unfoldable pub print_from : ℕ → List ℕ → ℕ → Screen → ℤ → ℤ → Option Screen
print_from fuel string attrib s (negsuc x) y = none
print_from fuel string attrib s (pos x) (negsuc y) = none
print_from fuel string attrib s (pos x) (pos y) =
    elim (print_loop fuel s attrib string (record { x = x; y = y; remain = 0; cells = s.cells })) [
      | none ↦ none
      | some l ↦ some (setpos (pos l.x) (pos l.y) (record s { cells = l.cells }))
    ]

unfoldable pub print : ℕ → List ℕ → ℕ → Screen → Option Screen
print fuel string attrib s = let (x, y) = getpos s in print_from fuel string attrib s x y

-- The loops of `reset`: `rows` rows of one column, and `columns` columns.
unfoldable pub fill_rows : ℕ → ℕ → ℕ → ℕ → ℕ → (ℕ → Cell) → ℕ → Cell
fill_rows zero col row character attrib cells = cells
fill_rows (suc k) col row character attrib cells =
    fill_rows k col (row + 1) character attrib (show (pos col) (pos row) character attrib cells)

unfoldable pub fill_columns : ℕ → ℕ → ℕ → ℕ → ℕ → ℕ → (ℕ → Cell) → ℕ → Cell
fill_columns zero rows col row character attrib cells = cells
fill_columns (suc k) rows col row character attrib cells =
    fill_columns k rows (col + 1) row character attrib
      (fill_rows rows col row character attrib cells)

unfoldable pub reset : ℕ → ℕ → Screen → Screen
reset character attrib s =
    let cells = fill_columns (width s) (height s) s.from_col s.from_row character attrib s.cells in
    record (setpos (pos 0) (pos 0) (record s { cells = cells })) { rel_x = 0; rel_y = 0 }
