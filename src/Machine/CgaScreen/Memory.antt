-- ===== src/Machine/CgaScreen/Memory.antt =====
-- The loops of CGA_Screen over the memory of the screen: they write in the window only.
use mpstu_bs.Prelude.{ℕ, zero, suc, ◌+◌, ◌*◌, ◌≤◌, refl, ◌∙◌, inl, inr, ◌==◌, arith, Bool-cases}
use mpstu_bs.Machine.CgaScreen.{
  Cell, Screen, move_columns, move_rows, clear_columns, fill_rows, fill_columns,
}
use mpstu_bs.Machine.CgaScreen.Position.{OnScreen, Framed, place, show-Framed}

pub Framed-then : (s : Screen) {a b c : ℕ → Cell} → Framed s a b → Framed s b c → Framed s a c
Framed-then s f g i o = g i o ∙ f i o

module _ (s : Screen) (on : OnScreen s) where
  move_columns-Framed :
      (k col row : ℕ) (cells : ℕ → Cell)
      → s.from_col ≤ col
      → col + k ≤ s.to_col + 1
      → s.from_row ≤ row
      → row ≤ s.to_row
      → Framed s cells (move_columns k col row cells)
  unfolding move_columns
  move_columns-Framed zero col row cells a b c d i o = refl
  move_columns-Framed (suc k) col row cells a b c d i o =
      move_columns-Framed k (col + 1) row _ (omega arith) (omega arith) c d i o
      ∙ (elim (Bool-cases (col + row * 80 == i)) [
        | inl e ↦ absurd (let p = place s col row on a (omega arith) c d i e in ground arith)
        | inr n ↦ rw n refl
      ])

  pub move_rows-Framed :
      (k columns col row : ℕ) (cells : ℕ → Cell)
      → s.from_col ≤ col
      → col + columns ≤ s.to_col + 1
      → s.from_row ≤ row
      → row + k ≤ s.to_row
      → Framed s cells (move_rows k columns col row cells)
  unfolding move_rows
  move_rows-Framed zero columns col row cells a b c d i o = refl
  move_rows-Framed (suc k) columns col row cells a b c d i o =
      move_rows-Framed k columns col (row + 1) _ a b (omega arith) (omega arith) i o
      ∙ move_columns-Framed columns col row cells a b c (omega arith) i o

  pub clear_columns-Framed :
      (k col row attrib : ℕ) (cells : ℕ → Cell)
      → s.from_col ≤ col
      → col + k ≤ s.to_col + 1
      → s.from_row ≤ row
      → row ≤ s.to_row
      → Framed s cells (clear_columns k col row attrib cells)
  unfolding clear_columns
  clear_columns-Framed zero col row attrib cells a b c d i o = refl
  clear_columns-Framed (suc k) col row attrib cells a b c d i o =
      clear_columns-Framed k (col + 1) row attrib _ (omega arith) (omega arith) c d i o
      ∙ show-Framed s col row b' ' attrib cells on a (omega arith) c d i o

  fill_rows-Framed :
      (k col row character attrib : ℕ) (cells : ℕ → Cell)
      → s.from_col ≤ col
      → col ≤ s.to_col
      → s.from_row ≤ row
      → row + k ≤ s.to_row + 1
      → Framed s cells (fill_rows k col row character attrib cells)
  unfolding fill_rows
  fill_rows-Framed zero col row character attrib cells a b c d i o = refl
  fill_rows-Framed (suc k) col row character attrib cells a b c d i o =
      fill_rows-Framed k col (row + 1) character attrib _ a b (omega arith) (omega arith) i o
      ∙ show-Framed s col row character attrib cells on a b c (omega arith) i o

  pub fill_columns-Framed :
      (k rows col row character attrib : ℕ) (cells : ℕ → Cell)
      → s.from_col ≤ col
      → col + k ≤ s.to_col + 1
      → s.from_row ≤ row
      → row + rows ≤ s.to_row + 1
      → Framed s cells (fill_columns k rows col row character attrib cells)
  unfolding fill_columns
  fill_columns-Framed zero rows col row character attrib cells a b c d i o = refl
  fill_columns-Framed (suc k) rows col row character attrib cells a b c d i o =
      fill_columns-Framed k rows (col + 1) row character attrib _ (omega arith) (omega arith) c d i
        o
      ∙ fill_rows-Framed rows col row character attrib cells a (omega arith) c d i o
