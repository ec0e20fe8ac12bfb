-- ===== src/Tests/Screens.antt =====
-- machine/cgascr.cc at a window of 80 columns and 17 rows.
use mpstu_bs.Prelude.{ℕ, ◌<◌, ◌≡◌, refl, true, some, List, [], ◌∷◌, arith}
use mpstu_bs.Machine.CgaScreen.{pos, difference, Screen, width, height, getpos, print}
use mpstu_bs.Machine.CgaScreen.Position.{OnScreen, Framed}
use mpstu_bs.Machine.CgaScreen.Print.{print-Framed}
use mpstu_bs.Machine.CgaScreen.Reset.{filled}

abbrev window : Screen
window = record {
  from_col = 0;
  to_col = 79;
  from_row = 0;
  to_row = 16;
  use_cursor = true;
  rel_x = 0;
  rel_y = 0;
  cells = λ i. filled b' ' 7;
  high = 0;
  low = 0;
}

window-OnScreen : OnScreen window
window-OnScreen = record {
  columns = omega arith;
  right = omega arith;
  rows = omega arith;
  bottom = omega arith;
}

-- A letter, a tab, a line break.
abbrev text : List ℕ
text = 65 ∷ 9 ∷ 10 ∷ []

window_home : getpos window ≡ (pos 0, pos 0)
unfolding getpos difference
window_home = refl

print-Framed_example :
    (s' : Screen) × (print 13 text 7 window ≡ some s')
    × Framed window window.cells s'.cells
    × (x' : ℕ) × (y' : ℕ) × (getpos s' ≡ (pos x', pos y'))
    × (x' < width window)
    × (y' < height window)
print-Framed_example =
    print-Framed window window-OnScreen 13 7 0 0 text window_home (omega arith) (omega arith)
      (omega arith)
