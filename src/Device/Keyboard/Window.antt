-- ===== src/Device/Keyboard/Window.antt =====
-- The window of the screen stays as it is while a key is shown.
use mpstu_bs.Prelude.{
  ℕ, ◌≡◌, refl, subst, inl, inr, ◌&&◌, some, List, ltb, Bool-cases, Option-cases,
}
use mpstu_bs.Machine.CgaScreen.{
  ℤ, pos, negsuc, Screen, Line, width, height, setpos, getpos, print_loop, print_from, print,
}
use mpstu_bs.Machine.CgaScreen.Position.{OnScreen}

-- The window of one screen is the window of another.
pub record SameWindow (s t : Screen) : Type 0 where
  pub from_col : t.from_col ≡ s.from_col
  pub to_col : t.to_col ≡ s.to_col
  pub from_row : t.from_row ≡ s.from_row
  pub to_row : t.to_row ≡ s.to_row

pub setpos-SameWindow : (x y : ℤ) (s : Screen) → SameWindow s (setpos x y s)
unfolding setpos
setpos-SameWindow (pos x) (pos y) s = elim (Bool-cases (ltb x (width s) && ltb y (height s))) [
  | inl inside ↦ rw inside (elim (Bool-cases s.use_cursor) [
    | inl c ↦ rw c record { from_col = refl; to_col = refl; from_row = refl; to_row = refl }
    | inr c ↦ rw c record { from_col = refl; to_col = refl; from_row = refl; to_row = refl }
  ])
  | inr outside ↦
      rw outside record { from_col = refl; to_col = refl; from_row = refl; to_row = refl }
]
setpos-SameWindow (negsuc x) y s = record {
  from_col = refl;
  to_col = refl;
  from_row = refl;
  to_row = refl;
}
setpos-SameWindow (pos x) (negsuc y) s = record {
  from_col = refl;
  to_col = refl;
  from_row = refl;
  to_row = refl;
}

some-inj : {A : Type 0} {a b : A} → some a ≡ some b → a ≡ b
some-inj e = cc

print_from-SameWindow :
    (k : ℕ) (text : List ℕ) (attrib : ℕ) (s s' : Screen) (x y : ℤ)
    → print_from k text attrib s x y ≡ some s'
    → SameWindow s s'
unfolding print_from
print_from-SameWindow k text attrib s s' (negsuc x) y h = cc
print_from-SameWindow k text attrib s s' (pos x) (negsuc y) h = cc
print_from-SameWindow k text attrib s s' (pos x) (pos y) h =
    let line : Line = record { x = x; y = y; remain = 0; cells = s.cells } in
    elim (Option-cases (print_loop k s attrib text line)) [
      | inl lost ↦ (let h' = rw (lost, print_from) at h in cc)
      | inr (l, e) ↦
          let h' = rw (e, print_from) at h in
          let w = setpos-SameWindow (pos l.x) (pos l.y) (record s { cells = l.cells }) in
          subst (λ t. SameWindow s t) (some-inj h')
            record {
              from_col = w.from_col;
              to_col = w.to_col;
              from_row = w.from_row;
              to_row = w.to_row;
            }
    ]

pub print-SameWindow :
    (k : ℕ) (text : List ℕ) (attrib : ℕ) (s s' : Screen)
    → print k text attrib s ≡ some s'
    → SameWindow s s'
unfolding print
print-SameWindow k text attrib s s' e =
    print_from-SameWindow k text attrib s s' (getpos s).0 (getpos s).1 e

pub SameWindow-OnScreen : (s t : Screen) → SameWindow s t → OnScreen s → OnScreen t
SameWindow-OnScreen s t w on = record {
  columns = rw (w.from_col, w.to_col) on.columns;
  right = rw w.to_col on.right;
  rows = rw (w.from_row, w.to_row) on.rows;
  bottom = rw w.to_row on.bottom;
}
