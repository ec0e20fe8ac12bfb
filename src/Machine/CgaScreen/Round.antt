-- ===== src/Machine/CgaScreen/Round.antt =====
-- A round of the loop of CGA_Screen::print: it stays in the window, writes nowhere else, and comes
-- nearer to the end.
use mpstu_bs.Prelude.{
  ℕ, ◌+◌, ◌-◌, ◌%◌, ◌≤◌, ◌<◌, ◌≡◌, refl, subst, inl, inr, ◌⊎◌, Bool, true, not, ◌&&◌, ◌||◌, ltb,
  ◌==◌, if◌then◌else◌, arith, Bool-cases,
}
use mpstu_bs.Machine.CgaScreen.{
  pos, Screen, Line, width, height, show, tab_step, write_step, move_step, print_step,
}
use mpstu_bs.Machine.CgaScreen.Memory.{Framed-then, move_rows-Framed, clear_columns-Framed}
use mpstu_bs.Machine.CgaScreen.Position.{OnScreen, Framed, show-Framed}

module _ (s : Screen) (on : OnScreen s) where
  -- The position is inside the window.
  pub record Inside (l : Line) : Type 0 where
    pub x_in : l.x < width s
    pub y_in : l.y < height s
    pub few : l.remain ≤ 4

  cell-Framed :
      (d attrib : ℕ) (l : Line)
      → Inside l
      → Framed s l.cells (show (pos (s.from_col + l.x)) (pos (s.from_row + l.y)) d attrib l.cells)
  cell-Framed d attrib l n =
      let a : s.from_col ≤ s.to_col = on.columns in
      let b : s.from_row ≤ s.to_row = on.rows in
      let x : l.x < width s = n.x_in in
      let y : l.y < height s = n.y_in in
      show-Framed s (s.from_col + l.x) (s.from_row + l.y) d attrib l.cells on (omega arith)
        (omega arith) (omega arith) (omega arith)

  -- What writing a character does.
  record Written (c : ℕ) (l : Line) (next : Bool) (l' : Line) : Type 0 where
    x_same : l'.x ≡ l.x
    y_same : l'.y ≡ l.y
    few : l'.remain ≤ 4
    frame : Framed s l.cells l'.cells
    progress :
        (next ≡ true) ⊎ (l'.remain < (if l.remain == 0 then 4 else l.remain)) × (0 < l'.remain)

  tab_step-Written :
      (attrib : ℕ) (l : Line)
      → Inside l
      → Written 9 l (tab_step s attrib l).0 (tab_step s attrib l).1
  unfolding tab_step
  tab_step-Written attrib l n =
      let remain = if l.remain == 0 then 4 - l.x % 4 else l.remain in
      let few = n.few in
      elim (Bool-cases (ltb 1 remain)) [
        | inl more ↦ rw more record {
          x_same = refl;
          y_same = refl;
          few = ground arith;
          frame = cell-Framed b' ' attrib l n;
          progress = inr (ground arith, ground arith);
        }
        | inr last ↦ rw last record {
          x_same = refl;
          y_same = refl;
          few = omega arith;
          frame = λ i o. refl;
          progress = inl refl;
        }
      ]

  write_step-Written :
      (attrib c : ℕ) (l : Line)
      → Inside l
      → Written c l (write_step s attrib c l).0 (write_step s attrib c l).1
  unfolding write_step
  write_step-Written attrib c l n = elim (Bool-cases (c == 9)) [
    | inl tab ↦
        let t = tab_step-Written attrib l n in
        rw tab record {
          x_same = t.x_same;
          y_same = t.y_same;
          few = t.few;
          frame = t.frame;
          progress = t.progress;
        }
    | inr no_tab ↦ rw no_tab (elim (Bool-cases (c == 8)) [
      | inl back ↦ rw back record {
        x_same = refl;
        y_same = refl;
        few = n.few;
        frame = cell-Framed b' ' attrib l n;
        progress = inl refl;
      }
      | inr no_back ↦ rw no_back (elim (Bool-cases (c == 10)) [
        | inl feed ↦ rw feed record {
          x_same = refl;
          y_same = refl;
          few = n.few;
          frame = λ i o. refl;
          progress = inl refl;
        }
        | inr plain ↦ rw plain record {
          x_same = refl;
          y_same = refl;
          few = n.few;
          frame = cell-Framed c attrib l n;
          progress = inl refl;
        }
      ])
    ])
  ]

  -- What moving on does.
  record Moved (l l' : Line) : Type 0 where
    inside : Inside l'
    frame : Framed s l.cells l'.cells
    remain : l'.remain ≡ l.remain

  move_step-Moved :
      (attrib c : ℕ) (l : Line)
      → Inside l
      → let new_line = not (c == 8) && ((l.x == width s - 1) || (c == 10)) in
        let last_line = new_line && (l.y == height s - 1) in
        Moved l (move_step s attrib c new_line last_line l)
  unfolding move_step
  move_step-Moved attrib c l n =
      let new_line = not (c == 8) && ((l.x == width s - 1) || (c == 10)) in
      let last_line = new_line && (l.y == height s - 1) in
      let a : s.from_col ≤ s.to_col = on.columns in
      let b : s.from_row ≤ s.to_row = on.rows in
      let x : l.x < width s = n.x_in in
      let y : l.y < height s = n.y_in in
      elim (Bool-cases last_line) [
        | inl last ↦ rw last record {
          inside = record { x_in = omega arith; y_in = n.y_in; few = n.few };
          frame =
              Framed-then s
                (move_rows-Framed s on (s.to_row - s.from_row) (width s) s.from_col s.from_row
                  l.cells (omega arith) (omega arith) (omega arith) (omega arith))
                (clear_columns-Framed s on (width s) s.from_col (s.from_row + l.y) attrib _
                  (omega arith) (omega arith) (omega arith) (omega arith));
          remain = refl;
        }
        | inr more ↦ rw more (elim (Bool-cases new_line) [
          | inl line ↦ rw line record {
            inside = record { x_in = omega arith; y_in = ground arith; few = n.few };
            frame = λ i o. refl;
            remain = refl;
          }
          | inr stay ↦ rw stay (elim (Bool-cases (c == 8)) [
            | inl back ↦ rw back record { inside = n; frame = λ i o. refl; remain = refl }
            | inr onward ↦ rw onward record {
              inside = record { x_in = ground arith; y_in = n.y_in; few = n.few };
              frame = λ i o. refl;
              remain = refl;
            }
          ])
        ])
      ]

  -- `new_line` and `last_line`, from the position before the character is written.
  abbrev new_line : ℕ → ℕ → Bool
  new_line c x = not (c == 8) && ((x == width s - 1) || (c == 10))

  abbrev last_line : ℕ → ℕ → ℕ → Bool
  last_line c x y = new_line c x && (y == height s - 1)

  move_at :
      (attrib c x y : ℕ) (l : Line)
      → Inside l
      → l.x ≡ x
      → l.y ≡ y
      → Moved l (move_step s attrib c (new_line c x) (last_line c x y) l)
  move_at attrib c x y l n ex ey =
      subst (λ x1. Moved l (move_step s attrib c (new_line c x1) (last_line c x1 y) l)) ex
        (subst (λ y1. Moved l (move_step s attrib c (new_line c l.x) (last_line c l.x y1) l)) ey
          (move_step-Moved attrib c l n))

  -- What a round does.
  pub record Stepped (l : Line) (next : Bool) (l' : Line) : Type 0 where
    pub inside : Inside l'
    pub frame : Framed s l.cells l'.cells
    pub progress :
        (next ≡ true) ⊎ (l'.remain < (if l.remain == 0 then 4 else l.remain)) × (0 < l'.remain)

  -- A round from the position after the backspace.
  round-Stepped :
      (attrib c : ℕ) (l : Line)
      → Inside l
      → let w = write_step s attrib c l in
        Stepped l w.0 (move_step s attrib c (new_line c l.x) (last_line c l.x l.y) w.1)
  round-Stepped attrib c l n =
      let w = write_step-Written attrib c l n in
      let l2 = (write_step s attrib c l).1 in
      let n2 : Inside l2 = record {
        x_in = rw w.x_same n.x_in;
        y_in = rw w.y_same n.y_in;
        few = w.few;
      } in
      let m = move_at attrib c l.x l.y l2 n2 w.x_same w.y_same in
      record {
        inside = m.inside;
        frame = Framed-then s w.frame m.frame;
        progress = rw m.remain w.progress;
      }

  pub print_step-Stepped :
      (attrib c : ℕ) (l : Line)
      → Inside l
      → Stepped l (print_step s attrib c l).0 (print_step s attrib c l).1
  unfolding print_step
  print_step-Stepped attrib c l n = elim (Bool-cases ((c == 8) && ltb 0 l.x)) [
    | inl back ↦ rw back (
        let r =
          round-Stepped attrib c (record l { x = l.x - 1 })
            record {
              x_in = (let x : l.x < width s = n.x_in in omega arith);
              y_in = n.y_in;
              few = n.few;
            } in
        record { inside = r.inside; frame = r.frame; progress = r.progress })
    | inr onward ↦ rw onward (round-Stepped attrib c l n)
  ]
