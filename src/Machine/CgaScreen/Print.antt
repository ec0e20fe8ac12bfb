-- ===== src/Machine/CgaScreen/Print.antt =====
-- CGA_Screen::print: it ends, keeps the cursor in the window, and writes nowhere else.
use mpstu_bs.Prelude.{
  ℕ, zero, suc, ◌+◌, ◌*◌, ◌≤◌, ◌<◌, ◌≡◌, refl, ap, ◌∙◌, inl, inr, some, List, [], ◌∷◌, ◌==◌,
  if◌then◌else◌, length, arith, Bool-cases,
}
use mpstu_bs.Machine.CgaScreen.{
  pos, Screen, Line, width, height, getpos, print_step, print_loop, print_from, print,
}
use mpstu_bs.Machine.CgaScreen.Memory.{Framed-then}
use mpstu_bs.Machine.CgaScreen.Position.{OnScreen, Framed, setpos-cells, getpos-setpos}
use mpstu_bs.Machine.CgaScreen.Round.{Inside, print_step-Stepped}

module _ (s : Screen) (on : OnScreen s) where
  -- How many rounds the rest of the text takes at most.
  abbrev budget : List ℕ → ℕ → ℕ
  budget [] remain = 0
  budget (c ∷ cs) remain = (if remain == 0 then 4 else remain) + 4 * length cs

  budget_le : (cs : List ℕ) (r : ℕ) → r ≤ 4 → budget cs r ≤ 4 * length cs
  budget_le [] r h = omega arith
  budget_le (c ∷ cs) r h = ground arith

  fuel_next : (r n b k : ℕ) → (if r == 0 then 4 else r) + 4 * n < suc k → b ≤ 4 * n → b < k
  fuel_next r n b k f h = ground arith

  fuel_again :
      (r r' n k : ℕ)
      → (if r == 0 then 4 else r) + 4 * n < suc k
      → r' < (if r == 0 then 4 else r)
      → 0 < r'
      → (if r' == 0 then 4 else r') + 4 * n < k
  fuel_again r r' n k f h p = ground arith

  print_loop-Stepped :
      (k attrib : ℕ) (cs : List ℕ) (l : Line)
      → Inside s on l
      → budget cs l.remain < k
      → (l' : Line) × (print_loop k s attrib cs l ≡ some l')
        × Inside s on l'
        × Framed s l.cells l'.cells
  unfolding print_loop
  print_loop-Stepped zero attrib cs l n f = absurd (omega arith)
  print_loop-Stepped (suc k) attrib [] l n f = (l, refl, n, λ i o. refl)
  print_loop-Stepped (suc k) attrib (c ∷ cs) l n f = elim (Bool-cases (c == 0)) [
    | inl skip ↦
        rw (skip, print_loop)
          (print_loop-Stepped k attrib cs l n
            (fuel_next l.remain (length cs) _ k f (budget_le cs l.remain n.few)))
    | inr char ↦
        let t = print_step-Stepped s on attrib c l n in
        let l1 = (print_step s attrib c l).1 in
        elim (Bool-cases (print_step s attrib c l).0) [
          | inl next ↦
              let (l', e, n', g) =
                print_loop-Stepped k attrib cs l1 t.inside
                  (fuel_next l.remain (length cs) _ k f (budget_le cs l1.remain t.inside.few)) in
              (l', rw (char, next, print_loop) e, n', Framed-then s t.frame g)
          | inr again ↦ elim t.progress [
            | inl on_now ↦ absurd (ground arith)
            | inr (less, more) ↦
                let (l', e, n', g) =
                  print_loop-Stepped k attrib (c ∷ cs) l1 t.inside
                    (fuel_again l.remain l1.remain (length cs) k f less more) in
                (l', rw (char, again, print_loop) e, n', Framed-then s t.frame g)
          ]
        ]
  ]

  -- Inside a window on the screen, from a cursor inside the window, `print` ends with fuel for four
  -- rounds a character, writes to the places of the window only, and leaves the cursor inside.
  pub print-Framed :
      (k attrib x y : ℕ) (string : List ℕ)
      → getpos s ≡ (pos x, pos y)
      → x < width s
      → y < height s
      → 4 * length string < k
      → (s' : Screen) × (print k string attrib s ≡ some s')
        × Framed s s.cells s'.cells
        × (x' : ℕ) × (y' : ℕ) × (getpos s' ≡ (pos x', pos y'))
        × (x' < width s)
        × (y' < height s)
  unfolding print print_from
  print-Framed k attrib x y string at h v f =
      let start : Line = record { x = x; y = y; remain = 0; cells = s.cells } in
      let (l, e, n, g) =
        print_loop-Stepped k attrib string start record { x_in = h; y_in = v; few = omega arith }
          (let b = budget_le string 0 (omega arith) in omega arith) in
      rw at (
        rw (e, print_from)
          (
            _,
            refl,
            λ i o.
                ap (λ m. m i) (setpos-cells (pos l.x) (pos l.y) (record s { cells = l.cells }))
                ∙ g i o,
            l.x,
            l.y,
            getpos-setpos (record s { cells = l.cells }) l.x l.y
                record {
                  columns = on.columns;
                  right = on.right;
                  rows = on.rows;
                  bottom = on.bottom;
                }
                n.x_in n.y_in,
            n.x_in,
            n.y_in,
          ))
