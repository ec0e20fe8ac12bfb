-- ===== src/Machine/Ticketlock/Fifo.antt =====
-- The processors that hold a ticket form a first-in first-out list: the tickets count up from the
-- turn, and only the first may be in the section.
use mpstu_bs.Prelude.{
  ℕ, suc, ◌+◌, ◌^◌, ◌≤◌, ◌<◌, ◌≡◌, refl, sym, ap, ◌∙◌, ◌≢◌, inl, inr, true, false, List, [], ◌∷◌,
  ◌++◌, arith, ◌==◌, length, has, Distinct, Below, Bool-cases,
}
use mpstu_bs.Machine.Ticketlock.{u32, Pc, outside, waiting, inside, leaving, System, start, init}

-- What the first of the list may be doing while `turn` is served.
abbrev pub Served : Pc → ℕ → Type 0
Served outside turn = ⊥
Served (waiting t) turn = t ≡ turn
Served inside turn = Unit
Served (leaving v) turn = v ≡ turn

-- The others wait with the tickets from `t` on.
abbrev pub Waits : (ℕ → Pc) → ℕ → List ℕ → Type 0
Waits pc t [] = Unit
Waits pc t (i ∷ q) = (pc i ≡ waiting t) × Waits pc (u32 (t + 1)) q

abbrev pub Line : (ℕ → Pc) → ℕ → List ℕ → Type 0
Line pc turn [] = Unit
Line pc turn (i ∷ q) = Served (pc i) turn × Waits pc (u32 (turn + 1)) q

pub record Inv (n : ℕ) (s : System) (q : List ℕ) : Type 0 where
  pub line : Line s.pc s.lock.turn q
  pub next : s.lock.ticketnumber ≡ u32 (s.lock.turn + length q)
  pub small : s.lock.turn < 2 ^ 32
  pub distinct : Distinct q
  pub below : Below n q
  pub others : (i : ℕ) → has i q ≡ false → s.pc i ≡ outside

pub start-Inv : (n : ℕ) → Inv n start []
unfolding init
start-Inv n = record {
  line = tt;
  next = refl;
  small = omega arith;
  distinct = tt;
  below = tt;
  others = λ i o. refl;
}

pub Waits-frame :
    (f g : ℕ → Pc) (t : ℕ) (q : List ℕ)
    → Waits f t q
    → ((i : ℕ) → has i q ≡ true → g i ≡ f i)
    → Waits g t q
Waits-frame f g t [] w same = tt
Waits-frame f g t (i ∷ q) w same = (
  same i (ground arith) ∙ w.0,
  Waits-frame f g (u32 (t + 1)) q w.1 (λ j h. same j (ground arith)),
)

pub Waits-snoc :
    (f : ℕ → Pc) (t : ℕ) (q : List ℕ) (i : ℕ)
    → Waits f t q
    → f i ≡ waiting (u32 (t + length q))
    → t < 2 ^ 32
    → Waits f t (q ++ i ∷ [])
Waits-snoc f t [] i w e small = (e ∙ ap waiting (omega arith), tt)
Waits-snoc f t (j ∷ q) i w e small =
    (w.0, Waits-snoc f (u32 (t + 1)) q i w.1 (e ∙ ap waiting (omega arith)) (omega arith))

-- A ticket further back is not the turn while there are at most `2 ^ 32` of them.
pub Waits-ne :
    (f : ℕ → Pc) (turn d t : ℕ) (q : List ℕ) (i u : ℕ)
    → Waits f t q
    → t ≡ u32 (turn + d)
    → turn < 2 ^ 32
    → 0 < d
    → d + length q ≤ 2 ^ 32
    → has i q ≡ true
    → f i ≡ waiting u
    → u ≢ turn
Waits-ne f turn d t [] i u w e small pos room h p = cc
Waits-ne f turn d t (j ∷ q) i u w e small pos room h p = elim (Bool-cases (i == j)) [
  | inl here ↦
      let same : i ≡ j = ground arith in
      let ticket : u ≡ t = waiting-injective u t (sym p ∙ ap f same ∙ w.0) in omega arith
  | inr there ↦
      Waits-ne f turn (suc d) (u32 (t + 1)) q i u w.1 (omega arith) small (omega arith)
        (omega arith) (ground arith) p
]
  where
    waiting-injective : (a b : ℕ) → waiting a ≡ waiting b → a ≡ b
    waiting-injective a b e = cc

-- All but the first wait.
Waits-waiting :
    (f : ℕ → Pc) (t : ℕ) (q : List ℕ) (i : ℕ)
    → Waits f t q
    → has i q ≡ true
    → (u : ℕ) × (f i ≡ waiting u)
Waits-waiting f t [] i w h = cc
Waits-waiting f t (j ∷ q) i w h = elim (Bool-cases (i == j)) [
  | inl here ↦ let same : i ≡ j = ground arith in (t, ap f same ∙ w.0)
  | inr there ↦ Waits-waiting f (u32 (t + 1)) q i w.1 (ground arith)
]

-- A processor that is not outside stands in the list.
pub mem_of_busy :
    {n : ℕ} {s : System} (q : List ℕ) (i : ℕ) → Inv n s q → s.pc i ≢ outside → has i q ≡ true
mem_of_busy q i inv busy = elim (Bool-cases (has i q)) [
  | inl h ↦ h
  | inr h ↦ absurd (busy (inv.others i h))
]

-- One that is neither outside nor waiting stands first.
pub first_of_critical :
    {n : ℕ} {s : System} (q : List ℕ) (i : ℕ)
    → Inv n s q
    → s.pc i ≢ outside
    → ((u : ℕ) → s.pc i ≢ waiting u)
    → (rest : List ℕ) × (q ≡ i ∷ rest)
first_of_critical [] i inv busy in_section = absurd (busy (inv.others i refl))
first_of_critical {n} {s} (j ∷ q) i inv busy in_section = elim (Bool-cases (i == j)) [
  | inl here ↦ let same : i ≡ j = ground arith in (q, ap (λ k. k ∷ q) (sym same))
  | inr there ↦
      let m = mem_of_busy (j ∷ q) i inv busy in
      let (u, e) = Waits-waiting s.pc _ q i inv.line.1 (ground arith) in absurd (in_section u e)
]

busy_of_Served : (p : Pc) (turn : ℕ) → Served p turn → p ≢ outside
busy_of_Served outside turn s e = s
busy_of_Served (waiting t) turn s e = cc
busy_of_Served inside turn s e = cc
busy_of_Served (leaving v) turn s e = cc

-- Who stands in the line is not outside.
pub busy_of_mem :
    (pc : ℕ → Pc) (turn : ℕ) (q : List ℕ) (i : ℕ) → Line pc turn q → has i q ≡ true → pc i ≢ outside
busy_of_mem pc turn [] i l h = cc
busy_of_mem pc turn (j ∷ q) i l h = elim (Bool-cases (i == j)) [
  | inl here ↦
      let same : i ≡ j = ground arith in λ e. busy_of_Served (pc j) turn l.0 (ap pc (sym same) ∙ e)
  | inr there ↦
      let (u, w) = Waits-waiting pc _ q i l.1 (ground arith) in
      λ e. waiting-ne-outside u (sym w ∙ e)
]
  where
    waiting-ne-outside : (u : ℕ) → waiting u ≢ outside
    waiting-ne-outside u e = cc
