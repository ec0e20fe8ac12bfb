-- ===== src/Machine/Ticketlock/Safety.antt =====
-- What follows for every reachable state of the ticket lock: it excludes, and it does not deadlock.
use mpstu_bs.Prelude.{
  ℕ, ◌^◌, ◌≤◌, ◌≡◌, refl, sym, ap, ◌∙◌, ◌⊎◌, inl, inr, true, List, [], ◌∷◌, arith, has,
}
use mpstu_bs.Machine.Ticketlock.{
  Pc, outside, waiting, inside, leaving, System, Reach, begin, later, critical,
}
use mpstu_bs.Machine.Ticketlock.Fifo.{Served, Line, Inv, start-Inv, mem_of_busy, first_of_critical}
use mpstu_bs.Machine.Ticketlock.Access.{waiting-ne-outside, Step-Inv}

pub Reach-Inv : {n : ℕ} {s : System} → n ≤ 2 ^ 32 → Reach n s → (q : List ℕ) × Inv n s q
Reach-Inv {n} few begin = ([], start-Inv n)
Reach-Inv few (later r st) =
    let (q, inv) = Reach-Inv few r in let (q', _, inv') = Step-Inv q few inv st in (q', inv')

first_unique : (i j : ℕ) (q a b : List ℕ) → q ≡ i ∷ a → q ≡ j ∷ b → i ≡ j
first_unique i j q a b e f = cc

critical_first :
    {n : ℕ} {s : System} (q : List ℕ) (i : ℕ)
    → Inv n s q
    → critical (s.pc i) ≡ true
    → (rest : List ℕ) × (q ≡ i ∷ rest)
critical_first {s} q i inv c = first_of_critical q i inv (λ e. ground arith) (λ u e. ground arith)

-- With at most `2 ^ 32` processors, two are never in the section together.
pub mutual_exclusion :
    {n : ℕ} {s : System}
    → n ≤ 2 ^ 32
    → Reach n s
    → (i j : ℕ) → critical (s.pc i) ≡ true
    → critical (s.pc j) ≡ true
    → i ≡ j
mutual_exclusion few r i j in_i in_j =
    let (q, inv) = Reach-Inv few r in
    let (a, e) = critical_first q i inv in_i in
    let (b, f) = critical_first q j inv in_j in first_unique i j q a b e f

-- No deadlock, with at most `2 ^ 32` processors: if a processor waits, some processor is in the section or its ticket is served.
pub no_deadlock :
    {n t : ℕ} {s : System}
    → n ≤ 2 ^ 32
    → Reach n s
    → (i : ℕ) → s.pc i ≡ waiting t
    → (j : ℕ) × ((critical (s.pc j) ≡ true) ⊎ (s.pc j ≡ waiting s.lock.turn))
no_deadlock {t} {s} few r i e =
    let (q, inv) = Reach-Inv few r in
    go q inv.line (mem_of_busy q i inv (λ o. waiting-ne-outside t (sym e ∙ o)))
  where
    served : (p : Pc) (turn : ℕ) → Served p turn → (critical p ≡ true) ⊎ (p ≡ waiting turn)
    served outside turn h = absurd h
    served (waiting t) turn h = inr (ap waiting h)
    served inside turn h = inl refl
    served (leaving v) turn h = inl refl

    go :
        (q : List ℕ)
        → Line s.pc s.lock.turn q
        → has i q ≡ true
        → (j : ℕ) × ((critical (s.pc j) ≡ true) ⊎ (s.pc j ≡ waiting s.lock.turn))
    go [] line h = cc
    go (j ∷ q) line h = (j, served (s.pc j) s.lock.turn line.0)
