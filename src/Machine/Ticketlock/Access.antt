-- ===== src/Machine/Ticketlock/Access.antt =====
-- Each access of a processor to the ticket lock: what it does to the line of those that wait.
use mpstu_bs.Prelude.{
  ℕ, ◌+◌, ◌^◌, ◌≤◌, ◌<◌, ◌≡◌, refl, sym, subst, fun_ext, ap, ◌∙◌, ◌≢◌, inl, inr, true, false, List,
  [], ◌∷◌, ◌++◌, arith, ◌==◌, length-append, has, Distinct-snoc, Below-snoc, length-le_of_Below,
  ne_of_has, Bool-cases,
}
use mpstu_bs.Machine.Ticketlock.{
  Lock, u32, Pc, outside, waiting, inside, leaving, Move, take, wait, enter, load, store, System,
  update, Step, pick,
}
use mpstu_bs.Machine.Ticketlock.Fifo.{
  Served, Waits, Line, Inv, Waits-frame, Waits-snoc, Waits-ne, mem_of_busy, busy_of_mem,
  first_of_critical,
}

-- A processor joins the line at its end, nothing changes, or the first leaves.
pub data Evolves (q : List ℕ) : List ℕ → Type 0 where
  joins : (i : ℕ) → Evolves q (q ++ i ∷ [])
  stays : Evolves q q
  leaves : {i : ℕ} {rest : List ℕ} → q ≡ i ∷ rest → Evolves q rest

has-snoc_self :
    (q : List ℕ) (i j : ℕ) → has j (q ++ i ∷ []) ≡ false → (has j q ≡ false) × ((i == j) ≡ false)
has-snoc_self [] i j h = ground arith
has-snoc_self (k ∷ q) i j h = let (a, b) = has-snoc_self q i j (ground arith) in (ground arith, b)

pub waiting-ne-outside : (u : ℕ) → waiting u ≢ outside
waiting-ne-outside u e = cc

inside-ne-outside : inside ≢ outside
inside-ne-outside e = cc

inside-ne-waiting : (u : ℕ) → inside ≢ waiting u
inside-ne-waiting u e = cc

leaving-ne-outside : (v : ℕ) → leaving v ≢ outside
leaving-ne-outside v e = cc

leaving-ne-waiting : (v u : ℕ) → leaving v ≢ waiting u
leaving-ne-waiting v u e = cc

update_same : (f : ℕ → Pc) (i : ℕ) (p : Pc) → f i ≡ p → update f i p ≡ f
update_same f i p e = fun_ext (λ j. ground arith)

module _ {n : ℕ} {s : System} (few : n ≤ 2 ^ 32) (i : ℕ) (lt : i < n) where
  Line-take :
      (q : List ℕ)
      → Inv n s q
      → has i q ≡ false
      → Line (update s.pc i (waiting s.lock.ticketnumber)) s.lock.turn (q ++ i ∷ [])
  Line-take [] inv out = ground (arith, inv.next, inv.small)
  Line-take (j ∷ q) inv out =
      let f = update s.pc i (waiting s.lock.ticketnumber) in
      let apart : (i == j) ≡ false = ground arith in
      (
        rw apart inv.line.0,
        Waits-snoc f (u32 (s.lock.turn + 1)) q i
            (Waits-frame s.pc f _ q inv.line.1 (λ k h. ground (arith, ne_of_has i k q)))
            (ground (arith, inv.next, inv.small)) (omega arith),
      )

  out_of_outside : (q : List ℕ) → Inv n s q → s.pc i ≡ outside → has i q ≡ false
  out_of_outside q inv e = elim (Bool-cases (has i q)) [
    | inl h ↦ absurd (busy_of_mem s.pc s.lock.turn q i inv.line h e)
    | inr h ↦ h
  ]

  take-Inv :
      (q : List ℕ)
      → Inv n s q
      → s.pc i ≡ outside
      → Inv n
          (record {
            lock = record s.lock { ticketnumber = u32 (s.lock.ticketnumber + 1) };
            pc = update s.pc i (waiting s.lock.ticketnumber);
          })
          (q ++ i ∷ [])
  take-Inv q inv e =
      let out : has i q ≡ false = out_of_outside q inv e in
      record {
        line = Line-take q inv out;
        next = omega (arith, inv.next, length-append q (i ∷ []));
        small = inv.small;
        distinct = Distinct-snoc q i inv.distinct out;
        below = Below-snoc n q i inv.below lt;
        others = λ j h. let (a, b) = has-snoc_self q i j h in rw b (inv.others j a);
      }

  -- A change of one processor that keeps the line and the lock.
  move-Inv :
      (q : List ℕ) (p : Pc)
      → Inv n s q
      → Line (update s.pc i p) s.lock.turn q
      → has i q ≡ true
      → Inv n (record { lock = s.lock; pc = update s.pc i p }) q
  move-Inv q p inv line mem = record {
    line = line;
    next = inv.next;
    small = inv.small;
    distinct = inv.distinct;
    below = inv.below;
    others = λ j h. ground (arith, ne_of_has j i q h mem, inv.others j h);
  }

  Line-first :
      (rest : List ℕ) (p : Pc)
      → Inv n s (i ∷ rest)
      → Served p s.lock.turn
      → Line (update s.pc i p) s.lock.turn (i ∷ rest)
  Line-first rest p inv served =
      let self : (i == i) ≡ true = ground arith in
      (
        rw self served,
        Waits-frame s.pc _ _ rest inv.line.1 (λ k h. rw (ne_of_has i k rest inv.distinct.0 h)),
      )

  -- The processor whose ticket is served stands first.
  first_of_turn :
      (q : List ℕ) (t : ℕ)
      → Inv n s q
      → s.pc i ≡ waiting t
      → s.lock.turn ≡ t
      → (rest : List ℕ) × (q ≡ i ∷ rest)
  first_of_turn [] t inv e turn = absurd (waiting-ne-outside t (sym e ∙ inv.others i refl))
  first_of_turn (j ∷ q) t inv e turn = elim (Bool-cases (i == j)) [
    | inl here ↦ let same : i ≡ j = ground arith in (q, ap (λ k. k ∷ q) (sym same))
    | inr there ↦
        let busy = λ (o : s.pc i ≡ outside). waiting-ne-outside t (sym e ∙ o) in
        let all : has i (j ∷ q) ≡ true = mem_of_busy (j ∷ q) i inv busy in
        let mem : has i q ≡ true = ground arith in
        let room = length-le_of_Below n (j ∷ q) inv.distinct inv.below in
        absurd (
          Waits-ne s.pc s.lock.turn 1 _ q i t inv.line.1 refl inv.small (omega arith) (omega arith)
            mem e (sym turn))
  ]

  store-Inv :
      (rest : List ℕ) (v : ℕ)
      → Inv n s (i ∷ rest)
      → s.pc i ≡ leaving v
      → Inv n
          (record { lock = record s.lock { turn = u32 (v + 1) }; pc = update s.pc i outside })
          rest
  store-Inv rest v inv e =
      let turn : v ≡ s.lock.turn = subst (λ p. Served p s.lock.turn) e inv.line.0 in
      record {
        line = rw turn (
            Line_of_Waits _ _ rest (
              Waits-frame s.pc _ _ rest inv.line.1
                (λ k h. ground (arith, ne_of_has i k rest inv.distinct.0 h))));
        next = omega (arith, inv.next);
        small = omega arith;
        distinct = inv.distinct.1;
        below = inv.below.1;
        others = λ j h. ground (arith, inv.others j);
      }
    where
      Line_of_Waits : (f : ℕ → Pc) (t : ℕ) (q : List ℕ) → Waits f t q → Line f t q
      Line_of_Waits f t [] w = tt
      Line_of_Waits f t (j ∷ q) w = (rw w.0 refl, w.1)

  -- A change of the first that keeps the lock.
  first-Inv :
      (q : List ℕ) (p : Pc)
      → Inv n s q
      → (rest : List ℕ) × (q ≡ i ∷ rest)
      → Served p s.lock.turn
      → (q' : List ℕ) × Evolves q q' × Inv n (record { lock = s.lock; pc = update s.pc i p }) q'
  first-Inv q p inv (rest, eq) served =
      let line = Line-first rest p (subst (Inv n s) eq inv) served in
      let mem : has i (i ∷ rest) ≡ true = ground arith in
      (
        q,
        stays,
        move-Inv q p inv (subst (Line (update s.pc i p) s.lock.turn) (sym eq) line)
            (subst (λ l. has i l ≡ true) (sym eq) mem),
      )

  last-Inv :
      (q : List ℕ) (v : ℕ)
      → Inv n s q
      → s.pc i ≡ leaving v
      → (rest : List ℕ) × (q ≡ i ∷ rest)
      → (q' : List ℕ) × Evolves q q'
        × Inv n
            (record { lock = record s.lock { turn = u32 (v + 1) }; pc = update s.pc i outside })
            q'
  last-Inv q v inv e (rest, eq) = (rest, leaves eq, store-Inv rest v (subst (Inv n s) eq inv) e)

  -- One access of one processor.
  Move-Inv :
      (q : List ℕ) {p p' : Pc} {l : Lock}
      → Inv n s q
      → s.pc i ≡ p
      → Move s.lock p l p'
      → (q' : List ℕ) × Evolves q q' × Inv n (record { lock = l; pc = update s.pc i p' }) q'
  Move-Inv q inv e take = (q ++ i ∷ [], joins i, take-Inv q inv e)
  Move-Inv q inv e (wait {t} ne) = (q, stays, rw (update_same s.pc i (waiting t) e) inv)
  Move-Inv q inv e (enter {t} turn) = first-Inv q inside inv (first_of_turn q t inv e turn) tt
  Move-Inv q inv e load =
      first-Inv q (leaving s.lock.turn) inv
        (first_of_critical q i inv (λ o. inside-ne-outside (sym e ∙ o))
          (λ u w. inside-ne-waiting u (sym e ∙ w)))
        refl
  Move-Inv q inv e (store {v}) = last-Inv q v inv e (
      first_of_critical q i inv (λ o. leaving-ne-outside v (sym e ∙ o))
        (λ u w. leaving-ne-waiting v u (sym e ∙ w)))

-- With at most `2 ^ 32` processors, every access of every processor keeps the line: one joins at the end, nobody moves, or the first
-- leaves.
pub Step-Inv :
    {n : ℕ} {s t : System} (q : List ℕ)
    → n ≤ 2 ^ 32
    → Inv n s q
    → Step n s t
    → (q' : List ℕ) × Evolves q q' × Inv n t q'
Step-Inv q few inv (pick i lt mv) = Move-Inv few i lt q inv refl mv
