-- ===== src/Syscall/Leaving.antt =====
-- guard/guard.cc with thread/assassin.cc and device/watch.cc: how the loop of Guard::leave ends when
-- its epilogues call the scheduler.
use mpstu_bs.Prelude.{
  ℕ, zero, suc, ◌<◌, ◌≡◌, ◌≢◌, refl, sym, ap, subst, ◌∙◌, inl, inr, Bool, true, false, some, List,
  [], ◌∷◌, ◌++◌, ◌==◌, ◌||◌, length, ==_refl, arith, Bool-cases,
}
use mpstu_bs.Object.Queue.{Ptr, null, dequeue}
use mpstu_bs.Object.Queue.Chain.{IsQueue}
use mpstu_bs.Guard as Guard
use mpstu_bs.Guard.{relay_all, first, later, set_dequeued, leave}
use mpstu_bs.Guard.Leave.{after, leave-item}
use mpstu_bs.Thread.Dispatcher.{State, set_irq, Outcome, returned, switched, started, died, no_fuel}
use mpstu_bs.Thread.Scheduler.{jobs, resume}
use mpstu_bs.Thread.Scheduler as Scheduler
use mpstu_bs.Thread.Scheduler.Pick.{Runs, living_from, offered, resume-Runs}
use mpstu_bs.Thread.Scheduler.Inv.{IsValid, snoc-alive, living_from-alive, resume-Moved}
use mpstu_bs.Syscall.{Ended, back, handed, stopped, unfinished, epilogue_of, behind, leave_all}
use mpstu_bs.Syscall.Handover.{relay_all-same}

-- The threads `xs` are ready, these are to die, and these run on the cores.
pub record Steady (xs : List Ptr) (flags : Ptr → Bool) (lives : ℕ → Ptr) (t : State) : Type 0 where
  pub valid : IsValid t xs
  pub flagged : t.kill_flag ≡ flags
  pub running : t.life ≡ lives

-- The core runs `next`, which is not to die.
pub record Landed (cpu : ℕ) (flags : Ptr → Bool) (next : Ptr) (t : State) : Type 0 where
  pub ready : List Ptr
  pub valid : IsValid t ready
  pub flagged : t.kill_flag ≡ flags
  pub runs : t.life cpu ≡ next
  pub living : flags next ≡ false

-- No thread is ready, and the one that the core ran is to die.
abbrev pub Deserted : ℕ → (Ptr → Bool) → (ℕ → Ptr) → State → Type 0
Deserted cpu flags lives t = IsQueue t.heap jobs [] × (flags (lives cpu) ≡ true)

-- The gate is one of the two whose epilogues call the scheduler.
abbrev pub calls : Ptr → Ptr → Ptr → Bool
calls watch assassin item = (item == watch) || (item == assassin)

-- The epilogue that was called last is the one of such a gate.
abbrev pub Interrupted : Ptr → Ptr → Guard.State → Type 0
Interrupted watch assassin g =
    (item : Ptr) × (earlier : List Ptr) × (g.ran ≡ item ∷ earlier)
    × (calls watch assassin item ≡ true)

living_from-head :
    (dead : Ptr → Bool) (ys : List Ptr) {z : Ptr} {zs : List Ptr}
    → living_from dead ys ≡ z ∷ zs
    → dead z ≡ false
unfolding living_from
living_from-head dead [] e = absurd (ground arith)
living_from-head dead (y ∷ ys) {z} {zs} e = elim (Bool-cases (dead y)) [
  | inl d ↦ living_from-head dead ys (rw d at e)
  | inr d ↦ ground (arith, rw d at e)
]

snoc-ne : (ys : List Ptr) (y : Ptr) → ys ++ y ∷ [] ≢ []
snoc-ne [] y e = ground arith
snoc-ne (z ∷ zs) y e = ground arith

module _ (cpu : ℕ) (at : cpu < 4) (xs : List Ptr) (flags : Ptr → Bool) (lives : ℕ → Ptr)
    (live : lives cpu ≢ null) (turns : ℕ) (enough : suc (length xs) < turns) where
  -- How an epilogue ends.
  abbrev pub Turned : Outcome → Type 0
  Turned (returned t) = Steady xs flags lives t
  Turned (switched old next t) = Landed cpu flags next t
  Turned (started next t) = ⊥
  Turned (died t) = Deserted cpu flags lives t
  Turned no_fuel = ⊥

  module _ (t : State) (s : Steady xs flags lives t) where
    runs_now : t.life cpu ≡ lives cpu
    runs_now = ap (λ f. f cpu) s.running

    live_now : t.life cpu ≢ null
    live_now e = live (sym runs_now ∙ e)

    offers :
        living_from t.kill_flag (offered t.kill_flag (t.life cpu) xs) ≡ []
        → t.kill_flag (t.life cpu) ≡ true
    offers e = elim (Bool-cases (t.kill_flag (t.life cpu))) [
      | inl d ↦ d
      | inr d ↦
          let alive = snoc-alive t.kill_flag xs (t.life cpu) s.valid.alive d in
          let some_thread =
            rw (d, living_from-alive t.kill_flag (xs ++ t.life cpu ∷ []) alive) at e in
          absurd (snoc-ne xs (t.life cpu) some_thread)
    ]

    from_Runs :
        (zs : List Ptr) (o : Outcome)
        → living_from t.kill_flag (offered t.kill_flag (t.life cpu) xs) ≡ zs
        → Runs cpu t zs o
        → Turned o
    from_Runs [] o e (t', is, q) =
        let d : flags (lives cpu) ≡ true =
          ap (λ f. f (lives cpu)) (sym s.flagged) ∙ ap t.kill_flag (sym runs_now) ∙ offers e in
        subst Turned (sym is) (q, d)
    from_Runs (z ∷ zs) o e (t', is, q, l, f) =
        let m =
          resume-Moved cpu t t' xs z s.valid at live_now
            record { ys = zs; order = e; queue = q; lives = l; flags = f } in
        subst Turned (sym is) record {
          ready = m.left;
          valid = m.valid;
          flagged = f ∙ s.flagged;
          runs = l cpu ∙ rw (==_refl cpu) refl;
          living =
              ap (λ g. g z) (sym s.flagged)
              ∙ living_from-head t.kill_flag (offered t.kill_flag (t.life cpu) xs) e;
        }

    resume-Turned : Turned (resume turns cpu t)
    resume-Turned =
        from_Runs _ _ refl
          (resume-Runs turns cpu t xs s.valid.queue live_now (s.valid.apart cpu at live_now) enough)

  -- The interrupts of the core are no part of what an epilogue is judged by.
  Steady-set_irq :
      (on : Bool) (t : State) → Steady xs flags lives t → Steady xs flags lives (set_irq cpu on t)
  Steady-set_irq on t s = record {
    valid = record {
      queue = s.valid.queue;
      alive = s.valid.alive;
      apart = s.valid.apart;
      once = s.valid.once;
    };
    flagged = s.flagged;
    running = s.running;
  }

  epilogue-Turned : (t : State) → Steady xs flags lives t → Turned (Scheduler.epilogue turns cpu t)
  unfolding mpstu_bs.Thread.Scheduler.epilogue mpstu_bs.Thread.Dispatcher.active
      mpstu_bs.Thread.Dispatcher.dying
  epilogue-Turned t s = elim (Bool-cases (t.kill_flag (t.life cpu))) [
    | inl d ↦ rw d (resume-Turned (set_irq cpu false t) (Steady-set_irq false t s))
    | inr d ↦ rw d (Steady-set_irq false t s)
  ]

  pub epilogue_of-Turned :
      (watch assassin item : Ptr) (t : State)
      → Steady xs flags lives t
      → Turned (epilogue_of watch assassin turns cpu item t)
  epilogue_of-Turned watch assassin item t s = elim (Bool-cases (item == watch)) [
    | inl w ↦ rw w (resume-Turned t s)
    | inr w ↦ rw w (elim (Bool-cases (item == assassin)) [
      | inl a ↦ rw a (epilogue-Turned t s)
      | inr a ↦ rw a s
    ])
  ]

  module _ (prologue : Ptr → Bool) (watch assassin : Ptr) where
    -- Only such a gate does not return.
    abbrev pub Called : Ptr → Outcome → Type 0
    Called item (returned t) = Unit
    Called item (switched old next t) = calls watch assassin item ≡ true
    Called item (started next t) = calls watch assassin item ≡ true
    Called item (died t) = calls watch assassin item ≡ true
    Called item no_fuel = calls watch assassin item ≡ true

    Called-any : (item : Ptr) (o : Outcome) → calls watch assassin item ≡ true → Called item o
    Called-any item (returned t) h = tt
    Called-any item (switched old next t) h = h
    Called-any item (started next t) h = h
    Called-any item (died t) h = h
    Called-any item no_fuel h = h

    pub epilogue_of-Called :
        (item : Ptr) (t : State) → Called item (epilogue_of watch assassin turns cpu item t)
    epilogue_of-Called item t = elim (Bool-cases (calls watch assassin item)) [
      | inl h ↦ Called-any item _ h
      | inr h ↦
          let w : (item == watch) ≡ false = ground arith in
          let a : (item == assassin) ≡ false = ground arith in rw (w, a) tt
    ]

    -- How the loop ends, when without the threads it would end in the guard `g'`.
    abbrev pub Follows : Guard.State → Ended → Type 0
    Follows g' (back k) = (k.guard ≡ g') × Steady xs flags lives k.threads
    Follows g' (handed old next k) =
        Landed cpu flags next k.threads
        × (k.guard.s_lock ≡ some cpu)
        × Interrupted watch assassin k.guard
    Follows g' (stopped k) =
        Deserted cpu flags lives k.threads
        × (k.guard.s_lock ≡ some cpu)
        × Interrupted watch assassin k.guard
    Follows g' unfinished = ⊥

    pub behind-Follows :
        (g' g : Guard.State) (rest : State → Ended) (item : Ptr) (earlier : List Ptr) (o : Outcome)
        → g.s_lock ≡ some cpu
        → g.ran ≡ item ∷ earlier
        → ((t : State) → Steady xs flags lives t → Follows g' (rest t))
        → Turned o
        → Called item o
        → Follows g' (behind rest g o)
    behind-Follows g' g rest item earlier (returned t) held ran go s c = go t s
    behind-Follows g' g rest item earlier (switched old next t) held ran go l c =
        (l, held, (item, earlier, ran, c))
    behind-Follows g' g rest item earlier (started next t) held ran go l c = absurd l
    behind-Follows g' g rest item earlier (died t) held ran go d c =
        (d, held, (item, earlier, ran, c))
    behind-Follows g' g rest item earlier no_fuel held ran go l c = absurd l

    leave-round :
        (k : ℕ) (arrivals : List (List Ptr)) (g : Guard.State)
        → ((dequeue cpu g.heap).0 == null) ≡ false
        → leave prologue (suc k) arrivals cpu g
          ≡ leave prologue k (later arrivals) cpu (
              relay_all prologue cpu
                (first arrivals)
                (after prologue cpu at (dequeue cpu g.heap).0 g))
    unfolding relay_all
    leave-round k [] g h = leave-item prologue cpu at k [] g h
    leave-round k (now ∷ rounds) g h = leave-item prologue cpu at k (now ∷ rounds) g h

    -- Where `leave` without the threads returns, the loop with them returns in the same guard, or
    -- an epilogue switches or stops the core, which holds the lock then.
    pub leave_all-Follows :
        (k : ℕ) (arrivals : List (List Ptr)) (g g' : Guard.State) (t : State)
        → leave prologue k arrivals cpu g ≡ some g'
        → g.s_lock ≡ some cpu
        → Steady xs flags lives t
        → Follows g' (leave_all prologue watch assassin turns cpu k arrivals g t)
    unfolding leave_all leave set_dequeued
    leave_all-Follows zero arrivals g g' t e held s = absurd (ground arith)
    leave_all-Follows (suc k) arrivals g g' t e held s =
        let item = (dequeue cpu g.heap).0 in
        elim (Bool-cases (item == null)) [
          | inl last ↦ rw last (ground (arith, rw last at e), s)
          | inr more ↦
              let g3 = after prologue cpu at item g in
              let g4 = relay_all prologue cpu (first arrivals) g3 in
              let next = sym (leave-round k arrivals g more) ∙ e in
              let (lock, ran) = relay_all-same prologue cpu (first arrivals) g3 in
              rw more (
                behind-Follows g' g4 _ item g.ran _ (lock ∙ held) ran
                  (λ t' s'. leave_all-Follows k (later arrivals) g4 g' t' next (lock ∙ held) s')
                  (epilogue_of-Turned watch assassin item t s) (epilogue_of-Called item t))
        ]
