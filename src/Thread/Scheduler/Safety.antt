-- ===== src/Thread/Scheduler/Safety.antt =====
-- The scheduler over any run of its calls, on up to four cores.
use mpstu_bs.Prelude.{
  ℕ, suc, ◌<◌, ◌≡◌, refl, sym, ap, subst, ◌∙◌, ◌≢◌, inl, inr, true, false, List, [], ◌∷◌, ◌++◌,
  ◌==◌, if◌then◌else◌, length, has, arith, Bool-cases,
}
use mpstu_bs.Object.Queue.{Ptr, null}
use mpstu_bs.Object.Queue.Chain.{IsQueue}
use mpstu_bs.Thread.Dispatcher.{
  State, set_irq, active, dying, Outcome, returned, switched, started, died, no_fuel,
}
use mpstu_bs.Thread.Scheduler.{jobs, ready, schedule, exit, resume, kill, epilogue}
use mpstu_bs.Thread.Scheduler.Pick.{
  Runs, living_from, offered, head_or_null, rest_of, resume-Runs, exit-Switches, schedule-Runs,
}
use mpstu_bs.Thread.Scheduler.Inv.{
  living_from-alive, IsValid, ready-IsValid, Moved, schedule-Moved, resume-Moved, Runs-switched,
  Runs-started, switch-IsValid,
}
use mpstu_bs.Thread.Scheduler.Kill.{same, kill-IsValid}

-- Fuel for every loop over the ready queue.
abbrev pub Enough : ℕ → State → Type 0
Enough k s = (xs : List Ptr) → IsQueue s.heap jobs xs → suc (length xs) < k

-- One call, by the core `cpu` or by any core, that comes back to some thread. `ready` is called
-- only with threads that are new, as main.cc does: with one that is marked to die, `exit` or
-- `schedule`, which do not test the mark, would run it. `limit` is the number of cores online.
pub data Step (limit : ℕ) : State → State → Type 0 where
  arrive :
      {s : State} (that : Ptr)
      → that ≢ null
      → s.kill_flag that ≡ false
      → ((xs : List Ptr) → IsQueue s.heap jobs xs → has that xs ≡ false)
      → ((c : ℕ) → c < 4 → s.life c ≢ that)
      → Step limit s (ready that s)
  begin :
      {s s' : State} (cpu : ℕ) (y : Ptr) → cpu < 4 → schedule cpu s ≡ started y s' → Step limit s s'
  give_up :
      {s s' : State} (k cpu : ℕ) (old y : Ptr)
      → cpu < 4
      → s.life cpu ≢ null
      → Enough k s
      → resume k cpu s ≡ switched old y s'
      → Step limit s s'
  leave :
      {s s' : State} (cpu : ℕ) (old y : Ptr)
      → cpu < 4
      → exit cpu s ≡ switched old y s'
      → Step limit s s'
  murder :
      {s s' : State} (k : ℕ) (that : Ptr)
      → that ≢ null
      → Enough k s
      → kill k limit that s ≡ returned s'
      → Step limit s s'

pub data Reach (limit : ℕ) : State → State → Type 0 where
  here : {s : State} → Reach limit s s
  step : {s s' s'' : State} → Reach limit s s' → Step limit s' s'' → Reach limit s s''

-- The thread is to die, and no core runs it.
abbrev pub Buried : Ptr → State → Type 0
Buried t s = (s.kill_flag t ≡ true) × ((c : ℕ) → c < 4 → s.life c ≢ t)

-- What a call keeps.
record Kept (s s' : State) : Type 0 where
  left : List Ptr
  valid : IsValid s' left
  buried : (t : Ptr) → t ≢ null → Buried t s → Buried t s'

Kept-Moved : (cpu : ℕ) (s s' : State) → Moved cpu s s' → Kept s s'
Kept-Moved cpu s s' m = record {
  left = m.left;
  valid = m.valid;
  buried = λ t live (dead, gone). (
    ap (λ f. f t) m.flags ∙ dead,
    λ c l e. elim (Bool-cases (cpu == c)) [
      | inl at ↦ ground (arith, m.lives c, m.living)
      | inr off ↦ ground (arith, m.lives c, gone c l)
    ],
  );
}

-- The state that a call comes back in.
abbrev state_of : State → Outcome → State
state_of s (returned s') = s'
state_of s (switched old y s') = s'
state_of s (started y s') = s'
state_of s (died s') = s'
state_of s no_fuel = s

exit-Moved :
    (cpu : ℕ) (s s' : State) (xs : List Ptr)
    → IsValid s xs
    → IsQueue s'.heap jobs (rest_of xs)
    → ((c : ℕ) → s'.life c ≡ (if cpu == c then head_or_null xs else s.life c))
    → s'.kill_flag ≡ s.kill_flag
    → Moved cpu s s'
exit-Moved cpu s s' [] v q l f = record {
  now = null;
  left = [];
  valid =
      switch-IsValid cpu s s' [] [] null v q l f (λ a i. v.alive a i) (λ c b off n. ground arith)
        (refl, tt);
  lives = l;
  flags = f;
  living = inl refl;
}
exit-Moved cpu s s' (y ∷ ys) v q l f =
    schedule-Moved cpu s s' (y ∷ ys) y v
      record { ys = ys; order = refl; queue = q; lives = l; flags = f }

Step-Kept : (limit : ℕ) (s s' : State) (xs : List Ptr) → IsValid s xs → Step limit s s' → Kept s s'
unfolding ready
Step-Kept limit s s' xs v (arrive that live fresh out idle) = record {
  left = xs ++ that ∷ [];
  valid = ready-IsValid s xs that v live fresh (out xs v.queue) idle;
  buried = λ t n b. b;
}
Step-Kept limit s s' xs v (begin cpu y at e) =
    Kept-Moved cpu s s' (
      schedule-Moved cpu s s' xs y v
        (Runs-started cpu s s' xs y (schedule-Runs cpu s xs v.queue) e))
Step-Kept limit s s' xs v (give_up k cpu old y at live enough e) = Kept-Moved cpu s s' (
    resume-Moved cpu s s' xs y v at live (
      Runs-switched cpu s s' _ old y
        (resume-Runs k cpu s xs v.queue live (v.apart cpu at live) (enough xs v.queue)) e))
Step-Kept limit s s' xs v (leave cpu old y at e) =
    let (s1, e1, q, l, f) = exit-Switches cpu s xs v.queue in
    subst (Kept s) (ap (state_of s) (sym e1 ∙ e))
      (Kept-Moved cpu s s1 (exit-Moved cpu s s1 xs v q l f))
Step-Kept limit s s' xs v (murder k that live enough e) =
    let (s1, e1, valid, dead, others, lives, sent) =
      kill-IsValid s xs v k limit that live (let n = enough xs v.queue in omega arith) in
    subst (Kept s) (ap (state_of s) (sym e1 ∙ e)) record {
      left = _;
      valid = valid;
      buried = λ t n b. (
        elim (Bool-cases (that == t)) [
          | inl same ↦ ground arith
          | inr other ↦ others t other ∙ b.0
        ],
        λ c l x. b.1 c l (sym (ap (λ f. f c) lives) ∙ x),
      );
    }

-- From a valid scheduler on, every run of these calls keeps it valid: among the ready threads none is
-- to die, none runs, and no thread runs on two cores. New threads only are made ready, as
-- in main.cc: `ready` is called only with a thread that is not null, not marked to
-- die, not in the ready queue and run by no core. `resume` is called on a core that runs a thread and
-- `kill` not with null; `schedule` and `exit` are called freely. Every loop has fuel for the queue.
pub Reach-IsValid :
    (limit : ℕ) (s s' : State) (xs : List Ptr)
    → IsValid s xs
    → Reach limit s s'
    → (ys : List Ptr) × IsValid s' ys
Reach-IsValid limit s s' xs v here = (xs, v)
Reach-IsValid limit s s' xs v (step r t) =
    let (ys, w) = Reach-IsValid limit s _ xs v r in
    let k = Step-Kept limit _ s' ys w t in (k.left, k.valid)

-- From a valid scheduler on, a killed thread that no core runs is run by none after any number of
-- these calls, where new threads only are made ready, so the killed one is not. They are as in
-- main.cc: `ready` is called only with a thread that is not null, not marked to
-- die, not in the ready queue and run by no core. `resume` is called on a core that runs a thread and
-- `kill` not with null; `schedule` and `exit` are called freely. Every loop has fuel for the queue.
pub Reach-Buried :
    (limit : ℕ) (s s' : State) (xs : List Ptr) (t : Ptr)
    → IsValid s xs
    → t ≢ null
    → Buried t s
    → Reach limit s s'
    → Buried t s'
Reach-Buried limit s s' xs t v live b here = b
Reach-Buried limit s s' xs t v live b (step r u) =
    let (ys, w) = Reach-IsValid limit s _ xs v r in
    (Step-Kept limit _ s' ys w u).buried t live (Reach-Buried limit s _ xs t v live b r)

epilogue-dying :
    (k cpu : ℕ) (s : State)
    → s.kill_flag (s.life cpu) ≡ true
    → epilogue k cpu s ≡ resume k cpu (set_irq cpu false s)
unfolding epilogue active dying
epilogue-dying k cpu s d = rw d refl

-- In a valid scheduler with a ready thread, the interrupt that `kill` sends makes the core leave its
-- killed thread for the first ready one, and no core runs the killed thread then.
pub epilogue-Buried :
    (k cpu : ℕ) (s : State) (y : Ptr) (ys : List Ptr)
    → cpu < 4
    → IsValid s (y ∷ ys)
    → s.life cpu ≢ null
    → s.kill_flag (s.life cpu) ≡ true
    → suc (length (y ∷ ys)) < k
    → (s' : State) × (epilogue k cpu s ≡ switched (s.life cpu) y s')
      × IsValid s' ys
      × Buried (s.life cpu) s'
epilogue-Buried k cpu s y ys at v live d f =
    let s1 = set_irq cpu false s in
    let r = resume-Runs k cpu s1 (y ∷ ys) v.queue live (v.apart cpu at live) f in
    let e : living_from s.kill_flag (offered s.kill_flag (s.life cpu) (y ∷ ys)) ≡ y ∷ ys =
      rw d (living_from-alive s.kill_flag (y ∷ ys) v.alive) in
    let (s', o, q, l, flags) = subst (λ zs. Runs cpu s1 zs (resume k cpu s1)) e r in
    (
      s',
      epilogue-dying k cpu s d ∙ o,
      switch-IsValid cpu s s' (y ∷ ys) ys y v q l flags (λ a i. v.alive a (ground arith))
          (λ c b off n. v.apart c b n) v.queue.distinct,
      (
        ap (λ g. g (s.life cpu)) flags ∙ d,
        λ c b x. elim (Bool-cases (cpu == c)) [
          | inl here_c ↦ ground (arith, l c, v.alive y)
          | inr off ↦ ground (arith, l c, v.once cpu c at b live)
        ],
      ),
    )
