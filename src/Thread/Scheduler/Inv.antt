-- ===== src/Thread/Scheduler/Inv.antt =====
-- The scheduler's invariant, and what the calls of a core keep of it.
use mpstu_bs.Prelude.{
  ℕ, ◌<◌, ◌≡◌, refl, sym, ap, subst, ◌∙◌, ◌≢◌, inl, inr, ◌⊎◌, Bool, true, false, List, [], ◌∷◌,
  ◌++◌, ◌==◌, if◌then◌else◌, has, has-snoc, Distinct, Distinct-snoc, arith, Bool-cases,
}
use mpstu_bs.Object.Queue.{Ptr, null}
use mpstu_bs.Object.Queue.Chain.{IsQueue}
use mpstu_bs.Object.Queue.Enqueue.{enqueue-IsQueue}
use mpstu_bs.Thread.Dispatcher.{State, Outcome, died, switched, started, returned, no_fuel}
use mpstu_bs.Thread.Scheduler.{jobs, ready}
use mpstu_bs.Thread.Scheduler.Pick.{living_from, offered, Runs, RunsBy}

-- The ready queue holds the threads `xs`, none of which is to die; a thread that a core runs is
-- not among them, and runs on no other core.
pub record IsValid (s : State) (xs : List Ptr) : Type 0 where
  pub queue : IsQueue s.heap jobs xs
  pub alive : (a : Ptr) → has a xs ≡ true → s.kill_flag a ≡ false
  pub apart : (c : ℕ) → c < 4 → s.life c ≢ null → has (s.life c) xs ≡ false
  pub once : (c d : ℕ) → c < 4 → d < 4 → s.life c ≢ null → s.life c ≡ s.life d → c ≡ d

-- What a call that lets the core `cpu` run `y` keeps.
pub switch-IsValid :
    (cpu : ℕ) (s s' : State) (xs ys : List Ptr) (y : Ptr)
    → IsValid s xs
    → IsQueue s'.heap jobs ys
    → ((c : ℕ) → s'.life c ≡ (if cpu == c then y else s.life c))
    → s'.kill_flag ≡ s.kill_flag
    → ((a : Ptr) → has a ys ≡ true → s.kill_flag a ≡ false)
    → ((c : ℕ) → c < 4 → (cpu == c) ≡ false → s.life c ≢ null → has (s.life c) (y ∷ ys) ≡ false)
    → Distinct (y ∷ ys)
    → IsValid s' ys
switch-IsValid cpu s s' xs ys y v is lives flags alive apart distinct = record {
  queue = is;
  alive = λ a i. ap (λ f. f a) flags ∙ alive a i;
  apart = λ c l n. elim (Bool-cases (cpu == c)) [
    | inl e ↦ rw (lives c, e) distinct.0
    | inr e ↦ rw (lives c, e) (ground (arith, apart c l e, lives c))
  ];
  once = λ c d lc ld n e. elim (Bool-cases (cpu == c)) [
    | inl at_c ↦ elim (Bool-cases (cpu == d)) [
      | inl at_d ↦ ground arith
      | inr off_d ↦ ground (arith, lives c, lives d, apart d ld off_d)
    ]
    | inr off_c ↦ elim (Bool-cases (cpu == d)) [
      | inl at_d ↦ ground (arith, lives c, lives d, apart c lc off_c)
      | inr off_d ↦ ground (arith, lives c, lives d, v.once c d lc ld)
    ]
  ];
}

pub snoc-alive :
    (dead : Ptr → Bool) (xs : List Ptr) (b : Ptr)
    → ((a : Ptr) → has a xs ≡ true → dead a ≡ false)
    → dead b ≡ false
    → (a : Ptr) → has a (xs ++ b ∷ []) ≡ true
    → dead a ≡ false
snoc-alive dead xs b live fresh a i = elim (Bool-cases (b == a)) [
  | inl e ↦ ground arith
  | inr e ↦ live a (ground (arith, Bool-cases (has a xs), has-snoc a xs b))
]

-- A thread that is not yet known to the scheduler becomes the last of the ready queue.
pub ready-IsValid :
    (s : State) (xs : List Ptr) (that : Ptr)
    → IsValid s xs
    → that ≢ null
    → s.kill_flag that ≡ false
    → has that xs ≡ false
    → ((c : ℕ) → c < 4 → s.life c ≢ that)
    → IsValid (ready that s) (xs ++ that ∷ [])
unfolding ready
ready-IsValid s xs that v live fresh out idle = record {
  queue = enqueue-IsQueue s.heap jobs xs that v.queue live out;
  alive = snoc-alive s.kill_flag xs that v.alive fresh;
  apart = λ c l n. has-snoc (s.life c) xs that (v.apart c l n) (ground (arith, idle c l));
  once = v.once;
}

pub living_from-alive :
    (dead : Ptr → Bool) (xs : List Ptr)
    → ((b : Ptr) → has b xs ≡ true → dead b ≡ false)
    → living_from dead xs ≡ xs
unfolding living_from
living_from-alive dead [] live = refl
living_from-alive dead (x ∷ xs) live = rw (live x (ground arith)) refl

-- What `Runs` says of a call that switches.
pub record Switched (cpu : ℕ) (s : State) (zs : List Ptr) (y : Ptr) (s' : State) : Type 0 where
  pub ys : List Ptr
  pub order : zs ≡ y ∷ ys
  pub queue : IsQueue s'.heap jobs ys
  pub lives : (c : ℕ) → s'.life c ≡ (if cpu == c then y else s.life c)
  pub flags : s'.kill_flag ≡ s.kill_flag

abbrev Landed : ℕ → State → List Ptr → Outcome → Type 0
Landed cpu s zs (switched old y s') = Switched cpu s zs y s'
Landed cpu s zs (died s') = Unit
Landed cpu s zs (started y s') = Switched cpu s zs y s'
Landed cpu s zs (returned s') = Unit
Landed cpu s zs no_fuel = Unit

pub Runs-switched :
    (cpu : ℕ) (s s' : State) (zs : List Ptr) (old y : Ptr) {o : Outcome}
    → Runs cpu s zs o
    → o ≡ switched old y s'
    → Switched cpu s zs y s'
Runs-switched cpu s s' [] old y (s1, e, q) sw = subst (Landed cpu s []) (sym e ∙ sw) tt
Runs-switched cpu s s' (z ∷ zs) old y (s1, e, q, l, f) sw =
    subst (Landed cpu s (z ∷ zs)) (sym e ∙ sw)
      record { ys = zs; order = refl; queue = q; lives = l; flags = f }

pub Runs-started :
    (cpu : ℕ) (s s' : State) (zs : List Ptr) (y : Ptr) {o : Outcome}
    → RunsBy started cpu s zs o
    → o ≡ started y s'
    → Switched cpu s zs y s'
Runs-started cpu s s' [] y (s1, e, q) sw = subst (Landed cpu s []) (sym e ∙ sw) tt
Runs-started cpu s s' (z ∷ zs) y (s1, e, q, l, f) sw =
    subst (Landed cpu s (z ∷ zs)) (sym e ∙ sw)
      record { ys = zs; order = refl; queue = q; lives = l; flags = f }

-- What a call did that changed the thread of the core `cpu`.
pub record Moved (cpu : ℕ) (s s' : State) : Type 0 where
  pub now : Ptr
  pub left : List Ptr
  pub valid : IsValid s' left
  pub lives : (c : ℕ) → s'.life c ≡ (if cpu == c then now else s.life c)
  pub flags : s'.kill_flag ≡ s.kill_flag
  pub living : (now ≡ null) ⊎ (s.kill_flag now ≡ false)

module _ (cpu : ℕ) (s s' : State) (xs : List Ptr) (y : Ptr) (v : IsValid s xs) where
  Switched-Moved :
      (zs : List Ptr)
      → Switched cpu s zs y s'
      → ((a : Ptr) → has a zs ≡ true → s.kill_flag a ≡ false)
      → ((c : ℕ) → c < 4 → (cpu == c) ≡ false → s.life c ≢ null → has (s.life c) zs ≡ false)
      → Distinct zs
      → Moved cpu s s'
  Switched-Moved zs w alive apart distinct = record {
    now = y;
    left = w.ys;
    valid =
        switch-IsValid cpu s s' xs w.ys y v w.queue w.lives w.flags
          (λ a i. alive a (rw w.order (ground arith)))
          (λ c l off n. subst (λ us. has (s.life c) us ≡ false) w.order (apart c l off n))
          (subst Distinct w.order distinct);
    lives = w.lives;
    flags = w.flags;
    living = inr (alive y (rw w.order (ground arith)));
  }

  -- What a start by `schedule` keeps.
  pub schedule-Moved : Switched cpu s xs y s' → Moved cpu s s'
  schedule-Moved w = Switched-Moved xs w v.alive (λ c l off n. v.apart c l n) v.queue.distinct

  -- What a switch by `resume` keeps.
  pub resume-Moved :
      cpu < 4
      → s.life cpu ≢ null
      → Switched cpu s (living_from s.kill_flag (offered s.kill_flag (s.life cpu) xs)) y s'
      → Moved cpu s s'
  resume-Moved at live = elim (Bool-cases (s.kill_flag (s.life cpu))) [
    | inl d ↦ rw (d, living_from-alive s.kill_flag xs v.alive) schedule-Moved
    | inr d ↦
        let zs = xs ++ s.life cpu ∷ [] in
        let alive = snoc-alive s.kill_flag xs (s.life cpu) v.alive d in
        rw (d, living_from-alive s.kill_flag zs alive)
          (λ w.
            Switched-Moved zs w alive
              (λ c l off n.
                has-snoc (s.life c) xs (s.life cpu) (v.apart c l n)
                  (ground (arith, v.once c cpu l at n)))
              (Distinct-snoc xs (s.life cpu) v.queue.distinct (v.apart cpu at live)))
  ]
