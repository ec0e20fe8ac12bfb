-- ===== src/Thread/Scheduler/Kill.antt =====
-- Scheduler::kill: the thread leaves the ready queue, or its core is interrupted.
use mpstu_bs.Prelude.{
  ℕ, zero, suc, ◌+◌, ◌<◌, ◌≤◌, ◌≡◌, refl, ap, ◌∙◌, ◌≢◌, inl, inr, Bool, true, false, not, ◌&&◌,
  List, [], ◌∷◌, ◌==◌, if◌then◌else◌, length, ltb, has, Distinct, arith, Bool-cases,
}
use mpstu_bs.Object.Queue.{Ptr, null}
use mpstu_bs.Object.Queue.Chain.{IsQueue}
use mpstu_bs.Object.Queue.Remove.{find, erase, remove-IsQueue}
use mpstu_bs.Thread.Dispatcher.{State, returned, set_kill_flag}
use mpstu_bs.Thread.Scheduler.{jobs, assassin_vector, core_mask, find_core, kill}
use mpstu_bs.Thread.Scheduler.Inv.{IsValid}

-- The comparison that `remove` uses when it is given none.
abbrev pub same : Ptr → Ptr → Bool
same a b = a == b

find-has : (t : Ptr) (xs : List Ptr) → find same t xs ≡ (if has t xs then t else null)
unfolding find
find-has t [] = refl
find-has t (x ∷ xs) = ground (arith, find-has t xs)

pub erase-has :
    (t a : Ptr) (xs : List Ptr) → Distinct xs → has a (erase same t xs) ≡ (has a xs && not (t == a))
unfolding erase
erase-has t a [] d = refl
erase-has t a (x ∷ xs) d = elim (Bool-cases (t == x)) [
  | inl e ↦
      rw e
        (elim (Bool-cases (a == x)) [ inl k ↦ ground (arith, d.0) | inr k ↦ ground (arith, d.0) ])
  | inr e ↦ rw e (rw (erase-has t a xs d.1) (ground arith))
]

-- From core `t` on, the loop stops at the first core that runs the thread.
find_core-first :
    (k t c : ℕ) (that : Ptr) (running : ℕ → Ptr)
    → t ≤ c
    → c < t + k
    → that ≡ running c
    → ((d : ℕ) → t ≤ d → d < c → that ≢ running d)
    → find_core k t that running ≡ c
unfolding find_core
find_core-first zero t c that running l u e before = absurd (omega arith)
find_core-first (suc k) t c that running l u e before = elim (Bool-cases (that == running t)) [
  | inl hit ↦ rw hit (elim (Bool-cases (ltb t c)) [
    | inl k ↦ absurd (before t (omega arith) (ground arith) (ground arith))
    | inr k ↦ ground arith
  ])
  | inr miss ↦ rw miss (
      find_core-first k (suc t) c that running (ground arith) (omega arith) e
        (λ d a b. before d (omega arith) b))
]

find_core-none :
    (k t : ℕ) (that : Ptr) (running : ℕ → Ptr)
    → ((d : ℕ) → t ≤ d → d < t + k → that ≢ running d)
    → find_core k t that running ≡ t + k
unfolding find_core
find_core-none zero t that running none = omega arith
find_core-none (suc k) t that running none =
    rw (find_core-none k (suc t) that running (λ d a b. none d (omega arith) (omega arith)))
      (ground (arith, none t))

module _ (s : State) (xs : List Ptr) (v : IsValid s xs) where
  -- With at most four cores online, the loop of `kill` finds the core that runs the thread.
  pub find_core-running :
      (limit c : ℕ)
      → limit ≤ 4
      → c < limit
      → s.life c ≢ null
      → find_core limit 0 (s.life c) s.life ≡ c
  find_core-running limit c four l live =
      find_core-first limit 0 c (s.life c) s.life (omega arith) (omega arith) refl
        (λ d a b e. ground (arith, v.once c d (omega arith) (omega arith) live e))

  -- A thread that no core runs is looked for in vain, and the loop ends at the number of cores.
  pub find_core-missing :
      (limit : ℕ) (that : Ptr)
      → ((c : ℕ) → c < limit → that ≢ s.life c)
      → find_core limit 0 that s.life ≡ limit
  find_core-missing limit that none =
      find_core-none limit 0 that s.life (λ d a b. none d (omega arith)) ∙ omega arith

  killed-IsValid :
      (that : Ptr) (s' : State)
      → IsQueue s'.heap jobs (erase same that xs)
      → s'.kill_flag ≡ (λ u. if that == u then true else s.kill_flag u)
      → s'.life ≡ s.life
      → IsValid s' (erase same that xs)
  killed-IsValid that s' is flags lives =
      let stays = λ (a : Ptr). erase-has that a xs v.queue.distinct in
      record {
        queue = is;
        alive = λ a i. ap (λ f. f a) flags ∙ ground (arith, stays a, v.alive a);
        apart = λ c l n.
            let at : s'.life c ≡ s.life c = ap (λ f. f c) lives in
            let out : has (s'.life c) xs ≡ false =
              ap (λ p. has p xs) at ∙ v.apart c l (ground arith) in
            ground (arith, stays (s'.life c));
        once = rw lives v.once;
      }

  -- In a valid scheduler, with more fuel than threads are ready, `kill` returns and marks the thread. It takes a ready thread out of the ready queue, and otherwise sends
  -- one interrupt; no core changes its thread, and the scheduler stays valid.
  pub kill-IsValid :
      (k limit : ℕ) (that : Ptr)
      → that ≢ null
      → length xs < k
      → (s' : State) × (kill k limit that s ≡ returned s')
        × IsValid s' (erase same that xs)
        × (s'.kill_flag that ≡ true)
        × ((a : Ptr) → (that == a) ≡ false → s'.kill_flag a ≡ s.kill_flag a)
        × (s'.life ≡ s.life)
        × (s'.sent ≡ (
            if has that xs
            then s.sent
            else (core_mask (find_core limit 0 that s.life), assassin_vector) ∷ s.sent))
  unfolding kill set_kill_flag
  kill-IsValid k limit that live f =
      let (h', e, left) = remove-IsQueue same jobs that k s.heap xs v.queue f in
      elim (Bool-cases (has that xs)) [
        | inl i ↦
            let got : find same that xs ≡ that = find-has that xs ∙ rw i refl in
            let alive : (that == null) ≡ false = ground arith in
            rw (e, got, alive, i, kill)
              (
                _,
                refl,
                killed-IsValid that _ left refl refl,
                ground arith,
                (λ a n. rw n refl),
                refl,
                refl,
              )
        | inr i ↦
            let got : find same that xs ≡ null = find-has that xs ∙ rw i refl in
            rw (e, got, i, kill)
              (
                _,
                refl,
                killed-IsValid that _ left refl refl,
                ground arith,
                (λ a n. rw n refl),
                refl,
                refl,
              )
      ]
