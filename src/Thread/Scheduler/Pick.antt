-- ===== src/Thread/Scheduler/Pick.antt =====
-- Scheduler::resume: which thread it picks, and that it ends.
use mpstu_bs.Prelude.{
  ℕ, zero, suc, ◌<◌, ◌≡◌, refl, ◌≢◌, inl, inr, Bool, true, false, List, [], ◌∷◌, ◌++◌, ◌==◌,
  if◌then◌else◌, length, has, length-append, arith, Bool-cases,
}
use mpstu_bs.Object.Queue.{Ptr, null, Heap, enqueue, dequeue}
use mpstu_bs.Object.Queue.Chain.{IsQueue, has-ne_null}
use mpstu_bs.Object.Queue.Enqueue.{enqueue-IsQueue}
use mpstu_bs.Object.Queue.Dequeue.{dequeue-empty, dequeue-IsQueue}
use mpstu_bs.Thread.Dispatcher.{
  State, Outcome, died, started, switched, dying, active, dispatch, go, set_active,
}
use mpstu_bs.Thread.Scheduler.{jobs, Picked, picked, pick, resume_next, resume, exit, schedule}

-- The queue from its first living thread on.
unfoldable pub living_from : (Ptr → Bool) → List Ptr → List Ptr
living_from dead [] = []
living_from dead (x ∷ xs) = if dead x then living_from dead xs else x ∷ xs

abbrev pub head_or_null : List Ptr → Ptr
head_or_null [] = null
head_or_null (x ∷ xs) = x

abbrev pub rest_of : List Ptr → List Ptr
rest_of [] = []
rest_of (x ∷ xs) = xs

module _ (dead : Ptr → Bool) where
  -- The thread that the loop leaves, and the queue.
  abbrev pub Picks : Picked → List Ptr → Type 0
  Picks r ys = (h' : Heap) × (r ≡ picked (head_or_null ys) h') × IsQueue h' jobs (rest_of ys)

  pub pick-Picks :
      (k : ℕ) (h : Heap) (xs : List Ptr)
      → IsQueue h jobs xs
      → length xs < k
      → Picks (pick k dead (dequeue jobs h).0 (dequeue jobs h).1) (living_from dead xs)
  unfolding pick living_from
  pick-Picks zero h xs is f = absurd (ground arith)
  pick-Picks (suc k) h [] is f = rw (dequeue-empty h jobs is) (h, refl, is)
  pick-Picks (suc k) h (x ∷ xs) is f =
      let (out, left, clear) = dequeue-IsQueue h jobs x xs is in
      let live : (x == null) ≡ false = ground (arith, is.chain) in
      elim (Bool-cases (dead x)) [
        | inl d ↦ rw d (rw (out, live, d) (pick-Picks k (dequeue jobs h).1 xs left (ground arith)))
        | inr d ↦ rw d (rw (out, live, d) ((dequeue jobs h).1, refl, left))
      ]

-- What a call does when the threads to choose from are `ys`: the core stops if there is none, and
-- runs the first if there is one, in the outcome `how`.
abbrev pub RunsBy : (Ptr → State → Outcome) → ℕ → State → List Ptr → Outcome → Type 0
RunsBy how cpu s [] o = (s' : State) × (o ≡ died s') × IsQueue s'.heap jobs []
RunsBy how cpu s (y ∷ ys) o =
    (s' : State) × (o ≡ how y s')
    × IsQueue s'.heap jobs ys
    × ((c : ℕ) → s'.life c ≡ (if cpu == c then y else s.life c))
    × (s'.kill_flag ≡ s.kill_flag)

abbrev pub Runs : ℕ → State → List Ptr → Outcome → Type 0
Runs cpu s ys o = RunsBy (switched (s.life cpu)) cpu s ys o

living_from-has :
    (dead : Ptr → Bool) (a : Ptr) (xs : List Ptr)
    → has a (living_from dead xs) ≡ true
    → has a xs ≡ true
unfolding living_from
living_from-has dead a [] i = i
living_from-has dead a (x ∷ xs) i = elim (Bool-cases (dead x)) [
  | inl d ↦ ground (arith, living_from-has dead a xs)
  | inr d ↦ ground (arith)
]

module _ (k cpu : ℕ) (s : State) (xs : List Ptr) (is : IsQueue s.heap jobs xs) where
  Runs-Picks :
      (ys : List Ptr)
      → ((a : Ptr) → has a ys ≡ true → a ≢ null)
      → Picks s.kill_flag (pick k s.kill_flag (dequeue jobs s.heap).0 (dequeue jobs s.heap).1) ys
      → Runs cpu s ys (resume_next k cpu s)
  unfolding resume_next dying dispatch active set_active
  Runs-Picks [] live (h', e, left) = rw (e, resume_next) (record s { heap = h' }, refl, left)
  Runs-Picks (y ∷ ys) live (h', e, left) =
      let alive : (y == null) ≡ false = ground (arith, live y) in
      rw (e, alive, resume_next) (_, refl, left, (λ c. refl), refl)

  resume_next-Runs : length xs < k → Runs cpu s (living_from s.kill_flag xs) (resume_next k cpu s)
  resume_next-Runs f =
      Runs-Picks (living_from s.kill_flag xs)
        (λ a i. has-ne_null s.heap jobs xs a is (living_from-has s.kill_flag a xs i))
        (pick-Picks s.kill_flag k s.heap xs is f)

-- The ready queue with the running thread behind it, unless that one is to die.
abbrev pub offered : (Ptr → Bool) → Ptr → List Ptr → List Ptr
offered dead curr xs = if dead curr then xs else xs ++ curr ∷ []

module _ (k cpu : ℕ) (s : State) (xs : List Ptr) (is : IsQueue s.heap jobs xs) where
  -- `resume` puts the running thread behind the others unless it is to die, drops the threads at
  -- the front that are to die, and runs the first that is not; without one the core stops. Fuel for
  -- one round more than the queue has threads is enough; the running thread is not in the queue.
  pub resume-Runs :
      s.life cpu ≢ null
      → has (s.life cpu) xs ≡ false
      → suc (length xs) < k
      → Runs cpu s (living_from s.kill_flag (offered s.kill_flag (s.life cpu) xs)) (resume k cpu s)
  unfolding resume dying active
  resume-Runs live out f =
      let alive : (s.life cpu == null) ≡ false = ground arith in
      elim (Bool-cases (s.kill_flag (s.life cpu))) [
        | inl d ↦
            rw (d, alive, resume) (resume_next-Runs k cpu (active cpu s).1 xs is (omega arith))
        | inr d ↦
            rw (d, alive, resume)
              (resume_next-Runs k cpu
                (record (active cpu s).1 { heap = enqueue jobs (s.life cpu) s.heap })
                (xs ++ s.life cpu ∷ []) (enqueue-IsQueue s.heap jobs xs (s.life cpu) is live out)
                (rw (length-append xs (s.life cpu ∷ [])) (ground arith)))
      ]

module _ (cpu : ℕ) (s : State) where
  -- `exit` runs the first thread of the ready queue, and without one switches to the null pointer;
  -- the running thread is put nowhere.
  pub exit-Switches :
      (xs : List Ptr)
      → IsQueue s.heap jobs xs
      → (s' : State) × (exit cpu s ≡ switched (s.life cpu) (head_or_null xs) s')
        × IsQueue s'.heap jobs (rest_of xs)
        × ((c : ℕ) → s'.life c ≡ (if cpu == c then head_or_null xs else s.life c))
        × (s'.kill_flag ≡ s.kill_flag)
  unfolding exit dispatch active set_active
  exit-Switches [] is = rw (dequeue-empty s.heap jobs is, exit) (_, refl, is, (λ c. refl), refl)
  exit-Switches (y ∷ ys) is =
      let (out, left, clear) = dequeue-IsQueue s.heap jobs y ys is in
      rw (out, exit) (_, refl, left, (λ c. refl), refl)

-- `schedule` runs the first thread of the ready queue on a core that ran none.
pub schedule-Runs :
    (cpu : ℕ) (s : State) (xs : List Ptr)
    → IsQueue s.heap jobs xs
    → RunsBy started cpu s xs (schedule cpu s)
unfolding schedule go set_active
schedule-Runs cpu s [] is = rw (dequeue-empty s.heap jobs is, schedule) (_, refl, is)
schedule-Runs cpu s (y ∷ ys) is =
    let (out, left, clear) = dequeue-IsQueue s.heap jobs y ys is in
    let alive : (y == null) ≡ false = ground (arith, is.chain) in
    rw (out, alive, schedule) (_, refl, left, (λ c. refl), refl)

-- A queue with a living thread in it leads to a living thread.
pub living_from-cons :
    (dead : Ptr → Bool) (a : Ptr) (xs : List Ptr)
    → has a xs ≡ true
    → dead a ≡ false
    → (y : Ptr) × (ys : List Ptr) × (living_from dead xs ≡ y ∷ ys) × (dead y ≡ false)
unfolding living_from
living_from-cons dead a [] i l = absurd (ground arith)
living_from-cons dead a (x ∷ xs) i l = elim (Bool-cases (dead x)) [
  | inl d ↦ let (y, ys, e, k) = living_from-cons dead a xs (ground arith) l in (y, ys, rw d e, k)
  | inr d ↦ (x, xs, rw d refl, d)
]
