-- ===== src/Tests/Threads.antt =====
-- thread/scheduler.cc and thread/assassin.cc at a concrete state.
use mpstu_bs.Prelude.{
  ℕ, ◌≡◌, refl, ◌≢◌, ◌<◌, true, false, List, [], ◌∷◌, ◌==◌, if◌then◌else◌, arith,
}
use mpstu_bs.Object.Queue.{Ptr, null, Heap, head_of, init, enqueue}
use mpstu_bs.Object.Queue.Chain.{IsQueue}
use mpstu_bs.Object.Queue.Enqueue.{init-IsQueue, enqueue-IsQueue}
use mpstu_bs.Object.Queue.Remove.{erase}
use mpstu_bs.Thread.Dispatcher.{State, returned, switched}
use mpstu_bs.Thread.Scheduler.{resume, kill, epilogue}
use mpstu_bs.Thread.Scheduler.Pick.{Runs, living_from, offered, exit-Switches, resume-Runs}
use mpstu_bs.Thread.Scheduler.Inv.{IsValid}
use mpstu_bs.Thread.Scheduler.Kill.{same, kill-IsValid}
use mpstu_bs.Thread.Scheduler.Safety.{
  Reach, here, step, leave, Buried, Reach-IsValid, Reach-Buried, epilogue-Buried,
}

abbrev blank : Heap
blank = record { cell = λ s. null; tail = head_of }

-- The threads 5 and 6 are ready, the core 0 runs the thread 9, and 9 and 8 are to die.
abbrev ready_heap : Heap
ready_heap = enqueue 0 6 (enqueue 0 5 (init 0 blank))

abbrev pub some_state : State
some_state = record {
  heap = ready_heap;
  kill_flag = λ t. if t == 9 then true else t == 8;
  life = λ c. if c == 0 then 9 else null;
  irq = λ c. true;
  sent = [];
}

ne : (n : ℕ) → 0 < n → n ≢ null
ne n h e = omega arith

pub ready-IsQueue : IsQueue ready_heap 0 (5 ∷ 6 ∷ [])
ready-IsQueue =
    enqueue-IsQueue (enqueue 0 5 (init 0 blank)) 0 (5 ∷ []) 6
      (enqueue-IsQueue (init 0 blank) 0 [] 5 (init-IsQueue 0 blank) (ne 5 (omega arith)) refl)
      (ne 6 (omega arith)) refl

pub some_state-IsValid : IsValid some_state (5 ∷ 6 ∷ [])
some_state-IsValid = record {
  queue = ready-IsQueue;
  alive = λ a i. ground arith;
  apart = λ c l n. ground arith;
  once = λ c d lc ld n e. ground arith;
}

abbrev left_heap : State
left_heap = (exit-Switches 0 some_state (5 ∷ 6 ∷ []) ready-IsQueue).0

one_exit : Reach 4 some_state left_heap
one_exit =
    step here (leave 0 9 5 (omega arith) (exit-Switches 0 some_state (5 ∷ 6 ∷ []) ready-IsQueue).1)

Reach-IsValid_example : (ys : List Ptr) × IsValid left_heap ys
Reach-IsValid_example =
    Reach-IsValid 4 some_state left_heap (5 ∷ 6 ∷ []) some_state-IsValid one_exit

Reach-Buried_example : Buried 8 left_heap
Reach-Buried_example =
    Reach-Buried 4 some_state left_heap (5 ∷ 6 ∷ []) 8 some_state-IsValid (ne 8 (omega arith))
      (refl, λ c l e. ground arith) one_exit

resume-Runs_example :
    Runs 0 some_state
      (living_from some_state.kill_flag (offered some_state.kill_flag 9 (5 ∷ 6 ∷ [])))
      (resume 4 0 some_state)
resume-Runs_example =
    resume-Runs 4 0 some_state (5 ∷ 6 ∷ []) ready-IsQueue (ne 9 (omega arith)) refl (omega arith)

kill-IsValid_example :
    (s' : State) × (kill 3 4 6 some_state ≡ returned s')
    × IsValid s' (erase same 6 (5 ∷ 6 ∷ []))
    × (s'.kill_flag 6 ≡ true)
    × ((a : Ptr) → (6 == a) ≡ false → s'.kill_flag a ≡ some_state.kill_flag a)
    × (s'.life ≡ some_state.life)
    × (s'.sent ≡ [])
kill-IsValid_example =
    kill-IsValid some_state (5 ∷ 6 ∷ []) some_state-IsValid 3 4 6 (ne 6 (omega arith)) (omega arith)

epilogue-Buried_example :
    (s' : State) × (epilogue 4 0 some_state ≡ switched 9 5 s') × IsValid s' (6 ∷ []) × Buried 9 s'
epilogue-Buried_example =
    epilogue-Buried 4 0 some_state 5 (6 ∷ []) (omega arith) some_state-IsValid (ne 9 (omega arith))
      refl (omega arith)
