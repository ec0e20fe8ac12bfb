-- ===== src/Syscall/Interrupt.antt =====
-- guard/guardian.cc and guard/guard.cc with the threads: an interrupt outside the critical section.
use mpstu_bs.Prelude.{ℕ, ◌<◌, ◌≡◌, Bool, false, none, some, List, ◌∷◌, ◌++◌}
use mpstu_bs.Object.Queue.{Ptr}
use mpstu_bs.Guard as Guard
use mpstu_bs.Guard.{later}
use mpstu_bs.Guard.Inv as Gates
use mpstu_bs.Guard.Serviced.{Served}
use mpstu_bs.Thread.Dispatcher.{State}
use mpstu_bs.Syscall.{
  Kernel, Ended, back, handed, stopped, unfinished, epilogue_of, behind, leave_all,
}
use mpstu_bs.Syscall.Leaving.{Steady, Landed, Deserted, Interrupted}

module _ (prologue : Ptr → Bool) (watch assassin : Ptr) (cpu : ℕ) (gate : Ptr) (during : List Ptr)
    (k : Kernel) (xs : List Ptr) where
  -- How an interrupt of `gate` ends, which `k` and the ready queue `xs` were before. When it returns,
  -- the threads are as they were, the lock is open and the core outside. When an epilogue makes the
  -- core go on in the thread `next`, or stop for want of one, the core holds the lock.
  abbrev pub Handled : Ended → Type 0
  Handled (back k') =
      Steady xs k.threads.kill_flag k.threads.life k'.threads
      × (k'.guard.s_lock ≡ none)
      × (k'.guard.flag cpu ≡ false)
      × (now : List Ptr) × (k'.guard.ran ≡ now ++ gate ∷ k.guard.ran)
      × Served prologue k.guard.queue_flag now during
  Handled (handed old next k') =
      Interrupted watch assassin k'.guard
      × Landed cpu k.threads.kill_flag next k'.threads
      × (k'.guard.s_lock ≡ some cpu)
  Handled (stopped k') =
      Interrupted watch assassin k'.guard
      × Deserted cpu k.threads.kill_flag k.threads.life k'.threads
      × (k'.guard.s_lock ≡ some cpu)
  Handled unfinished = ⊥

module _ (prologue : Ptr → Bool) (watch assassin : Ptr) (turns cpu : ℕ) (at : cpu < 4) where
  -- What `relay` does behind `enter`, in the guard `g`.
  abbrev behind_enter : ℕ → List (List Ptr) → Ptr → Guard.State → State → Ended
  behind_enter rounds arrivals item g t =
      behind (λ t'. leave_all prologue watch assassin turns cpu rounds (later arrivals) g t') g
        (epilogue_of watch assassin turns cpu item t)
