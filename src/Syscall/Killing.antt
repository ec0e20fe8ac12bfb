-- ===== src/Syscall/Killing.antt =====
-- Guarded_Scheduler::kill: the scheduler and the guard together.
use mpstu_bs.Prelude.{ℕ, ◌≡◌, ◌≢◌, ◌⊎◌, Bool, true, false, none, some, List, [], ◌++◌}
use mpstu_bs.Object.Queue.{Ptr}
use mpstu_bs.Object.Queue.Chain.{IsQueue}
use mpstu_bs.Object.Queue.Remove.{erase}
use mpstu_bs.Guard as Guard
use mpstu_bs.Guard.{leave}
use mpstu_bs.Guard.Inv as Gates
use mpstu_bs.Guard.Serviced.{Served}
use mpstu_bs.Thread.Scheduler.{jobs}
use mpstu_bs.Thread.Scheduler.Inv.{IsValid}
use mpstu_bs.Thread.Scheduler.Kill.{same}
use mpstu_bs.Syscall.{Kernel, Ended, back, handed, stopped, unfinished}
use mpstu_bs.Syscall.Leaving.{Interrupted}

module _ (prologue : Ptr → Bool) (watch assassin : Ptr) (cpu : ℕ) (that : Ptr) (during : List Ptr)
    (k : Kernel) (xs : List Ptr) where
  -- How a guarded `kill` of `that` ends, which `k` and the ready queue `xs` were before. When it
  -- returns, no core has changed its thread, the lock is open and the core outside. When an epilogue
  -- makes the core go on in the thread `next`, or stop for want of one, the core holds the lock.
  abbrev pub Ends : Ended → Type 0
  Ends (back k') =
      IsValid k'.threads (erase same that xs)
      × (k'.threads.kill_flag that ≡ true)
      × (k'.threads.life ≡ k.threads.life)
      × (k'.guard.s_lock ≡ none)
      × (k'.guard.flag cpu ≡ false)
      × (now : List Ptr) × (k'.guard.ran ≡ now ++ k.guard.ran)
      × Served prologue k.guard.queue_flag now during
  Ends (handed old next k') =
      Interrupted watch assassin k'.guard
      × (ready : List Ptr) × IsValid k'.threads ready
      × (k'.threads.kill_flag that ≡ true)
      × (k'.threads.life cpu ≡ next)
      × (next ≢ that)
      × (k'.guard.s_lock ≡ some cpu)
  Ends (stopped k') =
      Interrupted watch assassin k'.guard
      × IsQueue k'.threads.heap jobs []
      × ((k.threads.life cpu ≡ that) ⊎ (k.threads.kill_flag (k.threads.life cpu) ≡ true))
      × (k'.guard.s_lock ≡ some cpu)
  Ends unfinished = ⊥
