-- ===== src/Thread/Dispatcher.antt =====
-- thread/thread.cc and thread/dispatcher.cc: the kill flags, and which thread runs on which core.
-- An outcome names the two threads of a switch; what that does to the registers is in
-- Thread/Context.antt.
use mpstu_bs.Prelude.{ℕ, Bool, true, false, List, ◌==◌, if◌then◌else◌}
use mpstu_bs.Object.Queue.{Ptr, Heap}

-- The threads, the ready queue and the cores. `life` is the memory from the array `life` on, whose
-- first four words are the array; `irq` says which cores take interrupts; `sent` are the
-- interrupts that `sendCustomIPI` was asked for, the latest first.
pub record State : Type 0 where
  pub heap : Heap
  pub kill_flag : Ptr → Bool
  pub life : ℕ → Ptr
  pub irq : ℕ → Bool
  pub sent : List (ℕ × ℕ)

-- How a call ends: it returns, the core goes on with another thread, the core starts its first
-- thread, or the core stops for good.
pub data Outcome : Type 0 where
  returned : State → Outcome
  switched : Ptr → Ptr → State → Outcome
  started : Ptr → State → Outcome
  died : State → Outcome
  no_fuel : Outcome

abbrev pub set_irq : ℕ → Bool → State → State
set_irq cpu on s = record s { irq = λ c. if cpu == c then on else s.irq c }

unfoldable pub reset_kill_flag : Ptr → State → State
reset_kill_flag t s = record s { kill_flag = λ u. if t == u then false else s.kill_flag u }

unfoldable pub set_kill_flag : Ptr → State → State
set_kill_flag t s = record s { kill_flag = λ u. if t == u then true else s.kill_flag u }

unfoldable pub dying : Ptr → State → Bool
dying t s = s.kill_flag t

-- `setActive`, on the core `cpu`
unfoldable pub set_active : ℕ → Ptr → State → State
set_active cpu t s =
    let s1 = set_irq cpu false s in
    let s2 = record s1 { life = λ c. if cpu == c then t else s1.life c } in set_irq cpu true s2

-- `active`: the call that enables the interrupts stands behind the `return`.
unfoldable pub active : ℕ → State → Ptr × State
active cpu s = let s1 = set_irq cpu false s in (s1.life cpu, s1)

unfoldable pub go : ℕ → Ptr → State → Outcome
go cpu first s = started first (set_active cpu first s)

unfoldable pub dispatch : ℕ → Ptr → State → Outcome
dispatch cpu next s = let (old, s1) = active cpu s in switched old next (set_active cpu next s1)
