-- ===== src/Syscall.antt =====
-- syscall/guarded_scheduler.h: the calls of the scheduler in the critical section, and what the
-- epilogues of guard/guard.cc's `leave` do to the threads.
pub mod Leaving
pub mod Killing
pub mod Handover
pub mod Interrupt
use mpstu_bs.Machine.Plugbox.{Gateobjs, report}
use mpstu_bs.Prelude.{
  ℕ, zero, suc, Bool, true, false, Option, none, some, List, ◌==◌, if◌then◌else◌,
}
use mpstu_bs.Object.Queue.{Ptr, null, dequeue}
use mpstu_bs.Guard.{put, set_irq, ack_irq, set_dequeued, enter, relay_busy, relay_all, first, later}
use mpstu_bs.Thread.Dispatcher.{Outcome, returned, switched, started, died, no_fuel}
use mpstu_bs.Thread.Scheduler.{ready, kill, exit, resume}
use mpstu_bs.Thread.Scheduler as Scheduler
use mpstu_bs.Device.Watch as Watch
use mpstu_bs.Guard as Guard
use mpstu_bs.Thread.Dispatcher as Dispatcher

-- The guard and the threads.
pub record Kernel : Type 0 where
  pub guard : Guard.State
  pub threads : Dispatcher.State

-- How a system call ends: it returns; the core goes on in another thread, which is in the critical
-- section then and leaves it; the core stops in the section; or it waits for the lock for ever, or
-- the fuel did not suffice.
pub data Ended : Type 0 where
  back : Kernel → Ended
  handed : Ptr → Ptr → Kernel → Ended
  stopped : Kernel → Ended
  unfinished : Ended

-- Behind a call in the critical section: `rest` is what follows when it returns.
abbrev pub behind : (Dispatcher.State → Ended) → Guard.State → Outcome → Ended
behind rest g (returned t) = rest t
behind rest g (switched old next t) = handed old next (record { guard = g; threads = t })
behind rest g (started first_thread t) = stopped (record { guard = g; threads = t })
behind rest g (died t) = stopped (record { guard = g; threads = t })
behind rest g no_fuel = unfinished

-- `watch` and `assassin` are the two gates whose epilogues call the scheduler; `turns` is the fuel of
-- the loop of `resume` in them. Every other epilogue leaves the threads alone.
module _ (watch assassin : Ptr) (turns : ℕ) (cpu : ℕ) where
  -- The virtual call `item->epilogue()`: Watch::epilogue, Assassin::epilogue, or another.
  abbrev pub epilogue_of : Ptr → Dispatcher.State → Outcome
  epilogue_of item t =
      if item == watch
      then Watch.epilogue turns cpu t
      else if item == assassin
      then Scheduler.epilogue turns cpu t
      else returned t

module _ (prologue : Ptr → Bool) (watch assassin : Ptr) (turns : ℕ) (cpu : ℕ) where
  -- `Guard::leave` with what the epilogues do to the threads; `arrivals` are the interrupts of this
  -- core in each round, while an epilogue runs.
  unfoldable pub leave_all : ℕ → List (List Ptr) → Guard.State → Dispatcher.State → Ended
  leave_all zero arrivals g t = unfinished
  leave_all (suc k) arrivals g t =
      let g1 = set_irq cpu false g in
      let (item, h) = dequeue cpu g1.heap in
      let g2 = record g1 { heap = h } in
      let g3 = Guard.epilogue item (set_irq cpu true (set_dequeued item g2)) in
      let g4 = relay_all prologue cpu (first arrivals) g3 in
      let rest =
        behind (λ t'. leave_all k (later arrivals) g4 t') g4
          (epilogue_of watch assassin turns cpu item t) in
      if item == null
      then back (record {
        guard = set_irq cpu true (record g2 { flag = put cpu false g2.flag; s_lock = none });
        threads = t;
      })
      else rest

  -- `Guard::relay` with what the epilogues do to the threads. On a core that was outside the critical
  -- section the first of `arrivals` come in during the epilogue of `item`.
  unfoldable pub relay : ℕ → List (List Ptr) → Ptr → Kernel → Ended
  relay rounds arrivals item k =
      let outside : Ended = elim (enter cpu (set_irq cpu true (ack_irq k.guard))) [
        | none ↦ unfinished
        | some g1 ↦
            let g2 = relay_all prologue cpu (first arrivals) (Guard.epilogue item g1) in
            behind (λ t. leave_all rounds (later arrivals) g2 t) g2
              (epilogue_of watch assassin turns cpu item k.threads)
      ] in
      if prologue item
      then (if k.guard.flag cpu
          then back (record k { guard = relay_busy prologue cpu item k.guard })
          else outside)
      else back (record k { guard = set_irq cpu true (ack_irq k.guard) })

  -- `guardian`; a gate that is the null pointer has no result.
  unfoldable pub guardian : ℕ → List (List Ptr) → Gateobjs → ℕ → Kernel → Ended
  guardian rounds arrivals gateobjs vector k =
      let ir_handler = report vector gateobjs in
      if ir_handler == null then unfinished else relay rounds arrivals ir_handler k

module _ (prologue : Ptr → Bool) (watch assassin : Ptr) (turns : ℕ) (rounds : ℕ) (during : List Ptr)
    (arrivals : List (List Ptr)) (cpu : ℕ) where
  -- The end of a call, behind the scheduler's.
  abbrev pub finish : Guard.State → Outcome → Ended
  finish g call =
      behind (λ t. leave_all prologue watch assassin turns cpu rounds arrivals g t) g call

  -- `{ Secure s; scheduler.… }`, with the interrupts `during` while the scheduler works.
  abbrev pub guarded_in : Option Guard.State → Outcome → Ended
  guarded_in none call = unfinished
  guarded_in (some g) call = finish (relay_all prologue cpu during g) call

  unfoldable pub guarded : (Dispatcher.State → Outcome) → Kernel → Ended
  guarded call k = guarded_in (enter cpu k.guard) (call k.threads)

  unfoldable pub guarded_kill : ℕ → ℕ → Ptr → Kernel → Ended
  unfolding guarded
  guarded_kill fuel limit that k = guarded (kill fuel limit that) k

  unfoldable pub guarded_ready : Ptr → Kernel → Ended
  unfolding guarded
  guarded_ready that k = guarded (λ t. returned (ready that t)) k

  unfoldable pub guarded_resume : ℕ → Kernel → Ended
  unfolding guarded
  guarded_resume fuel k = guarded (resume fuel cpu) k

  unfoldable pub guarded_exit : Kernel → Ended
  unfolding guarded
  guarded_exit k = guarded (exit cpu) k
