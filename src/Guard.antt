-- ===== src/Guard.antt =====
-- guard/guard.cc and guard/gate.h: prologues, epilogues and their queues.
-- The virtual calls of a gate are named in a log, in the order in which they are made.
pub mod Inv
pub mod Relay
pub mod Leave
pub mod Serviced
use mpstu_bs.Prelude.{
  ℕ, zero, suc, ◌+◌, Bool, true, false, not, Option, none, some, List, [], ◌∷◌, ◌==◌, if◌then◌else◌,
}
use mpstu_bs.Object.Queue.{Ptr, null, Heap, enqueue, dequeue}

-- The gates, the queue of each core (the queue number is the core), the flags of the cores, who
-- holds `s_lock`, which cores take interrupts, the acknowledgements to each core's local APIC, and
-- the epilogues that were called, the latest first.
pub record State : Type 0 where
  pub heap : Heap
  pub queue_flag : Ptr → Bool
  pub flag : ℕ → Bool
  pub s_lock : Option ℕ
  pub irq : ℕ → Bool
  pub acks : ℕ
  pub ran : List Ptr

abbrev pub put {ℓ} : {A : Type ℓ} → ℕ → A → (ℕ → A) → ℕ → A
put i a f j = if i == j then a else f j

-- CPU::enable_int and CPU::disable_int
abbrev pub set_irq : ℕ → Bool → State → State
set_irq cpu on s = record s { irq = put cpu on s.irq }

abbrev pub ack_irq : State → State
ack_irq s = record s { acks = suc s.acks }

unfoldable pub set_dequeued : Ptr → State → State
set_dequeued g s = record s { queue_flag = put g false s.queue_flag }

-- Whether the gate was free; it is marked in any case.
unfoldable pub set_queued : Ptr → State → Bool × State
set_queued g s = (not (s.queue_flag g), record s { queue_flag = put g true s.queue_flag })

abbrev pub epilogue : Ptr → State → State
epilogue g s = record s { ran = g ∷ s.ran }

-- `none` is a core that waits, since another holds the lock (or it itself does).
unfoldable pub enter : ℕ → State → Option State
enter cpu s =
    let s1 = set_irq cpu false s in
    let s2 = record s1 { flag = put cpu true s1.flag } in
    let s3 = set_irq cpu true s2 in
    elim s3.s_lock [ none ↦ some (record s3 { s_lock = some cpu }) | some holder ↦ none ]

-- `relay` at a gate that wants its epilogue, on a core that is in the critical section.
unfoldable pub defer : ℕ → Ptr → State → State
defer cpu item s =
    let (free, s1) = set_queued item s in
    if free then record s1 { heap = enqueue cpu item s1.heap } else s1

-- The interrupts of the first round, and of the rounds after it.
abbrev pub first : List (List Ptr) → List Ptr
first [] = []
first (now ∷ rounds) = now

abbrev pub later : List (List Ptr) → List (List Ptr)
later [] = []
later (now ∷ rounds) = rounds

module _ (prologue : Ptr → Bool) where
  -- `relay` on a core that is in the critical section. It acknowledges twice when the gate wants
  -- its epilogue.
  unfoldable pub relay_busy : ℕ → Ptr → State → State
  relay_busy cpu item s =
      let s1 = if prologue item then defer cpu item (ack_irq s) else s in
      set_irq cpu true (ack_irq s1)

  -- The interrupts that come in while a core takes them, one after the other.
  unfoldable pub relay_all : ℕ → List Ptr → State → State
  relay_all cpu [] s = s
  relay_all cpu (g ∷ gs) s = relay_all cpu gs (relay_busy cpu g s)

  -- `leave`: `arrivals` are the interrupts of this core in each round, while an epilogue runs. The
  -- epilogues are those that return, as Gate's own and the keyboard's do; `leave` with the epilogues
  -- that call the scheduler, and `relay`, are in Syscall.antt.
  unfoldable pub leave : ℕ → List (List Ptr) → ℕ → State → Option State
  leave zero arrivals cpu s = none
  leave (suc k) arrivals cpu s =
      let s1 = set_irq cpu false s in
      let (item, h) = dequeue cpu s1.heap in
      let s2 = record s1 { heap = h } in
      let s3 = epilogue item (set_irq cpu true (set_dequeued item s2)) in
      let rest : Option State = elim arrivals [
        | [] ↦ leave k [] cpu s3
        | now ∷ rounds ↦ leave k rounds cpu (relay_all cpu now s3)
      ] in
      if item == null
      then some (set_irq cpu true (record s2 { flag = put cpu false s2.flag; s_lock = none }))
      else rest
