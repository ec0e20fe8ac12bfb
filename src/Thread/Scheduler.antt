-- ===== src/Thread/Scheduler.antt =====
-- thread/scheduler.cc and thread/assassin.cc: the ready queue, the calls on it, and the interrupt
-- that makes a core leave a killed thread.
pub mod Pick
pub mod Inv
pub mod Kill
pub mod Safety
use mpstu_bs.Prelude.{
  ℕ, zero, suc, ◌+◌, ◌*◌, ◌%◌, ◌^◌, Bool, true, false, ◌&&◌, not, Option, none, some, List, [], ◌∷◌,
  ◌==◌, if◌then◌else◌,
}
use mpstu_bs.Machine.Plugbox.{Gateobjs, assign}
use mpstu_bs.Object.Queue.{Ptr, null, Heap, out_of_fuel, done, enqueue, dequeue, remove}
use mpstu_bs.Thread.Dispatcher.{
  State, Outcome, returned, switched, started, died, no_fuel, dying, set_kill_flag, active, go,
  dispatch,
}

-- The ready queue of the one scheduler.
abbrev pub jobs : ℕ
jobs = 0

abbrev pub assassin_vector : ℕ
assassin_vector = 100

unfoldable pub ready : Ptr → State → State
ready that s = record s { heap = enqueue jobs that s.heap }

unfoldable pub exit : ℕ → State → Outcome
exit cpu s = let (next, h) = dequeue jobs s.heap in dispatch cpu next (record s { heap = h })

-- `watch.activate()` starts the timer of the core, which is no part of the state.
unfoldable pub schedule : ℕ → State → Outcome
schedule cpu s =
    let (first, h) = dequeue jobs s.heap in
    let s1 = record s { heap = h } in if first == null then died s1 else go cpu first s1

-- `while (next && next->dying()) next = jobs.dequeue();`
pub data Picked : Type 0 where
  lost : Picked
  picked : Ptr → Heap → Picked

unfoldable pub pick : ℕ → (Ptr → Bool) → Ptr → Heap → Picked
pick zero dead next h = lost
pick (suc k) dead next h =
    let rest = pick k dead (dequeue jobs h).0 (dequeue jobs h).1 in
    if not (next == null) && dead next then rest else picked next h

-- The end of `resume`, from the first `dequeue` on.
unfoldable pub resume_next : ℕ → ℕ → State → Outcome
resume_next fuel cpu s =
    let (next, h) = dequeue jobs s.heap in
    elim (pick fuel (λ t. dying t s) next h) [
      | lost ↦ no_fuel
      | picked n h' ↦
          if n == null
          then died (record s { heap = h' })
          else dispatch cpu n (record s { heap = h' })
    ]

unfoldable pub resume : ℕ → ℕ → State → Outcome
resume fuel cpu s =
    let (curr, s1) = active cpu s in
    let s2 = if dying curr s1 then s1 else record s1 { heap = enqueue jobs curr s1.heap } in
    if curr == null then died s1 else resume_next fuel cpu s2

-- The loop of `kill` over the cores: the first that runs the thread, or the number of cores.
unfoldable pub find_core : ℕ → ℕ → Ptr → (ℕ → Ptr) → ℕ
find_core zero target that running = target
find_core (suc k) target that running =
    let rest = find_core k (suc target) that running in
    if that == running target then target else rest

-- `unsigned char dest = 1 << target`
unfoldable pub core_mask : ℕ → ℕ
core_mask target = 2 ^ target % 256

-- `limit` is what `getNumberOfOnlineCPUs` returns.
unfoldable pub kill : ℕ → ℕ → Ptr → State → Outcome
kill fuel limit that s =
    let s1 = set_kill_flag that s in
    elim (remove fuel (λ a b. a == b) jobs that s1.heap) [
      | out_of_fuel ↦ no_fuel
      | done found h ↦
          let s2 = record s1 { heap = h } in
          let target = find_core limit 0 that s2.life in
          if not (found == null)
          then returned s2
          else returned (record s2 { sent = (core_mask target, assassin_vector) ∷ s2.sent })
    ]

-- Assassin::epilogue
unfoldable pub epilogue : ℕ → ℕ → State → Outcome
epilogue fuel cpu s =
    let (current, s1) = active cpu s in
    let next = resume fuel cpu s1 in if dying current s1 then next else returned s1

-- `Assassin::hire` and `Assassin::prologue`
abbrev pub hire : Ptr → Gateobjs → Gateobjs
hire this gateobjs = assign assassin_vector this gateobjs

abbrev pub wants_epilogue : Bool
wants_epilogue = true
