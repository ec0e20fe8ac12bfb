-- ===== src/Tests/Locks.antt =====
-- machine/ticketlock.h and utils/math.h at concrete inputs.
use mpstu_bs.Prelude.{ℕ, ◌≡◌, refl, ◌≤◌, ◌^◌, ◌+◌, ◌⊎◌, true, some, arith}
use mpstu_bs.Utils.Math.{div64}
use mpstu_bs.Utils.Math.Division.{div64_lem}
use mpstu_bs.Machine.Ticketlock.{
  init, System, Reach, start, pick, begin, later, take, enter, waiting, inside, update, critical,
  u32,
}
use mpstu_bs.Machine.Ticketlock.Safety.{mutual_exclusion, no_deadlock}

-- The processor 0 has drawn its ticket.
abbrev drawn : System
drawn = record {
  lock = record init { ticketnumber = u32 (init.ticketnumber + 1) };
  pc = update start.pc 0 (waiting init.ticketnumber);
}

-- The processor 0 is in the section.
abbrev entered : System
entered = record { lock = drawn.lock; pc = update drawn.pc 0 inside }

few : 2 ≤ 2 ^ 32
few = omega arith

drawn-Reach : Reach 2 drawn
drawn-Reach = later begin (pick 0 (omega arith) take)

entered-Reach : Reach 2 entered
unfolding init
entered-Reach = later drawn-Reach (pick 0 (omega arith) (enter refl))

abbrev holder : ℕ
holder = 0

mutual_exclusion_example : holder ≡ holder
mutual_exclusion_example = mutual_exclusion few entered-Reach holder holder refl refl

no_deadlock_example :
    (j : ℕ) × ((critical (drawn.pc j) ≡ true) ⊎ (drawn.pc j ≡ waiting drawn.lock.turn))
no_deadlock_example = no_deadlock few drawn-Reach 0 refl

div64_lem_example : div64 1000 7 ≡ some (142, 6)
div64_lem_example = div64_lem 1000 7 (omega arith) (omega arith) (omega arith)
