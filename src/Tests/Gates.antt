-- ===== src/Tests/Gates.antt =====
-- machine/spinlock.h and guard/gate.h at a concrete run.
use mpstu_bs.Prelude.{ℕ, ◌≡◌, refl, false}
use mpstu_bs.Machine.Spinlock.{Cores, call, take, test, mark, unlock, turn, Run, start, go_on}
use mpstu_bs.Machine.Spinlock.Marking.{set_queued_once}

-- The processor 1 has marked the gate.
abbrev first_steps : (c : Cores) × Run false c
first_steps = (
  _,
  go_on
      (go_on (go_on (go_on (go_on start (turn 1 call)) (turn 1 (take refl))) (turn 1 test))
        (turn 1 mark))
      (turn 1 unlock),
)

abbrev marker : ℕ
marker = 1

set_queued_once_example : marker ≡ marker
set_queued_once_example = set_queued_once marker marker first_steps.1 refl
