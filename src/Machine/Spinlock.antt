-- ===== src/Machine/Spinlock.antt =====
-- machine/spinlock.h, and guard/gate.h around it: `Gate::set_queued` on several processors at once,
-- as single accesses to the lock and the flag of one gate.
pub mod Marking
use mpstu_bs.Prelude.{ℕ, ◌≡◌, ◌≢◌, Bool, true, false, not, ◌==◌, if◌then◌else◌}

-- `__sync_lock_test_and_set`: the value before, and after.
abbrev pub test_and_set : ℕ → ℕ × ℕ
test_and_set lock = (lock, 1)

-- `__sync_lock_release`, and the constructor
abbrev pub released : ℕ
released = 0

-- `gate_lock` and `queue_flag`.
pub record Marks : Type 0 where
  pub gate_lock : ℕ
  pub queue_flag : Bool

-- Where a processor stands in `set_queued`: before the call, in the loop of `lock`, behind it, behind
-- the assignment to `status`, behind the one to `queue_flag`, and behind `unlock`.
pub data Point : Type 0 where
  before : Point
  spinning : Point
  locked : Point
  tested : Bool → Point
  marked : Bool → Point
  returned : Bool → Point

-- One access of one processor.
pub data Access (m : Marks) : Point → Marks → Point → Type 0 where
  call : Access m before m spinning
  spin :
      (test_and_set m.gate_lock).0 ≢ 0
      → Access m spinning (record m { gate_lock = (test_and_set m.gate_lock).1 }) spinning
  take :
      (test_and_set m.gate_lock).0 ≡ 0
      → Access m spinning (record m { gate_lock = (test_and_set m.gate_lock).1 }) locked
  test : Access m locked m (tested (not m.queue_flag))
  mark : {status : Bool} → Access m (tested status) (record m { queue_flag = true }) (marked status)
  unlock :
      {status : Bool}
      → Access m (marked status) (record m { gate_lock = released }) (returned status)

pub record Cores : Type 0 where
  pub marks : Marks
  pub at : ℕ → Point

abbrev pub move : (ℕ → Point) → ℕ → Point → ℕ → Point
move f i p j = if i == j then p else f j

-- Any processor makes its next access.
pub data Turn (s : Cores) : Cores → Type 0 where
  turn :
      (i : ℕ) {m : Marks} {p : Point}
      → Access s.marks (s.at i) m p
      → Turn s (record { marks = m; at = move s.at i p })

-- From a gate whose lock is free.
pub data Run (queue_flag : Bool) : Cores → Type 0 where
  start : Run queue_flag (record {
    marks = record { gate_lock = released; queue_flag = queue_flag };
    at = λ i. before;
  })
  go_on : {s t : Cores} → Run queue_flag s → Turn s t → Run queue_flag t
