-- ===== src/Device/Watch.antt =====
-- device/watch.h and device/watch.cc: the settings of the time slice.
pub mod Windup
use mpstu_bs.Prelude.{
  ℕ, zero, suc, ◌*◌, ◌/◌, ◌%◌, ◌^◌, Bool, true, false, Option, none, some, ltb, if◌then◌else◌,
}
use mpstu_bs.Object.Queue.{Ptr}
use mpstu_bs.Machine.Plugbox.{Gateobjs, assign}
use mpstu_bs.Thread.Dispatcher.{State, Outcome}
use mpstu_bs.Thread.Scheduler.{resume}
use mpstu_bs.Utils.Math.{u64, div64}
use mpstu_bs.Machine.LapicTimer.{Timer, set_timer}

-- The fields `_divide` (a byte) and `_ticks` (32 bits).
pub record Watch : Type 0 where
  pub divide : ℕ
  pub ticks : ℕ

abbrev pub timer_vector : ℕ
timer_vector = 32

-- How the loop of `windup` ends.
pub data Scaled : Type 0 where
  spent : Scaled
  refused : ℕ → Scaled
  scaled : ℕ → ℕ → Scaled

-- `while (ticks > (uint32_t)(1 << 31))`, with the byte `_divide` wrapping around.
unfoldable pub scale : ℕ → ℕ → ℕ → Scaled
scale zero ticks divide = spent
scale (suc k) ticks divide =
    let d = divide * 2 % 256 in
    let rest = scale k (ticks / 2) d in
    if ltb (2 ^ 31) ticks then (if ltb 128 d then refused d else rest) else scaled ticks divide

-- The result of `windup`, the new fields, and what is set in the timer; the early return sets
-- nothing, and plugs nothing in.
pub record Wound : Type 0 where
  pub ok : Bool
  pub watch : Watch
  pub timer : Option Timer

-- `tm` is what `lapic.timer_ticks()` measures, the ticks of a millisecond.
unfoldable pub windup : ℕ → ℕ → Watch → Option Wound
windup us tm w = elim (div64 (u64 (us * tm)) 1000) [
  | none ↦ none
  | some (ticks, rem) ↦ elim (scale 34 ticks w.divide) [
    | spent ↦ none
    | refused d ↦ some (record { ok = false; watch = record w { divide = d }; timer = none })
    | scaled t d ↦ some (record {
      ok = true;
      watch = record { divide = d; ticks = t % 2 ^ 32 };
      timer = some (set_timer 0 d timer_vector true false);
    })
  ]
]

-- `interval`, with `tm` as above
unfoldable pub interval : ℕ → Watch → Option ℕ
interval tm w = elim (div64 (u64 (w.ticks * w.divide * 1000)) tm) [
  | none ↦ none
  | some (q, rem) ↦ some (q % 2 ^ 32)
]

unfoldable pub activate : Watch → Timer
activate w = set_timer w.ticks w.divide timer_vector true false

-- The assignment to the plugbox in `windup`, which the early return leaves out.
abbrev pub plug_in : Ptr → Wound → Gateobjs → Gateobjs
plug_in this w gateobjs = if w.ok then assign timer_vector this gateobjs else gateobjs

-- `prologue` and `epilogue`
abbrev pub wants_epilogue : Bool
wants_epilogue = true

abbrev pub epilogue : ℕ → ℕ → State → Outcome
epilogue fuel cpu s = resume fuel cpu s
