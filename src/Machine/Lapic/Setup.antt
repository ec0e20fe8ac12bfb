-- ===== src/Machine/Lapic/Setup.antt =====
-- The local APIC after `init`, after `setLogicalLAPICID` and after `setTimer`.
use mpstu_bs.Prelude.{ℕ, ◌/◌, ◌%◌, ◌^◌, ◌<◌, ◌≡◌, Bool, true, false, ◌||◌, ◌==◌, arith}
use mpstu_bs.Prelude.Fields.{get_field, set_field}
use mpstu_bs.Machine.LapicTimer.{Timer, set_timer, timer_div}
use mpstu_bs.Machine.Lapic.{
  Lapic, tpr_reg, ldr_reg, dfr_reg, spiv_reg, timerctrl_reg, icr_reg, dcr_reg, write, bit, init,
  set_logical_lapic_id, write_timer,
}

-- Enabled, for interrupts of every priority, in the flat model, with the logical identification.
pub record Ready (id : ℕ) (before after : Lapic) : Type 0 where
  pub logical : get_field 24 8 (after.regs ldr_reg) ≡ id
  pub priority : get_field 0 8 (after.regs tpr_reg) ≡ 0
  pub flat : get_field 28 4 (after.regs dfr_reg) ≡ 0xf
  pub enabled : get_field 8 1 (after.regs spiv_reg) ≡ 1
  pub spurious : get_field 0 8 (after.regs spiv_reg) ≡ 0xff
  pub no_focus : get_field 9 1 (after.regs spiv_reg) ≡ 1
  pub ldr_kept : after.regs ldr_reg % 2 ^ 24 ≡ before.regs ldr_reg % 2 ^ 24
  pub tpr_kept : after.regs tpr_reg / 2 ^ 8 ≡ before.regs tpr_reg / 2 ^ 8
  pub dfr_kept : after.regs dfr_reg % 2 ^ 28 ≡ before.regs dfr_reg % 2 ^ 28
  pub spiv_kept : after.regs spiv_reg / 2 ^ 10 ≡ before.regs spiv_reg / 2 ^ 10

-- `init` and then `setLogicalLAPICID` make the local APIC ready under its logical identification;
-- the other registers, and the bits of these that are not assigned, stay.
pub init-Ready :
    (id r : ℕ) (l : Lapic)
    → id < 2 ^ 8
    → ((r == ldr_reg) || (r == tpr_reg) || (r == dfr_reg) || (r == spiv_reg)) ≡ false
    → Ready id l (set_logical_lapic_id id (init l))
      × ((set_logical_lapic_id id (init l)).regs r ≡ l.regs r)
unfolding init set_logical_lapic_id write
init-Ready id r l h other = (omega arith, ground arith)

-- The settings of the timer that stand in the registers.
abbrev pub settings : Lapic → Timer
settings l = record {
  counter = l.regs icr_reg;
  divider = l.regs dcr_reg;
  vector = get_field 0 8 (l.regs timerctrl_reg);
  periodic = get_field 17 2 (l.regs timerctrl_reg) == 1;
  masked = get_field 16 1 (l.regs timerctrl_reg) == 1;
}

module _ (vector v : ℕ) (periodic masked : Bool) where
  abbrev timer_control : ℕ
  timer_control =
      set_field 17 2 (bit periodic) (set_field 16 1 (bit masked) (set_field 0 8 vector v))

  control_vector : vector < 2 ^ 8 → get_field 0 8 timer_control ≡ vector
  control_vector h = omega arith

control_periodic :
    (vector v : ℕ) (periodic masked : Bool)
    → (get_field 17 2 (timer_control vector v periodic masked) == 1) ≡ periodic
control_periodic vector v true masked = ground arith
control_periodic vector v false masked = ground arith

control_masked :
    (vector v : ℕ) (periodic masked : Bool)
    → (get_field 16 1 (timer_control vector v periodic masked) == 1) ≡ masked
control_masked vector v periodic true = ground arith
control_masked vector v periodic false = ground arith

-- The registers that `setTimer` writes hold the settings it is given.
pub write_timer-set_timer :
    (counter divide vector : ℕ) (periodic masked : Bool) (l : Lapic)
    → vector < 2 ^ 8
    → settings (write_timer counter divide vector periodic masked l)
      ≡ set_timer counter divide vector periodic masked
unfolding write_timer write set_timer
write_timer-set_timer counter divide vector periodic masked l h = λ i. record {
  counter = counter;
  divider = timer_div divide;
  vector = control_vector vector (l.regs timerctrl_reg) periodic masked h i;
  periodic = control_periodic vector (l.regs timerctrl_reg) periodic masked i;
  masked = control_masked vector (l.regs timerctrl_reg) periodic masked i;
}
