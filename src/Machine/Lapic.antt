-- ===== src/Machine/Lapic.antt =====
-- machine/lapic.h, machine/lapic.cc and machine/lapic_registers.h: the registers of the local APIC,
-- but for the values that its timer is given (Machine/LapicTimer.antt).
pub mod Ipi
pub mod Setup
use mpstu_bs.Prelude.{
  ℕ, zero, suc, ◌+◌, ◌-◌, ◌*◌, ◌/◌, ◌%◌, ◌^◌, Bool, true, false, not, Option, none, some, List, [],
  ◌∷◌, leb, ◌==◌, if◌then◌else◌, bit_and,
}
use mpstu_bs.Prelude.Fields.{get_field, set_field}
use mpstu_bs.Utils.Math.{u64, div64}
use mpstu_bs.Machine.LapicTimer.{timer_div}

-- The registers by their offset. What the hardware changes by itself is a list of the values to come:
-- of the interrupt command register, of the timer's counter, and of the port 0x61 of the interval
-- timer. What the code writes is kept, the latest first: offsets and ports with their values.
pub record Lapic : Type 0 where
  pub regs : ℕ → ℕ
  pub commands : List ℕ
  pub counts : List ℕ
  pub gates : List ℕ
  pub written : List (ℕ × ℕ)
  pub sent : List (ℕ × ℕ)

abbrev pub lapicid_reg : ℕ
lapicid_reg = 0x020

abbrev pub lapicver_reg : ℕ
lapicver_reg = 0x030

abbrev pub tpr_reg : ℕ
tpr_reg = 0x080

abbrev pub eoi_reg : ℕ
eoi_reg = 0x0b0

abbrev pub ldr_reg : ℕ
ldr_reg = 0x0d0

abbrev pub dfr_reg : ℕ
dfr_reg = 0x0e0

abbrev pub spiv_reg : ℕ
spiv_reg = 0x0f0

abbrev pub icrl_reg : ℕ
icrl_reg = 0x300

abbrev pub icrh_reg : ℕ
icrh_reg = 0x310

abbrev pub timerctrl_reg : ℕ
timerctrl_reg = 0x320

abbrev pub icr_reg : ℕ
icr_reg = 0x380

abbrev pub dcr_reg : ℕ
dcr_reg = 0x3e0

unfoldable pub write : ℕ → ℕ → Lapic → Lapic
write reg value l = record l {
  regs = λ r. if r == reg then value else l.regs r;
  written = (reg, value) ∷ l.written;
}

-- A register that is read, changed and written back.
abbrev pub change : ℕ → (ℕ → ℕ) → Lapic → Lapic
change reg f l = write reg (f (l.regs reg)) l

-- `out_byte` on a port
abbrev out_byte : ℕ → ℕ → Lapic → Lapic
out_byte port byte l = record l { sent = (port, byte) ∷ l.sent }

abbrev pub get_version : Lapic → ℕ
get_version l = get_field 0 8 (l.regs lapicver_reg)

unfoldable pub is_external_apic : Lapic → Bool
is_external_apic l = bit_and (get_version l) 0xf0 == 0x00

unfoldable pub is_local_apic : Lapic → Bool
is_local_apic l = bit_and (get_version l) 0xf0 == 0x10

unfoldable pub is_pentium4_or_newer : Lapic → Bool
is_pentium4_or_newer l = leb 0x14 (get_version l)

unfoldable pub get_lapic_id : Lapic → ℕ
unfolding is_pentium4_or_newer
get_lapic_id l =
    let value = l.regs lapicid_reg in
    if is_pentium4_or_newer l then get_field 24 8 value else get_field 24 4 value

unfoldable pub init : Lapic → Lapic
init l =
    let l1 = change ldr_reg (set_field 24 8 0) l in
    let l2 = change tpr_reg (λ v. set_field 0 4 0 (set_field 4 4 0 v)) l1 in
    let l3 = change dfr_reg (set_field 28 4 0xf) l2 in
    change spiv_reg (λ v. set_field 9 1 1 (set_field 8 1 1 (set_field 0 8 0xff v))) l3

unfoldable pub ack_irq : Lapic → Lapic
ack_irq l = write eoi_reg 0 l

unfoldable pub set_logical_lapic_id : ℕ → Lapic → Lapic
set_logical_lapic_id id l = change ldr_reg (set_field 24 8 id) l

-- `isIPIDelivered` on a value of the interrupt command register.
abbrev pub idle : ℕ → Bool
idle value = get_field 12 1 value == 0

-- A read of `icrl_reg`; `none` is a read that is never answered.
unfoldable pub is_ipi_delivered : Lapic → Option (Bool × Lapic)
is_ipi_delivered l = elim l.commands [
  | [] ↦ none
  | value ∷ rest ↦ some (idle value, record l { commands = rest })
]

-- `while (!isIPIDelivered())`, over the values to come.
unfoldable pub wait_delivered : List ℕ → Option (List ℕ)
wait_delivered [] = none
wait_delivered (value ∷ rest) = elim (idle value) [ true ↦ some rest | false ↦ wait_delivered rest ]

-- `data` is the whole word of the interrupt command.
unfoldable pub send_ipi : ℕ → ℕ → Lapic → Option Lapic
send_ipi destination command l = elim (wait_delivered l.commands) [
  | none ↦ none
  | some rest ↦
      let l1 = change icrh_reg (set_field 24 8 destination) (record l { commands = rest }) in
      some (write icrl_reg command l1)
]

abbrev pub bit : Bool → ℕ
bit b = if b then 1 else 0

-- `setTimer`
unfoldable pub write_timer : ℕ → ℕ → ℕ → Bool → Bool → Lapic → Lapic
write_timer counter divide vector periodic masked l =
    let l1 =
      change timerctrl_reg
        (λ v. set_field 17 2 (bit periodic) (set_field 16 1 (bit masked) (set_field 0 8 vector v)))
        l in
    write dcr_reg (timer_div divide) (write icr_reg counter l1)

-- `while (!(help.inb() & 0x20))`, over the values to come.
unfoldable pub wait_gate : List ℕ → Option (List ℕ)
wait_gate [] = none
wait_gate (value ∷ rest) = elim (bit_and value 0x20 == 0) [
  | true ↦ wait_gate rest
  | false ↦ some rest
]

-- The two readings of the counter, and the wait for the interval timer between them: the ticks, and
-- what is left of the values to come.
unfoldable pub measure : List ℕ → List ℕ → Option (ℕ × List ℕ × List ℕ)
measure [] gates = none
measure (first ∷ []) gates = none
measure (first ∷ second ∷ rest) gates = elim (wait_gate gates) [
  | none ↦ none
  | some gates' ↦ some ((first + 2 ^ 32 - second) % 2 ^ 32, rest, gates')
]

-- `timer_ticks`
unfoldable pub timer_ticks : Lapic → Option (ℕ × Lapic)
timer_ticks l =
    let l1 = out_byte 0x61 0x01 (write_timer 0xffffffff 1 42 false true l) in
    let l2 = out_byte 0x42 0xff (out_byte 0x42 0xff (out_byte 0x43 0xb0 l1)) in
    elim (measure l2.counts l2.gates) [
      | none ↦ none
      | some (ticks, counts, gates) ↦
          let l3 = write_timer 0 1 42 false true (record l2 { counts = counts; gates = gates }) in
          elim (div64 (u64 (ticks * 1000 * 1000)) (838 * 65535)) [
            | none ↦ none
            | some (freq, rem) ↦ some (freq % 2 ^ 32, l3)
          ]
    ]
