-- ===== src/Machine/Ioapic.antt =====
-- machine/ioapic.h, machine/ioapic.cc and machine/ioapic_registers.h: the redirection table of the
-- I/O APIC behind its two memory-mapped registers.
pub mod Entry
pub mod Table
pub mod Init
use mpstu_bs.Prelude.{
  ℕ, zero, suc, ◌+◌, ◌*◌, ◌/◌, ◌%◌, ◌^◌, Bool, true, false, not, ◌==◌, if◌then◌else◌,
}
use mpstu_bs.Prelude.Fields.{get_field, set_field}

-- The registers of the device, each of 32 bits, and `IOREGSEL`.
pub record Ioapic : Type 0 where
  pub regs : ℕ → ℕ
  pub ioregsel : ℕ

-- `*IOREGSEL_REG = index`
abbrev pub select : ℕ → Ioapic → Ioapic
select index s = record s { ioregsel = index }

-- A read of `*IOWIN_REG`.
abbrev pub iowin : Ioapic → ℕ
iowin s = s.regs s.ioregsel

-- `*IOWIN_REG = value`
abbrev pub write_iowin : ℕ → Ioapic → Ioapic
write_iowin value s = record s { regs = λ i. if i == s.ioregsel then value else s.regs i }

-- The members of `IOAPICRegister`, as they are assigned.
abbrev pub set_id : ℕ → ℕ → ℕ
set_id = set_field 24 4

abbrev pub set_vector : ℕ → ℕ → ℕ
set_vector = set_field 0 8

abbrev pub set_delivery_mode : ℕ → ℕ → ℕ
set_delivery_mode = set_field 8 3

abbrev pub set_destination_mode : ℕ → ℕ → ℕ
set_destination_mode = set_field 11 1

abbrev pub set_polarity : ℕ → ℕ → ℕ
set_polarity = set_field 13 1

abbrev pub set_trigger_mode : ℕ → ℕ → ℕ
set_trigger_mode = set_field 15 1

abbrev pub set_mask : ℕ → ℕ → ℕ
set_mask = set_field 16 1

abbrev pub set_logical_destination : ℕ → ℕ → ℕ
set_logical_destination = set_field 24 8

-- Select a register, read it, change it and write it back.
unfoldable pub modify : ℕ → (ℕ → ℕ) → Ioapic → Ioapic
modify index change s = let s1 = select index s in write_iowin (change (iowin s1)) s1

-- The loop that makes the mask of the processors, an `uint8_t`.
unfoldable pub cpumask : ℕ → ℕ
cpumask zero = 0
cpumask (suc cpus) = (cpumask cpus * 2 + 1) % 2 ^ 8

-- What `init` assigns to the lower word of each slot, in this order.
unfoldable pub reset_low : ℕ → ℕ
reset_low v =
    let v1 = set_vector 34 v in
    let v2 = set_delivery_mode 1 v1 in
    let v3 = set_destination_mode 1 v2 in
    let v4 = set_polarity 0 v3 in let v5 = set_trigger_mode 0 v4 in set_mask 1 v5

-- The loop over the slots, `k` slots from `i` on.
unfoldable pub init_slots : ℕ → ℕ → ℕ → Ioapic → Ioapic
init_slots zero i cpus s = s
init_slots (suc k) i cpus s = init_slots k (i + 1) cpus (
    modify (i * 2 + 0x10 + 1) (set_logical_destination (cpumask cpus))
      (modify (i * 2 + 0x10) reset_low s))

-- `init`; the identification and the number of processors are those that the system detected.
unfoldable pub init : ℕ → ℕ → Ioapic → Ioapic
init id cpus s = init_slots 24 0 cpus (modify 0 (set_id id) s)

unfoldable pub config : ℕ → ℕ → Ioapic → Ioapic
config slot vector s = modify (slot * 2 + 0x10) (λ v. set_trigger_mode 0 (set_vector vector v)) s

unfoldable pub allow : ℕ → Ioapic → Ioapic
allow slot s = modify (slot * 2 + 0x10) (set_mask 0) s

unfoldable pub forbid : ℕ → Ioapic → Ioapic
forbid slot s = modify (slot * 2 + 0x10) (set_mask 1) s

-- `status`; the register stays selected.
unfoldable pub status : ℕ → Ioapic → Bool × Ioapic
status slot s = let s1 = select (slot * 2 + 0x10) s in (not (get_field 16 1 (iowin s1) == 1), s1)
