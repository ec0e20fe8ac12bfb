-- ===== src/Machine/System.antt =====
-- machine/apicsystem.h and machine/apicsystem.cc: the detection of the system, and the interrupt map.
pub mod IrqMap
pub mod Select
pub mod Boot
pub mod Start
pub mod Message
pub mod Started
pub mod Detect
pub mod Model
pub mod Relocate
use mpstu_bs.Prelude.{
  ℕ, zero, suc, ◌+◌, ◌-◌, ◌*◌, ◌/◌, ◌%◌, ◌^◌, Bool, true, false, not, ◌&&◌, Option, none, some,
  List, [], ◌∷◌, ltb, leb, ◌==◌, if◌then◌else◌,
}
use mpstu_bs.Machine.SystemConfig.{Memory, u16_at, SystemConfig, put_at}
use mpstu_bs.Machine.Acpi.{Parse, spent, overrun, parsed, query_acpi}
use mpstu_bs.Machine.MpTable.{Detection, search_config}

-- The first loop of `generateIRQMap`, `k` interrupts from `i` on.
unfoldable pub fill_irqs : ℕ → ℕ → (ℕ → ℕ) → ℕ → ℕ
fill_irqs zero i irqs = irqs
fill_irqs (suc k) i irqs = fill_irqs k (i + 1) (if irqs i == 255 then put_at i i irqs else irqs)

-- The second loop, `k` slots from `i` on.
unfoldable pub fill_slots : ℕ → ℕ → (ℕ → ℕ) → (ℕ → ℕ) → ℕ → ℕ
fill_slots zero i irqs slots = slots
fill_slots (suc k) i irqs slots =
    fill_slots k (i + 1) irqs (if ltb (irqs i) 16 then put_at (irqs i) i slots else slots)

-- `generateIRQMap`
unfoldable pub generate_irq_map : SystemConfig → SystemConfig
generate_irq_map c =
    let irqs = fill_irqs 16 0 c.ioapic_irqs in
    record c { ioapic_irqs = irqs; slot_map = fill_slots 24 0 irqs c.slot_map }

pub data SystemType : Type 0 where
  mp_apic up_apic undetected : SystemType

-- `online_cpus` keeps its value in a multiprocessor system; `ports` are the writes of `disablePICs`.
pub record System : Type 0 where
  pub system_type : SystemType
  pub online_cpus : ℕ
  pub sys_conf : SystemConfig
  pub ports : List (ℕ × ℕ)

-- `disablePICs`, the latest write first
abbrev pub disable_pics : List (ℕ × ℕ)
disable_pics = (0x23, 0x01) ∷ (0x22, 0x70) ∷ []

-- The part of `detectSystemType` behind the two searches. The type UNDETECTED, which it assigns
-- without an I/O APIC, is overwritten at once.
unfoldable pub select_conf : SystemConfig → SystemConfig → System
select_conf mps acpi =
    let chosen = if leb mps.cpu_count acpi.cpu_count then acpi else mps in
    let writes = if chosen.disable_pics then disable_pics else [] in
    if ltb 1 chosen.cpu_count
    then record { system_type = mp_apic; online_cpus = 1; sys_conf = chosen; ports = writes }
    else record {
      system_type = up_apic;
      online_cpus = 1;
      sys_conf = record chosen { cpu_count = 1 };
      ports = writes;
    }

-- The searches, joined by `||`: the next is made only when the last was false.
unfoldable pub search_all : Memory → ℕ → List (ℕ × ℕ) → Detection → Option Detection
search_all m fuel [] d = some d
search_all m fuel ((base, length) ∷ areas) d = elim (search_config m fuel base length d) [
  | none ↦ none
  | some (true, d') ↦ some d'
  | some (false, d') ↦ search_all m fuel areas d'
]

-- The areas in which `detectSystemType` searches.
abbrev pub areas : Memory → List (ℕ × ℕ)
areas m =
    (u16_at m 0x40e * 2 ^ 4, 1024)
    ∷ (u16_at m 0x413 * 1024, 1024)
    ∷ (511 * 1024, 1024)
    ∷ (639 * 1024, 1024)
    ∷ (0xf0000, 0x10000)
    ∷ []

-- `detectSystemType`; `none` is a table that is never left, or a write behind an array.
unfoldable pub detect_system_type : Memory → ℕ → Detection → SystemConfig → Option System
detect_system_type m fuel mps acpi = elim (search_all m fuel (areas m) mps) [
  | none ↦ none
  | some d ↦ elim (query_acpi m acpi) [
    | parsed p ↦ some (select_conf d.conf (generate_irq_map p.conf))
    | _ ↦ none
  ]
]

-- `getIOAPICSlot`, an `unsigned char`
abbrev pub get_ioapic_slot : ℕ → System → ℕ
get_ioapic_slot device s = s.sys_conf.slot_map device
