-- ===== src/Tests/Systems.antt =====
-- machine/apicsystem.cc and machine/acpi.cc at concrete inputs.
use mpstu_bs.Prelude.{
  not, ◌&&◌, has, take, ℕ, ◌+◌, ◌-◌, ◌^◌, ◌<◌, ◌≡◌, refl, ◌⊎◌, true, false, none, some, List, [],
  ◌∷◌, ◌==◌, if◌then◌else◌, arith,
}
use mpstu_bs.Prelude.Fields.{get_field}
use mpstu_bs.Machine.Lapic.{is_external_apic, Lapic, ldr_reg, icrl_reg, icrh_reg}
use mpstu_bs.Machine.SystemConfig.{Memory, u16_at, u32_at, SystemConfig, system_configuration}
use mpstu_bs.Machine.Acpi.{absent, found, find, Parse, overrun, parsed, parse_madt}
use mpstu_bs.Machine.Acpi.Find.{IsFirst, find-IsFirst}
use mpstu_bs.Machine.Acpi.Register.{Walk, ids, any_behind, Registered}
use mpstu_bs.Machine.Acpi.Madt.{parse_madt-Registered}
use mpstu_bs.Machine.MpTable.{Detection, read_mpct}
use mpstu_bs.Machine.MpTable.Entries.{Blocks, Unknown, enabled, Added}
use mpstu_bs.Machine.MpTable.Read.{read_mpct-Added}
use mpstu_bs.Machine.System.{mp_apic, generate_irq_map}
use mpstu_bs.Machine.System.IrqMap.{filled, Never, generate_irq_map_lem}
use mpstu_bs.Machine.System.Boot.{Boot, boot_cpu, Processor, get_cpu_id, setup_this_processor}
use mpstu_bs.Machine.System.Start.{setup_this_processor_lem}
use mpstu_bs.Machine.System.Started.{nameable, messages, Sent, boot_cpu-Tried}

-- Some bytes from an address on, and zeroes elsewhere.
abbrev bytes_at : ℕ → List ℕ → Memory
bytes_at start [] a = 0
bytes_at start (x ∷ xs) a = if a == start then x else bytes_at (start + 1) xs a

abbrev untouched : SystemConfig
untouched = system_configuration (λ i. 0)

-- A root pointer of ACPI 1.0 at the start of the BIOS's memory, with its checksum.
abbrev bios : Memory
bios = bytes_at 0xe0000 (b'R' ∷ b'S' ∷ b'D' ∷ b' ' ∷ b'P' ∷ b'T' ∷ b'R' ∷ b' ' ∷ 0xe1 ∷ [])

find-IsFirst_example :
    ((a : ℕ) × (find bios ≡ found a)
      × ((a == 0) ≡ false)
      × IsFirst bios (u32_at bios 0x40e) (u32_at bios 0x40e + 0x400) (found a))
    ⊎ ((IsFirst bios (u32_at bios 0x40e) (u32_at bios 0x40e + 0x400) absent
          ⊎ IsFirst bios (u32_at bios 0x40e) (u32_at bios 0x40e + 0x400) (found 0))
        × IsFirst bios 0xe0000 0x100000 (find bios))
find-IsFirst_example = find-IsFirst bios

-- A MADT at 0x1000 of 60 bytes: a local APIC that is enabled, and one that is not.
abbrev firmware : Memory
firmware a =
    bytes_at 0x1004 (60 ∷ []) a
    + bytes_at 0x102c (0 ∷ 8 ∷ 0 ∷ 7 ∷ 1 ∷ 0 ∷ 0 ∷ 0 ∷ 0 ∷ 8 ∷ 1 ∷ 9 ∷ []) a

parse_madt-Registered_example :
    (es : List ℕ) × Walk firmware (0x1000 + u32_at firmware (0x1000 + 4)) (0x1000 + 44) es
    × (((parse_madt firmware 0x1000 untouched ≡ overrun) × (any_behind firmware es ≡ true))
        ⊎ ((p : Parse) × (parse_madt firmware 0x1000 untouched ≡ parsed p)
            × (any_behind firmware es ≡ false)
            × Registered untouched.bsp_id (ids firmware es) p))
unfolding system_configuration
parse_madt-Registered_example = parse_madt-Registered firmware 0x1000 untouched refl

abbrev undetected_yet : Detection
undetected_yet = record {
  conf = untouched;
  lapic_version = λ i. 0;
  cpu_family = λ i. 0;
  cpu_model = λ i. 0;
  compatibility_mode = 0;
}

-- A table of 64 bytes with one enabled processor.
abbrev table : Memory
table a =
    bytes_at 0x2000 (b'P' ∷ b'C' ∷ b'M' ∷ b'P' ∷ 64 ∷ 0 ∷ 0 ∷ 0x74 ∷ []) a
    + bytes_at 0x202c (0 ∷ 5 ∷ 0x14 ∷ 3 ∷ []) a

read_mpct-Added_example :
    ((es : List ℕ) × Blocks table (u16_at table (0x2000 + 4)) (0x2000 + 44) 44 es
      × (d' : Detection) × (read_mpct table 100 0x2000 undetected_yet ≡ some d')
      × Added undetected_yet.conf.cpu_count (enabled table es) d')
    ⊎ (Unknown table (u16_at table (0x2000 + 4)) (0x2000 + 44) 44
        × (read_mpct table 100 0x2000 undetected_yet ≡ none))
unfolding mpstu_bs.Machine.SystemConfig.mpb_checksum_ok mpstu_bs.Machine.SystemConfig.sum_bytes
read_mpct-Added_example = read_mpct-Added table 100 0x2000 undetected_yet refl refl (omega arith)

-- The timer is redirected from interrupt 0 to slot 2.
abbrev redirected : SystemConfig
redirected = record untouched { ioapic_irqs = λ i. if i == 2 then 0 else 255 }

generate_irq_map_lem_example :
    ((generate_irq_map redirected).ioapic_irqs 2 ≡ filled redirected.ioapic_irqs 2)
    × (((slot : ℕ) × (slot < 24)
          × (filled redirected.ioapic_irqs slot ≡ 0)
          × ((generate_irq_map redirected).slot_map 0 ≡ slot)
          × Never (filled redirected.ioapic_irqs) 0 (slot + 1) (24 - (slot + 1)))
        ⊎ (Never (filled redirected.ioapic_irqs) 0 0 24
            × ((generate_irq_map redirected).slot_map 0 ≡ redirected.slot_map 0)))
generate_irq_map_lem_example = generate_irq_map_lem redirected 2 0 (omega arith)

-- A local APIC of a Pentium 4, whose messages are delivered at once.
abbrev local : Lapic
local = record {
  regs = λ r. if r == 0x30 then 0x14 else 0;
  commands = 0 ∷ 0 ∷ 0 ∷ 0 ∷ [];
  counts = [];
  gates = [];
  written = [];
  sent = [];
}

abbrev starting : Processor
starting = record { lapic = local; cpu_id = λ i. 0; logical_lapic_id = λ i. 0; callout = 1 }

setup_this_processor_lem_example :
    (q : Processor) × (setup_this_processor starting ≡ some q)
    × (get_cpu_id mp_apic q ≡ starting.callout)
    × (q.logical_lapic_id starting.callout ≡ 2 ^ starting.callout)
    × (get_field 24 8 (q.lapic.regs ldr_reg) ≡ 2 ^ starting.callout)
    × (q.cpu_id 3 ≡ starting.cpu_id 3)
    × (q.logical_lapic_id 0 ≡ starting.logical_lapic_id 0)
    × (q.callout ≡ 255)
unfolding mpstu_bs.Machine.Lapic.get_lapic_id mpstu_bs.Machine.Lapic.is_pentium4_or_newer
setup_this_processor_lem_example =
    setup_this_processor_lem starting 3 0 (omega arith) refl (λ e. absurd (omega arith))
      (omega arith)

abbrev booting : Boot
booting = record { lapic = local; online = 1; ports = []; words = []; callout = 255 }

-- The processor 1 calls in at the second look.
boot_cpu-Tried_example :
    (b' : Boot) × (boot_cpu 1 1 0x40000 0 0 (7 ∷ 255 ∷ []) booting
      ≡ some (
        nameable 0x40000 && not (is_external_apic local) && has 255 (take 500 (7 ∷ 255 ∷ [])),
        b',
      ))
    × (b'.online ≡ (
        if nameable 0x40000 && not (is_external_apic local) && has 255 (take 500 (7 ∷ 255 ∷ []))
        then booting.online + 1
        else booting.online))
    × Sent (messages (nameable 0x40000) (is_external_apic local) 1 0x40000) [] b'.lapic.written
boot_cpu-Tried_example =
    boot_cpu-Tried 1 1 0x40000 0 0 0 0 0 0 [] (7 ∷ 255 ∷ []) booting (omega arith) refl refl refl
      refl refl
