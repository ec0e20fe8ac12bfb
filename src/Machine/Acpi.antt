-- ===== src/Machine/Acpi.antt =====
-- machine/acpi.h, machine/acpi.cc, and `queryACPI` of machine/apicsystem.cc: the processors and
-- interrupts that the tables of ACPI name.
pub mod Find
pub mod Register
pub mod Madt
use mpstu_bs.Prelude.{
  ℕ, zero, suc, ◌+◌, ◌-◌, ◌*◌, ◌/◌, ◌%◌, ◌^◌, Bool, true, false, not, ◌&&◌, ◌||◌, Option, none,
  some, ltb, leb, ◌==◌, if◌then◌else◌,
}
use mpstu_bs.Machine.SystemConfig.{Memory, u32_at, sums_to_zero, SystemConfig, cpu_max, put_at}

-- `CHARS_TO_UINT32`
abbrev pub chars : ℕ → ℕ → ℕ → ℕ → ℕ
chars a b c d = a + b * 2 ^ 8 + c * 2 ^ 16 + d * 2 ^ 24

-- `RSDP::is_ACPI_1_0` and `RSDP::check_sum`
abbrev pub is_acpi_1_0 : Memory → ℕ → Bool
is_acpi_1_0 m rsdp = m (rsdp + 15) == 0

unfoldable pub rsdp_checksum : Memory → ℕ → Bool
rsdp_checksum m rsdp =
    if is_acpi_1_0 m rsdp
    then sums_to_zero m rsdp 20
    else sums_to_zero m rsdp (u32_at m (rsdp + 20))

-- Whether the body of the loop of `RSDP::find` returns at an address.
unfoldable pub is_rsdp : Memory → ℕ → Bool
is_rsdp m a =
    (u32_at m a == chars b'R' b'S' b'D' b' ')
    && (u32_at m (a + 4) == chars b'P' b'T' b'R' b' ')
    && rsdp_checksum m a

-- How a search ends; `lost` is the end of the fuel.
pub data Found : Type 0 where
  lost : Found
  absent : Found
  found : ℕ → Found

-- The loop of `RSDP::find`, sixteen bytes a step.
unfoldable pub find_loop : Memory → ℕ → ℕ → ℕ → Found
find_loop m zero search end = lost
find_loop m (suc k) search end =
    let rest = find_loop m k (search + 16) end in
    if ltb search end then (if is_rsdp m search then found search else rest) else absent

abbrev pub find_in : Memory → ℕ → ℕ → Found
find_in m start len = find_loop m (len + 1) start (start + len / 4 * 4)

-- `RSDP::find` without arguments: the pointer at 0x40e first, then the memory of the BIOS. What is
-- found at the address 0 is a null pointer, and counts as nothing found.
unfoldable pub find : Memory → Found
find m = elim (find_in m (u32_at m 0x40e) 0x400) [
  | found a ↦ if a == 0 then find_in m 0xe0000 0x20000 else found a
  | absent ↦ find_in m 0xe0000 0x20000
  | lost ↦ lost
]

-- The loop over the pointers of the root table; the last table of the type counts.
unfoldable pub madt_loop : Memory → ℕ → ℕ → Option ℕ → Option ℕ
madt_loop m zero pointer madt = madt
madt_loop m (suc n) pointer madt =
    let entry = u32_at m pointer in
    madt_loop m n (pointer + 4)
      (if u32_at m entry == chars b'A' b'P' b'I' b'C' then some entry else madt)

-- The local variables of the loop over the structures of a MADT.
pub record Parse : Type 0 where
  pub conf : SystemConfig
  pub found_bsp : Bool

-- `case APIC_Structure::LOCAL_APIC`
unfoldable pub local_apic : Memory → ℕ → Parse → Parse
local_apic m entry p =
    let c = p.conf in
    let current_cpu = c.cpu_count % 2 ^ 8 in
    let id = m (entry + 3) in
    if m (entry + 4) % 2 == 0
    then p
    else if (c.cpu_count == cpu_max) || leb cpu_max current_cpu
    then p
    else record {
      conf = record c {
        cpu_count = c.cpu_count + 1;
        lapic_id = put_at current_cpu id c.lapic_id;
        bsp_id = if p.found_bsp then c.bsp_id else id;
      };
      found_bsp = true;
    }

-- `case APIC_Structure::IO_APIC`; the identification is a signed `char`.
unfoldable pub io_apic : Memory → ℕ → Parse → Parse
io_apic m entry p =
    let id = m (entry + 2) in
    record p { conf = record (p.conf) { ioapic_id = if ltb id 128 then id else 2 ^ 32 - 256 + id } }

-- `case APIC_Structure::SOURCE_OVERRIDE`; `none` is a write behind `ioapic_irqs`.
unfoldable pub source_override : Memory → ℕ → Parse → Option Parse
source_override m entry p =
    let gsi = u32_at m (entry + 4) in
    if not (m (entry + 2) == 0)
    then some p
    else if ltb gsi 24
    then some (record p {
      conf = record (p.conf) { ioapic_irqs = put_at gsi (m (entry + 3)) p.conf.ioapic_irqs };
    })
    else none

-- The `switch` over the type of a structure.
unfoldable pub structure : Memory → ℕ → Parse → Option Parse
structure m entry p =
    if m entry == 0
    then some (local_apic m entry p)
    else if m entry == 1
    then some (io_apic m entry p)
    else if m entry == 2
    then source_override m entry p
    else some p

-- How the loop ends; `overrun` is the write behind `ioapic_irqs`.
pub data Parsed : Type 0 where
  spent : Parsed
  overrun : Parsed
  parsed : Parse → Parsed

unfoldable pub parse_loop : Memory → ℕ → ℕ → ℕ → Parse → Parsed
parse_loop m zero entry end p = spent
parse_loop m (suc k) entry end p =
    let next : Parsed = elim (structure m entry p) [
      | none ↦ overrun
      | some p' ↦ parse_loop m k (entry + m (entry + 1)) end p'
    ] in
    if ltb entry end then (if m (entry + 1) == 0 then parsed p else next) else parsed p

-- From the MADT on; a set flag PCAT_COMPAT asks for the old interrupt controllers to be disabled.
unfoldable pub parse_madt : Memory → ℕ → SystemConfig → Parsed
parse_madt m madt conf =
    let c = if m (madt + 40) % 2 == 1 then record conf { disable_pics = true } else conf in
    let end = madt + u32_at m (madt + 4) in
    parse_loop m (u32_at m (madt + 4) + 1) (madt + 44) end (record { conf = c; found_bsp = false })

-- `queryACPI`. A root table at the null pointer is logged and then read.
unfoldable pub query_acpi : Memory → SystemConfig → Parsed
query_acpi m conf = elim (find m) [
  | lost ↦ spent
  | absent ↦ parsed (record { conf = conf; found_bsp = false })
  | found rsdp ↦
      let rsdt = u32_at m (rsdp + 16) in
      let entries = (u32_at m (rsdt + 4) + 2 ^ 32 - 36) % 2 ^ 32 / 4 in
      elim (madt_loop m entries (rsdt + 36) none) [
        | none ↦ parsed (record { conf = conf; found_bsp = false })
        | some madt ↦ parse_madt m madt conf
      ]
]
