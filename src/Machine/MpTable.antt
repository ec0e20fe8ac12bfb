-- ===== src/Machine/MpTable.antt =====
-- machine/mp_registers.h, and `searchConfig` and `readMPCT` of machine/apicsystem.cc: the
-- configuration tables of the multiprocessor specification.
pub mod Entries
pub mod Read
pub mod Search
use mpstu_bs.Prelude.{
  ℕ, zero, suc, ◌+◌, ◌-◌, ◌*◌, ◌/◌, ◌%◌, ◌^◌, Bool, true, false, not, ◌&&◌, ◌||◌, Option, none,
  some, ltb, leb, ◌==◌, if◌then◌else◌, bit_and,
}
use mpstu_bs.Machine.SystemConfig.{
  Memory, u16_at, u32_at, mpb_checksum_ok, SystemConfig, cpu_max, put_at,
}

-- The configuration, and the fields of APICSystem that describe the processors.
pub record Detection : Type 0 where
  pub conf : SystemConfig
  pub lapic_version : ℕ → ℕ
  pub cpu_family : ℕ → ℕ
  pub cpu_model : ℕ → ℕ
  pub compatibility_mode : ℕ

abbrev pub mpct_processor : ℕ
mpct_processor = 0

abbrev pub mpct_bus : ℕ
mpct_bus = 1

abbrev pub mpct_ioapic : ℕ
mpct_ioapic = 2

abbrev pub mpct_ioint : ℕ
mpct_ioint = 3

abbrev pub mpct_lint : ℕ
mpct_lint = 4

-- `case MPCT_PROCESSOR`
unfoldable pub processor : Memory → ℕ → Detection → Detection
processor m a d =
    let flag = m (a + 3) in
    let signature = u32_at m (a + 4) in
    let c = d.conf in
    let counted = record c {
      cpu_count = c.cpu_count + 1;
      bsp_id = if bit_and flag 2 == 0 then c.bsp_id else m (a + 1);
    } in
    let current = c.cpu_count in
    if bit_and flag 1 == 0
    then d
    else if leb counted.cpu_count cpu_max
    then record d {
      conf = record counted { lapic_id = put_at current (m (a + 1)) c.lapic_id };
      lapic_version = put_at current (m (a + 2)) d.lapic_version;
      cpu_family = put_at current (bit_and signature 0xf00 / 2 ^ 8) d.cpu_family;
      cpu_model = put_at current (bit_and signature 0xf0 / 2 ^ 4) d.cpu_model;
    }
    else record d { conf = counted }

-- `case MPCT_IOINT`
unfoldable pub ioint : Memory → ℕ → Detection → Detection
ioint m a d =
    let irq = m (a + 5) in
    let slot = m (a + 7) in
    if (m (a + 4) == 0) && ltb irq 16 && ltb slot 24
    then record d {
      conf = record (d.conf) {
        ioapic_irqs = put_at slot irq d.conf.ioapic_irqs;
        slot_map = put_at irq slot d.conf.slot_map;
      };
    }
    else d

-- What the `switch` does for an entry, and how many bytes it goes on; an entry of another type is
-- met by no case.
unfoldable pub block : Memory → ℕ → Detection → Detection × ℕ
block m a d =
    if m a == mpct_processor
    then (processor m a d, 20)
    else if m a == mpct_ioapic
    then (record d { conf = record (d.conf) { ioapic_id = m (a + 1) } }, 8)
    else if m a == mpct_bus
    then (d, 8)
    else if m a == mpct_ioint
    then (ioint m a d, 8)
    else if m a == mpct_lint
    then (d, 8)
    else (d, 0)

-- The loop `while (count < mpcth->length)`; `none` is the end of the fuel.
unfoldable pub read_loop : Memory → ℕ → ℕ → ℕ → ℕ → Detection → Option Detection
read_loop m zero a count length d = none
read_loop m (suc k) a count length d =
    let (d', size) = block m a d in
    let rest = read_loop m k (a + size) (count + size) length d' in
    if ltb count length then rest else some d

-- The interrupts of the ISA bus, before the table is read.
abbrev pub isa_slots : ℕ → ℕ
isa_slots i = if i == 0 then 2 else if i == 1 then 1 else if i == 2 then 255 else i

abbrev pub with_isa_slots : Detection → Detection
with_isa_slots d = record d {
  conf = record (d.conf) { slot_map = λ i. if ltb i 16 then isa_slots i else d.conf.slot_map i };
}

-- `readMPCT`; a wrong signature or checksum changes nothing.
unfoldable pub read_mpct : Memory → ℕ → ℕ → Detection → Option Detection
read_mpct m fuel mpcth d =
    let length = u16_at m (mpcth + 4) in
    if not (
      (m mpcth == b'P')
      && (m (mpcth + 1) == b'C')
      && (m (mpcth + 2) == b'M')
      && (m (mpcth + 3) == b'P'))
    then some d
    else if not (mpb_checksum_ok m mpcth length)
    then some d
    else read_loop m fuel (mpcth + 44) 44 length (with_isa_slots d)

-- The tests of `searchConfig` at an address.
unfoldable pub is_mpfps : Memory → ℕ → Bool
is_mpfps m bp =
    (u32_at m bp == b'_' * 2 ^ 24 + b'P' * 2 ^ 16 + b'M' * 2 ^ 8 + b'_')
    && (m (bp + 8) == 1)
    && mpb_checksum_ok m bp 16
    && ((m (bp + 9) == 1) || (m (bp + 9) == 4))

-- What `searchConfig` does with the structure that it finds.
unfoldable pub use_mpfps : Memory → ℕ → ℕ → Detection → Option Detection
use_mpfps m fuel bp d =
    let mode = bit_and (m (bp + 12)) 0x80 in
    let c = d.conf in
    let d1 = record d {
      compatibility_mode = mode;
      conf = if mode == 0x80 then record c { disable_pics = true } else c;
    } in
    let physptr = u32_at m (bp + 4) in
    if not (m (bp + 11) == 0)
    then some d1
    else if not (physptr == 0)
    then read_mpct m fuel physptr d1
    else some d1

-- The loop of `searchConfig`, `k` places of sixteen bytes from `bp` on.
unfoldable pub search_loop : Memory → ℕ → ℕ → ℕ → Detection → Option (Bool × Detection)
search_loop m fuel zero bp d = some (false, d)
search_loop m fuel (suc k) bp d =
    let rest = search_loop m fuel k (bp + 16) d in
    elim (is_mpfps m bp) [
      | false ↦ rest
      | true ↦ elim (use_mpfps m fuel bp d) [
        | none ↦ none
        | some d' ↦ some (ltb 1 d'.conf.cpu_count, d')
      ]
    ]

-- `searchConfig`, for a length that is a multiple of sixteen.
unfoldable pub search_config : Memory → ℕ → ℕ → ℕ → Detection → Option (Bool × Detection)
search_config m fuel base length d = search_loop m fuel (length / 16) (base / 16 * 16) d
