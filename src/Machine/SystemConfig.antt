-- ===== src/Machine/SystemConfig.antt =====
-- machine/apicsystem.h, `system_configuration`, and the bytes of the memory in which the firmware
-- leaves its tables.
pub mod Stored
use mpstu_bs.Prelude.{ℕ, zero, suc, ◌+◌, ◌-◌, ◌*◌, ◌%◌, ◌^◌, Bool, false, ◌==◌, if◌then◌else◌}

-- The bytes at each address; words are little-endian.
abbrev pub Memory : Type 0
Memory = ℕ → ℕ

abbrev pub u16_at : Memory → ℕ → ℕ
u16_at m a = m a + m (a + 1) * 2 ^ 8

abbrev pub u32_at : Memory → ℕ → ℕ
u32_at m a = m a + m (a + 1) * 2 ^ 8 + m (a + 2) * 2 ^ 16 + m (a + 3) * 2 ^ 24

-- The sum of `len` bytes, the loop of both checksums.
unfoldable pub sum_bytes : Memory → ℕ → ℕ → ℕ → ℕ
sum_bytes m zero start sum = sum
sum_bytes m (suc len) start sum = sum_bytes m len (start + 1) (sum + m start)

-- `mpbChecksumOK`
unfoldable pub mpb_checksum_ok : Memory → ℕ → ℕ → Bool
unfolding sum_bytes
mpb_checksum_ok m start len = sum_bytes m len start 0 % 2 ^ 8 == 0

-- `sums_to_zero`
unfoldable pub sums_to_zero : Memory → ℕ → ℕ → Bool
unfolding sum_bytes
sums_to_zero m start len = if len == 0 then false else sum_bytes m len start 0 % 2 ^ 8 == 0

abbrev pub cpu_max : ℕ
cpu_max = 8

-- A `char` and an `int` are their bit patterns: -1 is 255, and `2 ^ 32 - 1`.
pub record SystemConfig : Type 0 where
  pub cpu_count : ℕ
  pub bsp_id : ℕ
  pub ioapic_id : ℕ
  pub disable_pics : Bool
  pub ioapic_irqs : ℕ → ℕ
  pub slot_map : ℕ → ℕ
  pub lapic_id : ℕ → ℕ

-- The constructor; `lapic_id` is what its memory held.
unfoldable pub system_configuration : (ℕ → ℕ) → SystemConfig
system_configuration garbage = record {
  cpu_count = 0;
  bsp_id = 0;
  ioapic_id = 2 ^ 32 - 1;
  disable_pics = false;
  ioapic_irqs = λ i. 255;
  slot_map = λ i. 255;
  lapic_id = garbage;
}

-- `array[i] = x`
abbrev pub put_at : ℕ → ℕ → (ℕ → ℕ) → ℕ → ℕ
put_at i x array j = if j == i then x else array j
