-- ===== src/Machine/Gdt.antt =====
-- machine/gdt.h and machine/gdt.cc: the descriptors of the segments.
pub mod Members
pub mod Segment
use mpstu_bs.Prelude.{
  ℕ, ◌+◌, ◌-◌, ◌*◌, ◌/◌, ◌%◌, ◌^◌, Bool, true, false, List, [], ◌∷◌, ltb, if◌then◌else◌, length,
}

-- The members of GDTDescriptor, each a number below 2 to its width.
pub record GdtDescriptor : Type 0 where
  pub limit_low : ℕ
  pub base_low : ℕ
  pub accessed : ℕ
  pub read_write : ℕ
  pub conforming_expand_down : ℕ
  pub code : ℕ
  pub always_1 : ℕ
  pub dpl : ℕ
  pub present : ℕ
  pub limit_high : ℕ
  pub available : ℕ
  pub always_0 : ℕ
  pub big : ℕ
  pub granularity : ℕ
  pub base_high : ℕ

-- The member `value` of the union.
unfoldable pub value : GdtDescriptor → ℕ
value d =
    d.limit_low
    + d.base_low * 2 ^ 16
    + d.accessed * 2 ^ 40
    + d.read_write * 2 ^ 41
    + d.conforming_expand_down * 2 ^ 42
    + d.code * 2 ^ 43
    + d.always_1 * 2 ^ 44
    + d.dpl * 2 ^ 45
    + d.present * 2 ^ 47
    + d.limit_high * 2 ^ 48
    + d.available * 2 ^ 52
    + d.always_0 * 2 ^ 53
    + d.big * 2 ^ 54
    + d.granularity * 2 ^ 55
    + d.base_high * 2 ^ 56

-- The constructor for a segment.
unfoldable pub gdt_descriptor : ℕ → ℕ → Bool → Bool → Bool → GdtDescriptor
gdt_descriptor base limit code user wide = record {
  limit_low = if ltb 0xffff limit then limit / 2 ^ 12 % 2 ^ 16 else limit % 2 ^ 16;
  base_low = base % 2 ^ 24;
  accessed = 0;
  read_write = 1;
  conforming_expand_down = 0;
  code = if code then 1 else 0;
  always_1 = 1;
  dpl = if user then 3 else 0;
  present = 1;
  limit_high = if ltb 0xffff limit then limit / 2 ^ 28 % 2 ^ 4 else limit / 2 ^ 16 % 2 ^ 4;
  available = 0;
  always_0 = 0;
  big = if wide then 1 else 0;
  granularity = if ltb 0xffff limit then 1 else 0;
  base_high = base / 2 ^ 24 % 2 ^ 8;
}

-- The table, by the values of its descriptors.
abbrev pub gdt_descriptors : List ℕ
gdt_descriptors =
    0
    ∷ value (gdt_descriptor 0 0xffffffff true false true)
    ∷ value (gdt_descriptor 0 0xffffffff false false true)
    ∷ value (gdt_descriptor 0x90000 0xffff false false false)
    ∷ value (gdt_descriptor 0x90000 0xffff true false false)
    ∷ []

-- The `limit` of `gdt_desc_global`
abbrev pub gdt_limit : ℕ
gdt_limit = 8 * length gdt_descriptors - 1
