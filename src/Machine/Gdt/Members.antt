-- ===== src/Machine/Gdt/Members.antt =====
-- machine/gdt.h: the union of the members of a descriptor and its value.
use mpstu_bs.Prelude.{ℕ, ◌^◌, ◌<◌, ◌≡◌, arith}
use mpstu_bs.Prelude.Fields.{get_field}
use mpstu_bs.Machine.Gdt.{GdtDescriptor, value}

-- Each member is below 2 to its width.
pub record Fits (d : GdtDescriptor) : Type 0 where
  pub limit_low : d.limit_low < 2 ^ 16
  pub base_low : d.base_low < 2 ^ 24
  pub accessed : d.accessed < 2
  pub read_write : d.read_write < 2
  pub conforming_expand_down : d.conforming_expand_down < 2
  pub code : d.code < 2
  pub always_1 : d.always_1 < 2
  pub dpl : d.dpl < 4
  pub present : d.present < 2
  pub limit_high : d.limit_high < 2 ^ 4
  pub available : d.available < 2
  pub always_0 : d.always_0 < 2
  pub big : d.big < 2
  pub granularity : d.granularity < 2
  pub base_high : d.base_high < 2 ^ 8

-- The members of the union, read from its `value`.
abbrev pub members_of : ℕ → GdtDescriptor
members_of v = record {
  limit_low = get_field 0 16 v;
  base_low = get_field 16 24 v;
  accessed = get_field 40 1 v;
  read_write = get_field 41 1 v;
  conforming_expand_down = get_field 42 1 v;
  code = get_field 43 1 v;
  always_1 = get_field 44 1 v;
  dpl = get_field 45 2 v;
  present = get_field 47 1 v;
  limit_high = get_field 48 4 v;
  available = get_field 52 1 v;
  always_0 = get_field 53 1 v;
  big = get_field 54 1 v;
  granularity = get_field 55 1 v;
  base_high = get_field 56 8 v;
}

record Same (d e : GdtDescriptor) : Type 0 where
  limit_low : d.limit_low ≡ e.limit_low
  base_low : d.base_low ≡ e.base_low
  accessed : d.accessed ≡ e.accessed
  read_write : d.read_write ≡ e.read_write
  conforming_expand_down : d.conforming_expand_down ≡ e.conforming_expand_down
  code : d.code ≡ e.code
  always_1 : d.always_1 ≡ e.always_1
  dpl : d.dpl ≡ e.dpl
  present : d.present ≡ e.present
  limit_high : d.limit_high ≡ e.limit_high
  available : d.available ≡ e.available
  always_0 : d.always_0 ≡ e.always_0
  big : d.big ≡ e.big
  granularity : d.granularity ≡ e.granularity
  base_high : d.base_high ≡ e.base_high

same : (d e : GdtDescriptor) → Same d e → d ≡ e
same d e s = λ i. record {
  limit_low = s.limit_low i;
  base_low = s.base_low i;
  accessed = s.accessed i;
  read_write = s.read_write i;
  conforming_expand_down = s.conforming_expand_down i;
  code = s.code i;
  always_1 = s.always_1 i;
  dpl = s.dpl i;
  present = s.present i;
  limit_high = s.limit_high i;
  available = s.available i;
  always_0 = s.always_0 i;
  big = s.big i;
  granularity = s.granularity i;
  base_high = s.base_high i;
}

pub members_of-value : (d : GdtDescriptor) → Fits d → members_of (value d) ≡ d
unfolding value
members_of-value d f =
    let f_limit_low = f.limit_low in
    let f_base_low = f.base_low in
    let f_accessed = f.accessed in
    let f_read_write = f.read_write in
    let f_conforming_expand_down = f.conforming_expand_down in
    let f_code = f.code in
    let f_always_1 = f.always_1 in
    let f_dpl = f.dpl in
    let f_present = f.present in
    let f_limit_high = f.limit_high in
    let f_available = f.available in
    let f_always_0 = f.always_0 in
    let f_big = f.big in
    let f_granularity = f.granularity in
    let f_base_high = f.base_high in
    same _ _ record {
      limit_low = omega arith;
      base_low = omega arith;
      accessed = omega arith;
      read_write = omega arith;
      conforming_expand_down = omega arith;
      code = omega arith;
      always_1 = omega arith;
      dpl = omega arith;
      present = omega arith;
      limit_high = omega arith;
      available = omega arith;
      always_0 = omega arith;
      big = omega arith;
      granularity = omega arith;
      base_high = omega arith;
    }

pub value_lt : (d : GdtDescriptor) → Fits d → value d < 2 ^ 64
unfolding value
value_lt d f =
    let f_limit_low = f.limit_low in
    let f_base_low = f.base_low in
    let f_accessed = f.accessed in
    let f_read_write = f.read_write in
    let f_conforming_expand_down = f.conforming_expand_down in
    let f_code = f.code in
    let f_always_1 = f.always_1 in
    let f_dpl = f.dpl in
    let f_present = f.present in
    let f_limit_high = f.limit_high in
    let f_available = f.available in
    let f_always_0 = f.always_0 in
    let f_big = f.big in
    let f_granularity = f.granularity in let f_base_high = f.base_high in omega arith
