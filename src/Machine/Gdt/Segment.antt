-- ===== src/Machine/Gdt/Segment.antt =====
-- machine/gdt.h: the segment that a processor reads from a descriptor.
use mpstu_bs.Prelude.{
  ℕ, ◌+◌, ◌*◌, ◌/◌, ◌^◌, ◌<◌, ◌≤◌, ◌≡◌, ap, ◌∙◌, Bool, ltb, ◌==◌, if◌then◌else◌, arith,
}
use mpstu_bs.Prelude.Fields.{get_field}
use mpstu_bs.Machine.Gdt.{GdtDescriptor, value, gdt_descriptor}
use mpstu_bs.Machine.Gdt.Members.{Fits, members_of-value, value_lt}

-- Where the segment of a descriptor starts.
abbrev pub segment_base : ℕ → ℕ
segment_base v = get_field 16 24 v + get_field 56 8 v * 2 ^ 24

-- Its last offset: in bytes, or in pages of 4096 bytes.
abbrev pub last_offset : ℕ → ℕ
last_offset v =
    let raw = get_field 0 16 v + get_field 48 4 v * 2 ^ 16 in
    if get_field 55 1 v == 1 then raw * 4096 + 4095 else raw

gdt_descriptor-Fits :
    (base limit : ℕ) (code user wide : Bool) → Fits (gdt_descriptor base limit code user wide)
unfolding gdt_descriptor
gdt_descriptor-Fits base limit code user wide = record {
  limit_low = ground arith;
  base_low = omega arith;
  accessed = omega arith;
  read_write = omega arith;
  conforming_expand_down = omega arith;
  code = ground arith;
  always_1 = omega arith;
  dpl = ground arith;
  present = omega arith;
  limit_high = ground arith;
  available = omega arith;
  always_0 = omega arith;
  big = ground arith;
  granularity = ground arith;
  base_high = omega arith;
}

last_offset-members :
    (d : GdtDescriptor)
    → Fits d
    → last_offset (value d) ≡ (
        if d.granularity == 1
        then (d.limit_low + d.limit_high * 2 ^ 16) * 4096 + 4095
        else d.limit_low + d.limit_high * 2 ^ 16)
last_offset-members d f =
    let e = members_of-value d f in
    ap
      (λ (x : GdtDescriptor).
        if x.granularity == 1
        then (x.limit_low + x.limit_high * 2 ^ 16) * 4096 + 4095
        else x.limit_low + x.limit_high * 2 ^ 16)
      e

segment_base-members :
    (d : GdtDescriptor) → Fits d → segment_base (value d) ≡ d.base_low + d.base_high * 2 ^ 24
segment_base-members d f =
    ap (λ (x : GdtDescriptor). x.base_low + x.base_high * 2 ^ 24) (members_of-value d f)

-- A processor that reads the descriptor of a segment finds its base, and as its last offset the
-- limit when that has 16 bits, else the end of the page of the limit, so that the segment is never
-- shorter than asked for and at most 4095 bytes longer.
pub gdt_descriptor_lem :
    (base limit : ℕ) (code user wide : Bool)
    → base < 2 ^ 32
    → limit < 2 ^ 32
    → let v = value (gdt_descriptor base limit code user wide) in
      (segment_base v ≡ base)
      × (last_offset v ≡ (if ltb 0xffff limit then limit / 4096 * 4096 + 4095 else limit))
      × (limit ≤ last_offset v)
      × (last_offset v ≤ limit + 4095)
      × (v < 2 ^ 64)
unfolding gdt_descriptor
gdt_descriptor_lem base limit code user wide b l =
    let d = gdt_descriptor base limit code user wide in
    let f = gdt_descriptor-Fits base limit code user wide in
    let e = last_offset-members d f in
    let n : last_offset (value d)
        ≡ (if ltb 0xffff limit then limit / 4096 * 4096 + 4095 else limit) =
      e ∙ ground arith in
    (
      segment_base-members d f ∙ omega arith,
      n,
      rw n (ground arith),
      rw n (ground arith),
      value_lt d f,
    )
