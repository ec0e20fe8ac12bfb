-- ===== src/Tests/Segments.antt =====
-- machine/gdt.h at concrete descriptors.
use mpstu_bs.Prelude.{ℕ, ◌+◌, ◌*◌, ◌/◌, ◌^◌, ◌<◌, ◌≤◌, ◌≡◌, true, false, ltb, if◌then◌else◌, arith}
use mpstu_bs.Machine.Gdt.{value, gdt_descriptor}
use mpstu_bs.Machine.Gdt.Segment.{segment_base, last_offset, gdt_descriptor_lem}

-- A code segment of real mode.
abbrev real_mode : ℕ
real_mode = value (gdt_descriptor 0x90000 0xffff true false false)

gdt_descriptor_lem_example :
    (segment_base real_mode ≡ 0x90000)
    × (last_offset real_mode ≡ (if ltb 0xffff 0xffff then 0xffff / 4096 * 4096 + 4095 else 0xffff))
    × (0xffff ≤ last_offset real_mode)
    × (last_offset real_mode ≤ 0xffff + 4095)
    × (real_mode < 2 ^ 64)
gdt_descriptor_lem_example =
    gdt_descriptor_lem 0x90000 0xffff true false false (omega arith) (omega arith)
