-- ===== src/Tests/Detection.antt =====
-- machine/apicsystem.cc: the detection of a system that ACPI describes, at a concrete memory.
use mpstu_bs.Prelude.{
  ℕ, zero, suc, ◌+◌, ◌*◌, ◌/◌, ◌^◌, ◌<◌, ◌≤◌, ◌≡◌, refl, ap, ◌∙◌, ◌⊎◌, inl, inr, true, false, none,
  some, List, [], ◌∷◌, ltb, ◌==◌, if◌then◌else◌, length, arith, Bool-cases,
}
use mpstu_bs.Machine.SystemConfig.{
  Memory, u16_at, u32_at, sum_bytes, sums_to_zero, SystemConfig, system_configuration,
}
use mpstu_bs.Machine.SystemConfig.Stored.{Stored}
use mpstu_bs.Machine.Acpi.{
  found, absent, is_rsdp, rsdp_checksum, find, find_in, find_loop, madt_loop,
}
use mpstu_bs.Machine.Acpi.Register.{Walk, ids, any_behind}
use mpstu_bs.Machine.MpTable.{Detection, is_mpfps}
use mpstu_bs.Machine.MpTable.Search.{NoStructure}
use mpstu_bs.Machine.System.{System, mp_apic, up_apic, areas, detect_system_type}
use mpstu_bs.Machine.System.Detect.{NoneIn, registered, pointers, detect_system_type-madt}

abbrev bytes_at : ℕ → List ℕ → Memory
bytes_at start [] a = 0
bytes_at start (x ∷ xs) a = if a == start then x else bytes_at (start + 1) xs a

-- A root pointer of ACPI 1.0 at 0xe0000, its root table at 0x300000 with one pointer, and a MADT of
-- 60 bytes at 0x300040 with two enabled local APICs, 7 and 9.
abbrev tables : Memory
tables a =
    bytes_at 0x300004 (40 ∷ []) a
    + bytes_at 0x300024 (0x40 ∷ 0 ∷ 0x30 ∷ []) a
    + bytes_at 0x300040 (b'A' ∷ b'P' ∷ b'I' ∷ b'C' ∷ 60 ∷ []) a
    + bytes_at 0x30006c (0 ∷ 8 ∷ 0 ∷ 7 ∷ 1 ∷ 0 ∷ 0 ∷ 0 ∷ 0 ∷ 8 ∷ 1 ∷ 9 ∷ 1 ∷ []) a

abbrev root : Memory
root = bytes_at 0xe0000 (
    b'R' ∷ b'S' ∷ b'D' ∷ b' ' ∷ b'P' ∷ b'T' ∷ b'R' ∷ b' ' ∷ 0xb1 ∷ 0 ∷ 0 ∷ 0 ∷ 0 ∷ 0 ∷ 0 ∷ 0 ∷ 0 ∷ 0
    ∷ 0x30 ∷ [])

unfoldable pc : Memory
pc a =
    if ltb a 0xe0000
    then 0
    else if ltb a 0xf0000
    then root a
    else if ltb a 0x300000
    then 0
    else tables a

-- An address that no table stands at.
abbrev Quiet : ℕ → Type 0
Quiet a = (a < 0xe0000) ⊎ ((0xf0000 ≤ a) × (a < 0x300000))

pc_zero : (a : ℕ) → Quiet a → pc a ≡ 0
unfolding pc
pc_zero a (inl h) = ground arith
pc_zero a (inr (l, h)) = ground arith

pc-is_mpfps : (a : ℕ) → Quiet a → is_mpfps pc a ≡ false
unfolding is_mpfps
pc-is_mpfps a q =
    let e = pc_zero a q in
    let other : (u32_at pc a == b'_' * 2 ^ 24 + b'P' * 2 ^ 16 + b'M' * 2 ^ 8 + b'_') ≡ false =
      rw e (ground arith) in
    rw other refl

pc-is_rsdp : (a : ℕ) → Quiet a → is_rsdp pc a ≡ false
unfolding is_rsdp
pc-is_rsdp a q =
    let e = pc_zero a q in
    let other : (u32_at pc a == b'R' + b'S' * 2 ^ 8 + b'D' * 2 ^ 16 + b' ' * 2 ^ 24) ≡ false =
      rw e (ground arith) in
    rw other refl

-- A part of the memory of k places.
below : (k bp : ℕ) → bp + k * 16 ≤ 0xe0000 → NoStructure pc k bp
below zero bp h = tt
below (suc k) bp h = (pc-is_mpfps bp (inl (omega arith)), below k (bp + 16) (omega arith))

above : (k bp : ℕ) → 0xf0000 ≤ bp → bp + k * 16 ≤ 0x300000 → NoStructure pc k bp
above zero bp l h = tt
above (suc k) bp l h =
    (pc-is_mpfps bp (inr (l, omega arith)), above k (bp + 16) (omega arith) (omega arith))

no_areas : NoneIn pc (areas pc)
unfolding pc
no_areas = (
  below (1024 / 16) (u16_at pc 0x40e * 2 ^ 4 / 16 * 16) (omega arith),
  (
    below (1024 / 16) (u16_at pc 0x413 * 1024 / 16 * 16) (omega arith),
    (
      below (1024 / 16) (511 * 1024 / 16 * 16) (omega arith),
      (
        below (1024 / 16) (639 * 1024 / 16 * 16) (omega arith),
        (above (0x10000 / 16) (0xf0000 / 16 * 16) (omega arith) (omega arith), tt),
      ),
    ),
  ),
)

find_loop-absent : (k s : ℕ) → 0 < k → 0x410 ≤ s + 16 * k → find_loop pc k s 0x400 ≡ absent
unfolding find_loop
find_loop-absent zero s pos h = absurd (omega arith)
find_loop-absent (suc k) s pos h = elim (Bool-cases (ltb s 0x400)) [
  | inl more ↦
      let low : s < 0x400 = ground arith in
      let miss = pc-is_rsdp s (inl (omega arith)) in
      rw (more, miss, find_loop) (find_loop-absent k (s + 16) (omega arith) (omega arith))
  | inr over ↦ rw (over, find_loop) refl
]

find_loop-found :
    (k s end : ℕ) → ltb s end ≡ true → is_rsdp pc s ≡ true → find_loop pc (suc k) s end ≡ found s
unfolding find_loop
find_loop-found k s end more hit = rw (more, hit, find_loop) refl

at_root : is_rsdp pc 0xe0000 ≡ true
unfolding pc is_rsdp rsdp_checksum sums_to_zero sum_bytes
at_root = refl

find-second :
    (a : ℕ)
    → find_in pc (u32_at pc 0x40e) 0x400 ≡ absent
    → find_in pc 0xe0000 0x20000 ≡ found a
    → find pc ≡ found a
unfolding find
find-second a e f = rw (e, f, find) refl

ebda : u32_at pc 0x40e ≡ 0
unfolding pc
ebda = refl

pc-find : find pc ≡ found 0xe0000
pc-find =
    find-second 0xe0000
      (ap (λ b. find_in pc b 0x400) ebda ∙ find_loop-absent 0x401 0 (omega arith) (omega arith))
      (find_loop-found 0x20000 0xe0000 0x100000 refl at_root)

pc-madt_loop :
    madt_loop pc (pointers pc 0xe0000) (u32_at pc (0xe0000 + 16) + 36) none ≡ some 0x300040
unfolding pc madt_loop
pc-madt_loop = refl

abbrev fresh : SystemConfig
fresh = system_configuration (λ i. 0)

abbrev no_table : Detection
no_table = record {
  conf = fresh;
  lapic_version = λ i. 0;
  cpu_family = λ i. 0;
  cpu_model = λ i. 0;
  compatibility_mode = 0;
}

detect_system_type-madt_example :
    (es : List ℕ) × Walk pc (0x300040 + u32_at pc (0x300040 + 4)) (0x300040 + 44) es
    × (((any_behind pc es ≡ true) × (detect_system_type pc 0 no_table fresh ≡ none))
        ⊎ ((any_behind pc es ≡ false)
            × (s : System) × (detect_system_type pc 0 no_table fresh ≡ some s)
            × (s.system_type ≡ (if ltb 1 (length (ids pc es)) then mp_apic else up_apic))
            × (s.sys_conf.cpu_count
                ≡ (if ltb 1 (length (ids pc es)) then registered (ids pc es) else 1))
            × Stored s.sys_conf.lapic_id 0 8 (ids pc es)))
unfolding system_configuration
detect_system_type-madt_example =
    detect_system_type-madt pc 0 0xe0000 0x300040 no_table fresh no_areas refl refl pc-find
      pc-madt_loop
