-- ===== src/Machine/System/Select.antt =====
-- APICSystem::detectSystemType behind its searches: which configuration counts, and as what system.
use mpstu_bs.Prelude.{◌≡◌, refl, [], ltb, leb, if◌then◌else◌, arith, Bool-cases, inl, inr}
use mpstu_bs.Utils.Math.{max_of}
use mpstu_bs.Machine.SystemConfig.{SystemConfig}
use mpstu_bs.Machine.System.{mp_apic, up_apic, disable_pics, select_conf}

-- The larger number of processors counts. Above one the system is a multiprocessor with that number,
-- else a uniprocessor with one processor: it is never left undetected, and never without a
-- processor. The old interrupt controllers are disabled when the configuration that counts says so.
pub select_conf_lem :
    (mps acpi : SystemConfig)
    → let n = max_of mps.cpu_count acpi.cpu_count in
      let s = select_conf mps acpi in
      let chosen = if leb mps.cpu_count acpi.cpu_count then acpi else mps in
      (s.sys_conf.cpu_count ≡ (if ltb 1 n then n else 1))
      × (s.system_type ≡ (if ltb 1 n then mp_apic else up_apic))
      × (s.sys_conf.slot_map ≡ chosen.slot_map)
      × (s.sys_conf.lapic_id ≡ chosen.lapic_id)
      × (s.ports ≡ (if chosen.disable_pics then disable_pics else []))
unfolding select_conf max_of
select_conf_lem mps acpi = elim (Bool-cases (leb mps.cpu_count acpi.cpu_count)) [
  | inl le ↦
      let n : max_of mps.cpu_count acpi.cpu_count ≡ acpi.cpu_count = ground arith in
      rw (le, n)
        (elim (Bool-cases (ltb 1 acpi.cpu_count)) [
          | inl many ↦ rw many (refl, refl, refl, refl, refl)
          | inr one ↦ rw one (refl, refl, refl, refl, refl)
        ])
  | inr gt ↦
      let n : max_of mps.cpu_count acpi.cpu_count ≡ mps.cpu_count = ground arith in
      rw (gt, n)
        (elim (Bool-cases (ltb 1 mps.cpu_count)) [
          | inl many ↦ rw many (refl, refl, refl, refl, refl)
          | inr one ↦ rw one (refl, refl, refl, refl, refl)
        ])
]
