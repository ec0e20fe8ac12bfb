-- ===== src/Machine/System/Detect.antt =====
-- APICSystem::detectSystemType as a whole, on a machine that only ACPI describes.
use mpstu_bs.Prelude.{
  ℕ, ◌+◌, ◌*◌, ◌/◌, ◌-◌, ◌%◌, ◌^◌, ◌≡◌, refl, sym, ap, subst, ◌∙◌, ◌⊎◌, inl, inr, true, false,
  Option, none, some, List, [], ◌∷◌, ltb, leb, if◌then◌else◌, length, arith,
}
use mpstu_bs.Utils.Math.{max_of}
use mpstu_bs.Machine.SystemConfig.{Memory, u32_at, SystemConfig}
use mpstu_bs.Machine.SystemConfig.Stored.{Stored}
use mpstu_bs.Machine.Acpi.{
  Parse, Parsed, found, find, madt_loop, spent, overrun, parsed, parse_madt, query_acpi,
}
use mpstu_bs.Machine.Acpi.Register.{Walk, ids, any_behind, Registered}
use mpstu_bs.Machine.Acpi.Madt.{parse_madt-Registered}
use mpstu_bs.Machine.MpTable.{Detection}
use mpstu_bs.Machine.MpTable.Search.{NoStructure, search_config-none}
use mpstu_bs.Machine.System.{
  System, mp_apic, up_apic, generate_irq_map, select_conf, search_all, areas, detect_system_type,
}
use mpstu_bs.Machine.System.Select.{select_conf_lem}

-- No area has a structure of the multiprocessor specification.
abbrev pub NoneIn : Memory → List (ℕ × ℕ) → Type 0
NoneIn m [] = Unit
NoneIn m ((base, length) ∷ rest) = NoStructure m (length / 16) (base / 16 * 16) × NoneIn m rest

search_all-none :
    (m : Memory) (fuel : ℕ) (rest : List (ℕ × ℕ)) (d : Detection)
    → NoneIn m rest
    → search_all m fuel rest d ≡ some d
unfolding search_all
search_all-none m fuel [] d n = refl
search_all-none m fuel ((base, length) ∷ rest) d n =
    rw (search_config-none m fuel base length d n.0, search_all) (search_all-none m fuel rest d n.1)

-- The number of pointers in the root table of a root pointer.
abbrev pub pointers : Memory → ℕ → ℕ
pointers m rsdp = (u32_at m (u32_at m (rsdp + 16) + 4) + 2 ^ 32 - 36) % 2 ^ 32 / 4

query_acpi-madt :
    (m : Memory) (rsdp madt : ℕ) (conf : SystemConfig)
    → find m ≡ found rsdp
    → madt_loop m (pointers m rsdp) (u32_at m (rsdp + 16) + 36) none ≡ some madt
    → query_acpi m conf ≡ parse_madt m madt conf
unfolding query_acpi
query_acpi-madt m rsdp madt conf f e = rw (f, e, query_acpi) refl

-- How the detection ends when the search found nothing and ACPI gave `r`.
abbrev concluded : Detection → Parsed → Option System
concluded d spent = none
concluded d overrun = none
concluded d (parsed p) = some (select_conf d.conf (generate_irq_map p.conf))

detect-query :
    (m : Memory) (fuel : ℕ) (d : Detection) (acpi : SystemConfig) (r : Parsed)
    → NoneIn m (areas m)
    → query_acpi m acpi ≡ r
    → detect_system_type m fuel d acpi ≡ concluded d r
unfolding detect_system_type
detect-query m fuel d acpi spent n e =
    rw (search_all-none m fuel (areas m) d n, e, detect_system_type) refl
detect-query m fuel d acpi overrun n e =
    rw (search_all-none m fuel (areas m) d n, e, detect_system_type) refl
detect-query m fuel d acpi (parsed p) n e =
    rw (search_all-none m fuel (areas m) d n, e, detect_system_type) refl

-- How many processors are registered.
abbrev pub registered : List ℕ → ℕ
registered xs = if ltb (length xs) 8 then length xs else 8

select-registered :
    (m : Memory) (bsp : ℕ) (xs : List ℕ) (mps : SystemConfig) (p : Parse)
    → mps.cpu_count ≡ 0
    → Registered bsp xs p
    → let s = select_conf mps (generate_irq_map p.conf) in
      (s.system_type ≡ (if ltb 1 (length xs) then mp_apic else up_apic))
      × (s.sys_conf.cpu_count ≡ (if ltb 1 (length xs) then registered xs else 1))
      × Stored s.sys_conf.lapic_id 0 8 xs
unfolding generate_irq_map max_of
select-registered m bsp xs mps p fresh r =
    let (count, kind, slots, local, ports) = select_conf_lem mps (generate_irq_map p.conf) in
    let c = r.count in
    let acpi : leb mps.cpu_count p.conf.cpu_count ≡ true = ground arith in
    let larger : max_of mps.cpu_count p.conf.cpu_count ≡ registered xs = ground arith in
    let many : ltb 1 (registered xs) ≡ ltb 1 (length xs) = ground arith in
    let chosen : (if leb mps.cpu_count p.conf.cpu_count
          then generate_irq_map p.conf
          else mps).lapic_id
        ≡ p.conf.lapic_id =
      rw acpi refl in
    (
      kind
          ∙ ap (λ n. if ltb 1 n then mp_apic else up_apic) larger
          ∙ ap (λ b. if b then mp_apic else up_apic) many,
      count
          ∙ ap (λ n. if ltb 1 n then n else 1) larger
          ∙ ap (λ b. if b then registered xs else 1) many,
      subst (λ f. Stored f 0 8 xs) (sym (local ∙ chosen)) r.stored,
    )

-- On a machine without structures of the multiprocessor specification, whose root table leads to a
-- MADT, the detection ends as the table says, for configurations without processors. If one of
-- its structures redirects an ISA interrupt behind `ioapic_irqs`, that write is the end. Otherwise the
-- system is a multiprocessor exactly if two processors or more are enabled, with the identifications
-- of the first eight in the order of the table.
pub detect_system_type-madt :
    (m : Memory) (fuel rsdp madt : ℕ) (mps : Detection) (acpi : SystemConfig)
    → NoneIn m (areas m)
    → mps.conf.cpu_count ≡ 0
    → acpi.cpu_count ≡ 0
    → find m ≡ found rsdp
    → madt_loop m (pointers m rsdp) (u32_at m (rsdp + 16) + 36) none ≡ some madt
    → (es : List ℕ) × Walk m (madt + u32_at m (madt + 4)) (madt + 44) es
      × (((any_behind m es ≡ true) × (detect_system_type m fuel mps acpi ≡ none))
          ⊎ ((any_behind m es ≡ false)
              × (s : System) × (detect_system_type m fuel mps acpi ≡ some s)
              × (s.system_type ≡ (if ltb 1 (length (ids m es)) then mp_apic else up_apic))
              × (s.sys_conf.cpu_count
                  ≡ (if ltb 1 (length (ids m es)) then registered (ids m es) else 1))
              × Stored s.sys_conf.lapic_id 0 8 (ids m es)))
detect_system_type-madt m fuel rsdp madt mps acpi n fresh fresh' f e =
    let (es, walk, ends) = parse_madt-Registered m madt acpi fresh' in
    let q = query_acpi-madt m rsdp madt acpi f e in
    (
      es,
      walk,
      elim ends [
        | inl (lost, behind) ↦ inl (behind, detect-query m fuel mps acpi overrun n (q ∙ lost))
        | inr (p, known, inside, r) ↦
            let (kind, count, stored) =
              select-registered m acpi.bsp_id (ids m es) mps.conf p fresh r in
            inr (
              inside,
              _,
              detect-query m fuel mps acpi (parsed p) n (q ∙ known),
              kind,
              count,
              stored,
            )
      ],
    )
