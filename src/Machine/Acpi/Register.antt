-- ===== src/Machine/Acpi/Register.antt =====
-- queryACPI: what one structure of a MADT changes in the configuration.
use mpstu_bs.Prelude.{
  ℕ, ◌+◌, ◌%◌, ◌^◌, ◌≤◌, ◌<◌, ◌≡◌, refl, ap, ◌∙◌, ◌⊎◌, inl, inr, Bool, true, false, not, ◌&&◌, ◌||◌,
  none, some, List, [], ◌∷◌, ◌++◌, ltb, leb, ◌==◌, if◌then◌else◌, length, length-append, append-nil,
  arith, Bool-cases,
}
use mpstu_bs.Machine.SystemConfig.{Memory, u32_at, put_at}
use mpstu_bs.Machine.SystemConfig.Stored.{Stored, Stored-full, Stored-snoc}
use mpstu_bs.Machine.Acpi.{Parse, local_apic, io_apic, source_override, structure}

-- The structures that the table holds, one after the other, up to its end or to one without length.
pub data Walk (m : Memory) (end : ℕ) : ℕ → List ℕ → Type 0 where
  over : {entry : ℕ} → end ≤ entry → Walk m end entry []
  no_length : {entry : ℕ} → entry < end → m (entry + 1) ≡ 0 → Walk m end entry []
  next :
      {entry : ℕ} {es : List ℕ}
      → entry < end
      → 0 < m (entry + 1)
      → Walk m end (entry + m (entry + 1)) es
      → Walk m end entry (entry ∷ es)

-- The identifications of the enabled local APICs among some structures.
abbrev pub ids : Memory → List ℕ → List ℕ
ids m [] = []
ids m (e ∷ es) = if (m e == 0) && not (m (e + 4) % 2 == 0) then m (e + 3) ∷ ids m es else ids m es

-- Whether a structure redirects an interrupt of the ISA bus that has no place in `ioapic_irqs`.
abbrev pub redirects_behind : Memory → ℕ → Bool
redirects_behind m e = (m e == 2) && (m (e + 2) == 0) && leb 24 (u32_at m (e + 4))

abbrev pub any_behind : Memory → List ℕ → Bool
any_behind m [] = false
any_behind m (e ∷ es) = redirects_behind m e || any_behind m es

abbrev pub first_or : List ℕ → ℕ → ℕ
first_or [] d = d
first_or (x ∷ xs) d = x

-- The configuration after the processors `xs` were met: at most eight are registered, in this order,
-- and the first is the boot processor.
pub record Registered (bsp : ℕ) (xs : List ℕ) (p : Parse) : Type 0 where
  pub count : p.conf.cpu_count ≡ (if ltb (length xs) 8 then length xs else 8)
  pub stored : Stored p.conf.lapic_id 0 8 xs
  pub boot : p.conf.bsp_id ≡ first_or xs bsp
  pub known : p.found_bsp ≡ ltb 0 (length xs)

first_or-snoc :
    (xs : List ℕ) (x d : ℕ)
    → first_or (xs ++ x ∷ []) d ≡ (if ltb 0 (length xs) then first_or xs d else x)
first_or-snoc [] x d = refl
first_or-snoc (y ∷ ys) x d = ground arith

-- An enabled local APIC.
local_apic-Registered :
    (m : Memory) (e bsp : ℕ) (xs : List ℕ) (p : Parse)
    → (m (e + 4) % 2 == 0) ≡ false
    → Registered bsp xs p
    → Registered bsp (xs ++ m (e + 3) ∷ []) (local_apic m e p)
unfolding local_apic
local_apic-Registered m e bsp xs p on r =
    let n : length (xs ++ m (e + 3) ∷ []) ≡ length xs + 1 = length-append xs (m (e + 3) ∷ []) in
    elim (Bool-cases (ltb (length xs) 8)) [
      | inl room ↦
          let c : p.conf.cpu_count ≡ length xs = r.count ∙ rw room refl in
          let small : p.conf.cpu_count % 2 ^ 8 ≡ p.conf.cpu_count = ground arith in
          let free : ((p.conf.cpu_count == 8) || leb 8 p.conf.cpu_count) ≡ false = ground arith in
          rw (on, small, free)
            record {
              count = ground arith;
              stored =
                  Stored-snoc xs p.conf.lapic_id 0 8 p.conf.cpu_count (m (e + 3)) (omega arith)
                    r.stored;
              boot = ground (arith, first_or-snoc xs (m (e + 3)) bsp);
              known = ground arith;
            }
      | inr full ↦
          let c : p.conf.cpu_count ≡ 8 = r.count ∙ rw full refl in
          rw (on, c)
            record {
              count = ground arith;
              stored = Stored-full xs p.conf.lapic_id 0 8 (m (e + 3)) (ground arith) r.stored;
              boot = ground (arith, first_or-snoc xs (m (e + 3)) bsp);
              known = ground arith;
            }
    ]

local_apic-off :
    (m : Memory) (e : ℕ) (p : Parse) → (m (e + 4) % 2 == 0) ≡ true → local_apic m e p ≡ p
unfolding local_apic
local_apic-off m e p off = rw off refl

-- What one structure does.
pub structure-Registered :
    (m : Memory) (e bsp : ℕ) (xs : List ℕ) (p : Parse)
    → Registered bsp xs p
    → ((structure m e p ≡ none) × (redirects_behind m e ≡ true))
      ⊎ ((p' : Parse) × (structure m e p ≡ some p')
          × (redirects_behind m e ≡ false)
          × Registered bsp (xs ++ ids m (e ∷ [])) p')
unfolding structure source_override io_apic
structure-Registered m e bsp xs p r = elim (Bool-cases (m e == 0)) [
  | inl lapic ↦
      let t : m e ≡ 0 = ground arith in
      let quiet : redirects_behind m e ≡ false = ground arith in
      elim (Bool-cases (m (e + 4) % 2 == 0)) [
        | inl off ↦
            inr (
              p,
              rw t (ap some (local_apic-off m e p off)),
              quiet,
              rw (lapic, off, append-nil xs) r,
            )
        | inr on ↦ inr (
          local_apic m e p,
          rw t refl,
          quiet,
          rw (lapic, on) (local_apic-Registered m e bsp xs p on r),
        )
      ]
  | inr no_lapic ↦
      let same : Registered bsp (xs ++ ids m (e ∷ [])) p = rw (no_lapic, append-nil xs) r in
      elim (Bool-cases (m e == 1)) [
        | inl io ↦
            let t : m e ≡ 1 = ground arith in
            inr (
              io_apic m e p,
              rw t refl,
              (ground arith),
              record {
                count = same.count;
                stored = same.stored;
                boot = same.boot;
                known = same.known;
              },
            )
        | inr no_io ↦ elim (Bool-cases (m e == 2)) [
          | inr unknown ↦ inr (p, rw (no_lapic, no_io, unknown) refl, rw unknown refl, same)
          | inl override ↦
              let t : m e ≡ 2 = ground arith in
              elim (Bool-cases (m (e + 2) == 0)) [
                | inr bus ↦ inr (p, rw (t, bus) refl, rw (t, bus) refl, same)
                | inl isa ↦ elim (Bool-cases (ltb (u32_at m (e + 4)) 24)) [
                  | inl fits ↦ inr (
                    record p {
                      conf = record (p.conf) {
                        ioapic_irqs = put_at (u32_at m (e + 4)) (m (e + 3)) p.conf.ioapic_irqs;
                      };
                    },
                    rw (t, isa, fits) refl,
                    ground arith,
                    record {
                      count = same.count;
                      stored = same.stored;
                      boot = same.boot;
                      known = same.known;
                    },
                  )
                  | inr behind ↦ inl (rw (t, isa, behind) refl, ground arith)
                ]
              ]
        ]
      ]
]
