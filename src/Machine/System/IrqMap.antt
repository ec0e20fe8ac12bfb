-- ===== src/Machine/System/IrqMap.antt =====
-- APICSystem::generateIRQMap: interrupts and slots are mapped to each other.
use mpstu_bs.Prelude.{
  ℕ, zero, suc, ◌+◌, ◌-◌, ◌≤◌, ◌<◌, ◌≡◌, refl, fun_ext, subst, ◌∙◌, ◌⊎◌, inl, inr, true, false,
  ◌&&◌, ltb, leb, ◌==◌, if◌then◌else◌, arith, Bool-cases, ==_refl,
}
use mpstu_bs.Machine.SystemConfig.{SystemConfig, put_at}
use mpstu_bs.Machine.System.{fill_irqs, fill_slots, generate_irq_map}

-- A slot below 16 without an interrupt gets the one of its number.
abbrev pub filled : (ℕ → ℕ) → ℕ → ℕ
filled irqs j = if ltb j 16 && (irqs j == 255) then j else irqs j

-- The interrupt `d` is at none of the `k` slots from `i` on.
abbrev pub Never : (ℕ → ℕ) → ℕ → ℕ → ℕ → Type 0
Never irqs d i zero = Unit
Never irqs d i (suc k) = ((irqs i == d) ≡ false) × Never irqs d (i + 1) k

fill_irqs-get :
    (k i j : ℕ) (irqs : ℕ → ℕ)
    → fill_irqs k i irqs j ≡ (if (leb i j && ltb j (i + k)) && (irqs j == 255) then j else irqs j)
unfolding fill_irqs
fill_irqs-get zero i j irqs =
    let outside : (leb i j && ltb j (i + 0)) ≡ false = ground arith in rw outside refl
fill_irqs-get (suc k) i j irqs =
    fill_irqs-get k (i + 1) j (if irqs i == 255 then put_at i i irqs else irqs)
    ∙ elim (Bool-cases (j == i)) [
      | inl same ↦
          let e : j ≡ i = ground arith in
          let past : (leb (i + 1) i && ltb i (i + 1 + k)) ≡ false = ground arith in
          let now : (leb i i && ltb i (i + suc k)) ≡ true = ground arith in
          elim (Bool-cases (irqs i == 255)) [
            | inl free ↦ rw (e, past, now, free, ==_refl i) refl
            | inr taken ↦ rw (e, past, now, taken) refl
          ]
      | inr differ ↦
          let both : (leb (i + 1) j && ltb j (i + 1 + k)) ≡ (leb i j && ltb j (i + suc k)) =
            ground arith in
          elim (Bool-cases (irqs i == 255)) [
            | inl free ↦ rw (both, free, differ) refl
            | inr taken ↦ rw (both, taken) refl
          ]
    ]

fill_slots-Never :
    (k i d : ℕ) (irqs slots : ℕ → ℕ)
    → d < 16
    → ((j : ℕ) × (i ≤ j)
        × (j < i + k)
        × (irqs j ≡ d)
        × (fill_slots k i irqs slots d ≡ j)
        × Never irqs d (j + 1) (i + k - (j + 1)))
      ⊎ (Never irqs d i k × (fill_slots k i irqs slots d ≡ slots d))
unfolding fill_slots
fill_slots-Never zero i d irqs slots h = inr (tt, refl)
fill_slots-Never (suc k) i d irqs slots h =
    let slots1 = if ltb (irqs i) 16 then put_at (irqs i) i slots else slots in
    let shift : i + 1 + k ≡ i + suc k = omega arith in
    elim (fill_slots-Never k (i + 1) d irqs slots1 h) [
      | inl (j, a, b, e, f, never) ↦ inl (
        j,
        omega arith,
        omega arith,
        e,
        f,
        subst (λ (t : ℕ). Never irqs d (j + 1) (t - (j + 1))) shift never,
      )
      | inr (never, f) ↦ elim (Bool-cases (irqs i == d)) [
        | inl hit ↦
            let e : irqs i ≡ d = ground arith in
            let rest : k ≡ i + suc k - (i + 1) = omega arith in
            inl (
              i,
              omega arith,
              omega arith,
              e,
              f ∙ ground arith,
              subst (λ (t : ℕ). Never irqs d (i + 1) t) rest never,
            )
        | inr miss ↦ inr ((miss, never), f ∙ ground arith)
      ]
    ]

from_start :
    (j x : ℕ)
    → (if (leb 0 j && ltb j (0 + 16)) && (x == 255) then j else x)
      ≡ (if ltb j 16 && (x == 255) then j else x)
from_start j x = ground arith

-- After `generateIRQMap` each slot below 16 without an interrupt has the one of its number, and each
-- interrupt of the ISA bus leads to the last slot that has it, or is left where none of the 24 does.
pub generate_irq_map_lem :
    (c : SystemConfig) (j d : ℕ)
    → d < 16
    → ((generate_irq_map c).ioapic_irqs j ≡ filled c.ioapic_irqs j)
      × (((slot : ℕ) × (slot < 24)
            × (filled c.ioapic_irqs slot ≡ d)
            × ((generate_irq_map c).slot_map d ≡ slot)
            × Never (filled c.ioapic_irqs) d (slot + 1) (24 - (slot + 1)))
          ⊎ (Never (filled c.ioapic_irqs) d 0 24
              × ((generate_irq_map c).slot_map d ≡ c.slot_map d)))
unfolding generate_irq_map
generate_irq_map_lem c j d h =
    let at : (i : ℕ) → fill_irqs 16 0 c.ioapic_irqs i ≡ filled c.ioapic_irqs i =
      λ i. fill_irqs-get 16 0 i c.ioapic_irqs ∙ from_start i (c.ioapic_irqs i) in
    (
      at j,
      rw (fun_ext at) (elim (fill_slots-Never 24 0 d (filled c.ioapic_irqs) c.slot_map h) [
        | inl (slot, a, b, e, f, never) ↦ inl (slot, b, e, f, never)
        | inr out ↦ inr out
      ]),
    )
