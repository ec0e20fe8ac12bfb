-- ===== src/Machine/Ioapic/Init.antt =====
-- IOAPIC::init: every slot is masked and goes to all processors.
use mpstu_bs.Prelude.{
  ℕ, zero, suc, ◌+◌, ◌-◌, ◌*◌, ◌%◌, ◌^◌, ◌≤◌, ◌<◌, ◌≡◌, refl, ap, ◌∙◌, true, false, ◌&&◌, inl, inr,
  ltb, leb, ◌==◌, if◌then◌else◌, arith, Bool-cases, ==_refl,
}
use mpstu_bs.Prelude.Fields.{get_field}
use mpstu_bs.Machine.Ioapic.{
  Ioapic, modify, set_id, set_logical_destination, reset_low, cpumask, init_slots, init,
}
use mpstu_bs.Machine.Ioapic.Entry.{Redtbl, members-reset_low}
use mpstu_bs.Machine.Ioapic.Table.{Entry, entry, modify-entry}

-- An entry after `init`: masked, for the vector 34 and all `cpus` processors, whichever is the least
-- busy; what is read only and what is reserved stays.
abbrev pub reset_entry : ℕ → Entry → Entry
reset_entry cpus e = record {
  low = record e.low {
    vector = 34;
    delivery_mode = 1;
    destination_mode = 1;
    polarity = 0;
    trigger_mode = 0;
    mask = 1;
  };
  logical_destination = 2 ^ cpus - 1;
}

cpumask_lem : (cpus : ℕ) → cpus ≤ 8 → cpumask cpus ≡ 2 ^ cpus - 1
unfolding cpumask
cpumask_lem zero h = refl
cpumask_lem (suc zero) h = refl
cpumask_lem (suc (suc zero)) h = refl
cpumask_lem (suc (suc (suc zero))) h = refl
cpumask_lem (suc (suc (suc (suc zero)))) h = refl
cpumask_lem (suc (suc (suc (suc (suc zero))))) h = refl
cpumask_lem (suc (suc (suc (suc (suc (suc zero)))))) h = refl
cpumask_lem (suc (suc (suc (suc (suc (suc (suc zero))))))) h = refl
cpumask_lem (suc (suc (suc (suc (suc (suc (suc (suc zero)))))))) h = refl
cpumask_lem (suc (suc (suc (suc (suc (suc (suc (suc (suc n))))))))) h = absurd (omega arith)

cpumask-lt : (cpus : ℕ) → cpumask cpus < 2 ^ 8
unfolding cpumask
cpumask-lt zero = omega arith
cpumask-lt (suc n) = omega arith

destination : (x v : ℕ) → x < 2 ^ 8 → get_field 24 8 (set_logical_destination x v) ≡ x
destination x v h = omega arith

-- A change of the upper word of one slot.
modify_high-entry :
    (k slot x : ℕ) (s : Ioapic)
    → x < 2 ^ 8
    → entry (modify (k * 2 + 0x10 + 1) (set_logical_destination x) s) slot
      ≡ (if slot == k then record (entry s slot) { logical_destination = x } else entry s slot)
unfolding modify
modify_high-entry k slot x s h =
    let even : (slot * 2 + 0x10 == k * 2 + 0x10 + 1) ≡ false = ground arith in
    elim (Bool-cases (slot == k)) [
      | inl same ↦
          let e : slot ≡ k = ground arith in
          rw
            (
              even,
              e,
              ==_refl k,
              ==_refl (k * 2 + 0x10 + 1),
              destination x (s.regs (k * 2 + 0x10 + 1)) h,
            )
            refl
      | inr differ ↦
          let other : (slot * 2 + 0x10 + 1 == k * 2 + 0x10 + 1) ≡ false = ground arith in
          rw (even, differ, other) refl
    ]

-- One round of the loop.
round-entry :
    (i slot cpus : ℕ) (s : Ioapic)
    → cpus ≤ 8
    → entry
        (modify
          (i * 2 + 0x10 + 1)
          (set_logical_destination (cpumask cpus))
          (modify (i * 2 + 0x10) reset_low s))
        slot
      ≡ (if slot == i then reset_entry cpus (entry s slot) else entry s slot)
round-entry i slot cpus s h =
    modify_high-entry i slot (cpumask cpus) (modify (i * 2 + 0x10) reset_low s) (cpumask-lt cpus)
    ∙ ap (λ (e : Entry). if slot == i then record e { logical_destination = cpumask cpus } else e)
        (modify-entry i slot reset_low s)
    ∙ elim (Bool-cases (slot == i)) [
      | inl same ↦
          rw (same, cpumask_lem cpus h)
            (ap
              (λ (r : Redtbl).
                let e : Entry = record { low = r; logical_destination = 2 ^ cpus - 1 } in e)
              (members-reset_low (s.regs (slot * 2 + 0x10))))
      | inr differ ↦ rw differ refl
    ]

init_slots-entry :
    (k i slot cpus : ℕ) (s : Ioapic)
    → cpus ≤ 8
    → entry (init_slots k i cpus s) slot
      ≡ (if leb i slot && ltb slot (i + k) then reset_entry cpus (entry s slot) else entry s slot)
unfolding init_slots
init_slots-entry zero i slot cpus s h =
    let outside : (leb i slot && ltb slot (i + 0)) ≡ false = ground arith in rw outside refl
init_slots-entry (suc k) i slot cpus s h =
    init_slots-entry k (i + 1) slot cpus _ h
    ∙ ap (λ (e : Entry). if leb (i + 1) slot && ltb slot (i + 1 + k) then reset_entry cpus e else e)
        (round-entry i slot cpus s h)
    ∙ elim (Bool-cases (slot == i)) [
      | inl same ↦
          let later : (leb (i + 1) slot && ltb slot (i + 1 + k)) ≡ false = ground arith in
          let now : (leb i slot && ltb slot (i + suc k)) ≡ true = ground arith in
          rw (same, later, now) refl
      | inr differ ↦
          let both : (leb (i + 1) slot && ltb slot (i + 1 + k))
              ≡ (leb i slot && ltb slot (i + suc k)) =
            ground arith in
          rw (differ, both) refl
    ]

init_slots-id : (k i cpus : ℕ) (s : Ioapic) → (init_slots k i cpus s).regs 0 ≡ s.regs 0
unfolding init_slots modify
init_slots-id zero i cpus s = refl
init_slots-id (suc k) i cpus s =
    init_slots-id k (i + 1) cpus _
    ∙ (let a : (0 == i * 2 + 0x10 + 1) ≡ false = ground arith in
        let b : (0 == i * 2 + 0x10) ≡ false = ground arith in rw (a, b) refl)

-- For at most eight processors `init` masks each of the 24 slots and sends it to all of them, leaves
-- what is no slot of the device as it is, and writes the identification into its four bits.
pub init-entry :
    (id cpus slot : ℕ) (s : Ioapic)
    → cpus ≤ 8
    → (entry (init id cpus s) slot
        ≡ (if ltb slot 24 then reset_entry cpus (entry s slot) else entry s slot))
      × (get_field 24 4 ((init id cpus s).regs 0) ≡ id % 2 ^ 4)
unfolding init modify
init-entry id cpus slot s h =
    let first = modify 0 (set_id id) s in
    let low : (slot * 2 + 0x10 == 0) ≡ false = ground arith in
    let high : (slot * 2 + 0x10 + 1 == 0) ≡ false = ground arith in
    let start : entry first slot ≡ entry s slot = rw (low, high) refl in
    (
      init_slots-entry 24 0 slot cpus first h
          ∙ ap (λ (e : Entry). if leb 0 slot && ltb slot (0 + 24) then reset_entry cpus e else e)
              start
          ∙ elim (Bool-cases (ltb slot 24)) [
            | inl inside ↦
                let now : (leb 0 slot && ltb slot (0 + 24)) ≡ true = ground arith in
                rw (now, inside) refl
            | inr outside ↦
                let now : (leb 0 slot && ltb slot (0 + 24)) ≡ false = ground arith in
                rw (now, outside) refl
          ],
      rw (init_slots-id 24 0 cpus first) (omega arith),
    )
