-- ===== src/Machine/Ioapic/Table.antt =====
-- The I/O APIC as a table of entries: what the calls after `init` do to it.
use mpstu_bs.Prelude.{
  ℕ, ◌+◌, ◌*◌, ◌%◌, ◌^◌, ◌<◌, ◌≡◌, refl, ap, ◌∙◌, false, inl, inr, List, [], ◌∷◌, ◌==◌,
  if◌then◌else◌, arith, Bool-cases, ==_refl,
}
use mpstu_bs.Prelude.Fields.{get_field}
use mpstu_bs.Machine.Ioapic.{
  Ioapic, modify, set_vector, set_trigger_mode, set_mask, config, allow, forbid, status,
}
use mpstu_bs.Machine.Ioapic.Entry.{
  Redtbl, members, members-set_vector, members-set_trigger_mode, members-set_mask,
}

pub record Entry : Type 0 where
  pub low : Redtbl
  pub logical_destination : ℕ

abbrev pub entry : Ioapic → ℕ → Entry
entry s slot = record {
  low = members (s.regs (slot * 2 + 0x10));
  logical_destination = get_field 24 8 (s.regs (slot * 2 + 0x10 + 1));
}

-- The calls of the interface that change the device.
pub data Call : Type 0 where
  redirect : ℕ → ℕ → Call
  unmask : ℕ → Call
  remask : ℕ → Call

abbrev pub call : Call → Ioapic → Ioapic
call (redirect slot vector) s = config slot vector s
call (unmask slot) s = allow slot s
call (remask slot) s = forbid slot s

-- The latest call stands first.
abbrev pub call_all : List Call → Ioapic → Ioapic
call_all [] s = s
call_all (c ∷ cs) s = call c (call_all cs s)

-- What a call means for the entry of a slot.
abbrev pub meaning : Call → ℕ → Redtbl → Redtbl
meaning (redirect k vector) slot e =
    if slot == k then record e { vector = vector % 2 ^ 8; trigger_mode = 0 } else e
meaning (unmask k) slot e = if slot == k then record e { mask = 0 } else e
meaning (remask k) slot e = if slot == k then record e { mask = 1 } else e

abbrev pub meaning_all : List Call → ℕ → Redtbl → Redtbl
meaning_all [] slot e = e
meaning_all (c ∷ cs) slot e = meaning c slot (meaning_all cs slot e)

-- A change of the lower word of one slot.
pub modify-entry :
    (k slot : ℕ) (change : ℕ → ℕ) (s : Ioapic)
    → entry (modify (k * 2 + 0x10) change s) slot ≡ (
        if slot == k
        then record (entry s slot) { low = members (change (s.regs (slot * 2 + 0x10))) }
        else entry s slot)
unfolding modify
modify-entry k slot change s =
    let odd : (slot * 2 + 0x10 + 1 == k * 2 + 0x10) ≡ false = ground arith in
    elim (Bool-cases (slot == k)) [
      | inl same ↦
          let e : slot ≡ k = ground arith in rw (odd, e, ==_refl k, ==_refl (k * 2 + 0x10)) refl
      | inr differ ↦
          let other : (slot * 2 + 0x10 == k * 2 + 0x10) ≡ false = ground arith in
          rw (odd, differ, other) refl
    ]

call-entry :
    (c : Call) (slot : ℕ) (s : Ioapic)
    → entry (call c s) slot ≡ record (entry s slot) { low = meaning c slot (entry s slot).low }
unfolding config allow forbid
call-entry (redirect k vector) slot s =
    modify-entry k slot (λ v. set_trigger_mode 0 (set_vector vector v)) s
    ∙ elim (Bool-cases (slot == k)) [
      | inl same ↦ rw (same, members-set_trigger_mode, members-set_vector) refl
      | inr differ ↦ rw differ refl
    ]
call-entry (unmask k) slot s = modify-entry k slot (set_mask 0) s ∙ elim (Bool-cases (slot == k)) [
  | inl same ↦ rw (same, members-set_mask) refl
  | inr differ ↦ rw differ refl
]
call-entry (remask k) slot s = modify-entry k slot (set_mask 1) s ∙ elim (Bool-cases (slot == k)) [
  | inl same ↦ rw (same, members-set_mask) refl
  | inr differ ↦ rw differ refl
]

call_all-entry :
    (cs : List Call) (slot : ℕ) (s : Ioapic)
    → entry (call_all cs s) slot
      ≡ record (entry s slot) { low = meaning_all cs slot (entry s slot).low }
call_all-entry [] slot s = refl
call_all-entry (c ∷ cs) slot s =
    call-entry c slot (call_all cs s)
    ∙ ap (λ (e : Entry). record e { low = meaning c slot e.low }) (call_all-entry cs slot s)

-- After any calls of `config`, `allow` and `forbid`, each entry has the vector and the mask of the
-- latest calls for its slot and is unchanged otherwise, and `status` tells whether its mask is
-- clear, without a change of the table.
pub status-call_all :
    (cs : List Call) (slot : ℕ) (s : Ioapic)
    → (entry (call_all cs s) slot
        ≡ record (entry s slot) { low = meaning_all cs slot (entry s slot).low })
      × ((status slot (call_all cs s)).0 ≡ ((meaning_all cs slot (entry s slot).low).mask == 0))
      × ((status slot (call_all cs s)).1.regs ≡ (call_all cs s).regs)
unfolding status members
status-call_all cs slot s =
    let e = call_all-entry cs slot s in
    let v = (call_all cs s).regs (slot * 2 + 0x10) in
    let m : get_field 16 1 v ≡ (meaning_all cs slot (entry s slot).low).mask =
      ap (λ (x : Entry). x.low.mask) e in
    let bit : get_field 16 1 v < 2 = omega arith in (e, rw (← m) (ground arith), refl)
