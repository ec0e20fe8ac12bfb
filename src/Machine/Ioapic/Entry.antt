-- ===== src/Machine/Ioapic/Entry.antt =====
-- The members of a redirection entry, and what an assignment to one does to the others.
use mpstu_bs.Prelude.{ℕ, ◌/◌, ◌%◌, ◌^◌, ◌≡◌, refl, arith}
use mpstu_bs.Prelude.Fields.{get_field}
use mpstu_bs.Machine.Ioapic.{
  set_vector, set_delivery_mode, set_destination_mode, set_polarity, set_trigger_mode, set_mask,
  reset_low,
}

-- `IOREDTBL_L`
pub record Redtbl : Type 0 where
  pub vector : ℕ
  pub delivery_mode : ℕ
  pub destination_mode : ℕ
  pub delivery_status : ℕ
  pub polarity : ℕ
  pub remote_irr : ℕ
  pub trigger_mode : ℕ
  pub mask : ℕ
  pub reserved : ℕ

unfoldable pub members : ℕ → Redtbl
members v = record {
  vector = get_field 0 8 v;
  delivery_mode = get_field 8 3 v;
  destination_mode = get_field 11 1 v;
  delivery_status = get_field 12 1 v;
  polarity = get_field 13 1 v;
  remote_irr = get_field 14 1 v;
  trigger_mode = get_field 15 1 v;
  mask = get_field 16 1 v;
  reserved = v / 2 ^ 17;
}

record Agree (a b : Redtbl) : Type 0 where
  vector_eq : a.vector ≡ b.vector
  delivery_mode_eq : a.delivery_mode ≡ b.delivery_mode
  destination_mode_eq : a.destination_mode ≡ b.destination_mode
  delivery_status_eq : a.delivery_status ≡ b.delivery_status
  polarity_eq : a.polarity ≡ b.polarity
  remote_irr_eq : a.remote_irr ≡ b.remote_irr
  trigger_mode_eq : a.trigger_mode ≡ b.trigger_mode
  mask_eq : a.mask ≡ b.mask
  reserved_eq : a.reserved ≡ b.reserved

Redtbl-ext : (a b : Redtbl) → Agree a b → a ≡ b
Redtbl-ext a b e = λ i. record {
  vector = e.vector_eq i;
  delivery_mode = e.delivery_mode_eq i;
  destination_mode = e.destination_mode_eq i;
  delivery_status = e.delivery_status_eq i;
  polarity = e.polarity_eq i;
  remote_irr = e.remote_irr_eq i;
  trigger_mode = e.trigger_mode_eq i;
  mask = e.mask_eq i;
  reserved = e.reserved_eq i;
}

module _ (x v : ℕ) where
  pub members-set_vector : members (set_vector x v) ≡ record (members v) { vector = x % 2 ^ 8 }
  unfolding members
  members-set_vector = Redtbl-ext _ _ (omega arith)

  pub members-set_delivery_mode :
      members (set_delivery_mode x v) ≡ record (members v) { delivery_mode = x % 2 ^ 3 }
  unfolding members
  members-set_delivery_mode = Redtbl-ext _ _ (omega arith)

  pub members-set_destination_mode :
      members (set_destination_mode x v) ≡ record (members v) { destination_mode = x % 2 }
  unfolding members
  members-set_destination_mode = Redtbl-ext _ _ (omega arith)

  pub members-set_polarity : members (set_polarity x v) ≡ record (members v) { polarity = x % 2 }
  unfolding members
  members-set_polarity = Redtbl-ext _ _ (omega arith)

  pub members-set_trigger_mode :
      members (set_trigger_mode x v) ≡ record (members v) { trigger_mode = x % 2 }
  unfolding members
  members-set_trigger_mode = Redtbl-ext _ _ (omega arith)

  pub members-set_mask : members (set_mask x v) ≡ record (members v) { mask = x % 2 }
  unfolding members
  members-set_mask = Redtbl-ext _ _ (omega arith)

-- What `init` leaves in the lower word of a slot.
pub members-reset_low :
    (v : ℕ)
    → members (reset_low v) ≡ record (members v) {
      vector = 34;
      delivery_mode = 1;
      destination_mode = 1;
      polarity = 0;
      trigger_mode = 0;
      mask = 1;
    }
unfolding reset_low
members-reset_low v =
    rw
      (
        members-set_mask, members-set_trigger_mode, members-set_polarity,
        members-set_destination_mode, members-set_delivery_mode, members-set_vector,
      )
      refl
