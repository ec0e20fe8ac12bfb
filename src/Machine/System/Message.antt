-- ===== src/Machine/System/Message.antt =====
-- The messages of APICSystem::bootCPU, read as a local APIC reads them.
use mpstu_bs.Prelude.{ℕ, ◌/◌, ◌%◌, ◌^◌, ◌<◌, ◌≡◌, ◌∙◌, arith}
use mpstu_bs.Prelude.Fields.{get_field}
use mpstu_bs.Machine.System.Boot.{icr_word}

-- A message between processors.
pub record Message : Type 0 where
  pub destination : ℕ
  pub delivery_mode : ℕ
  pub logical : ℕ
  pub level : ℕ
  pub trigger_mode : ℕ
  pub shorthand : ℕ
  pub vector : ℕ

-- The two words of the interrupt command as a local APIC reads them.
abbrev pub message : ℕ → ℕ → Message
message high low = record {
  destination = get_field 24 8 high;
  delivery_mode = get_field 8 3 low;
  logical = get_field 11 1 low;
  level = get_field 14 1 low;
  trigger_mode = get_field 15 1 low;
  shorthand = get_field 18 2 low;
  vector = get_field 0 8 low;
}

icr_word-vector : (d l t v g : ℕ) → get_field 0 8 (icr_word d 0 l t v g) ≡ v % 2 ^ 8
icr_word-vector d l t v g = omega arith

icr_word-delivery : (d l t v g : ℕ) → get_field 8 3 (icr_word d 0 l t v g) ≡ d % 2 ^ 3
icr_word-delivery d l t v g = omega arith

icr_word-logical : (d l t v g : ℕ) → get_field 11 1 (icr_word d 0 l t v g) ≡ 0
icr_word-logical d l t v g = omega arith

icr_word-level : (d l t v g : ℕ) → get_field 14 1 (icr_word d 0 l t v g) ≡ l % 2
icr_word-level d l t v g = omega arith

icr_word-trigger : (d l t v g : ℕ) → get_field 15 1 (icr_word d 0 l t v g) ≡ t % 2
icr_word-trigger d l t v g = omega arith

icr_word-shorthand : (d l t v g : ℕ) → get_field 18 2 (icr_word d 0 l t v g) ≡ 0
icr_word-shorthand d l t v g = omega arith

-- INIT, and STARTUP for the page of an address.
abbrev pub init_message : ℕ → ℕ → Message
init_message id level = record {
  destination = id;
  delivery_mode = 5;
  logical = 0;
  level = level;
  trigger_mode = 1;
  shorthand = 0;
  vector = 0;
}

abbrev pub startup_message : ℕ → ℕ → Message
startup_message id start_eip = record {
  destination = id;
  delivery_mode = 6;
  logical = 0;
  level = 0;
  trigger_mode = 0;
  shorthand = 0;
  vector = start_eip / 2 ^ 12 % 2 ^ 8;
}

pub init-message :
    (high id l g : ℕ)
    → get_field 24 8 high ≡ id
    → l < 2
    → message high (icr_word 5 0 l 1 0 g) ≡ init_message id l
init-message high id l g e small =
    let level : get_field 14 1 (icr_word 5 0 l 1 0 g) ≡ l =
      icr_word-level 5 l 1 0 g ∙ omega arith in
    λ i. record {
      destination = e i;
      delivery_mode = icr_word-delivery 5 l 1 0 g i;
      logical = icr_word-logical 5 l 1 0 g i;
      level = level i;
      trigger_mode = icr_word-trigger 5 l 1 0 g i;
      shorthand = icr_word-shorthand 5 l 1 0 g i;
      vector = icr_word-vector 5 l 1 0 g i;
    }

pub startup-message :
    (high id start_eip g : ℕ)
    → get_field 24 8 high ≡ id
    → message high (icr_word 6 0 0 0 (start_eip / 2 ^ 12) g) ≡ startup_message id start_eip
startup-message high id start_eip g e = λ i. record {
  destination = e i;
  delivery_mode = icr_word-delivery 6 0 0 (start_eip / 2 ^ 12) g i;
  logical = icr_word-logical 6 0 0 (start_eip / 2 ^ 12) g i;
  level = icr_word-level 6 0 0 (start_eip / 2 ^ 12) g i;
  trigger_mode = icr_word-trigger 6 0 0 (start_eip / 2 ^ 12) g i;
  shorthand = icr_word-shorthand 6 0 0 (start_eip / 2 ^ 12) g i;
  vector = icr_word-vector 6 0 0 (start_eip / 2 ^ 12) g i;
}
