-- ===== src/Object/BBuffer.antt =====
-- object/bbuffer.h: the bounded buffer, a ring with one free place.
pub mod Refine
use mpstu_bs.Prelude.{ℕ, ◌+◌, ◌%◌, ◌^◌, ◌≡◌, Bool, true, false, ◌==◌, if◌then◌else◌}

-- The array is a function of the index; only indices below the capacity are used.
pub record BBuffer {ℓ} (A : Type ℓ) : Type ℓ where
  pub items : ℕ → A
  pub in_index : ℕ
  pub out_index : ℕ

-- `(i + 1) % CAP` on `unsigned`
abbrev pub next_index : ℕ → ℕ → ℕ
next_index size i = (i + 1) % 2 ^ 32 % size

module _ {ℓ} {A : Type ℓ} where
  -- The constructor; the array keeps what its memory held.
  unfoldable pub init : (ℕ → A) → BBuffer A
  init garbage = record { items = garbage; in_index = 0; out_index = 0 }

  unfoldable pub produce : ℕ → A → BBuffer A → Bool × BBuffer A
  produce size val b =
      let nextin = next_index size b.in_index in
      if nextin == b.out_index then (false, b) else (
        true,
        record b { items = λ j. if b.in_index == j then val else b.items j; in_index = nextin },
      )

  -- The second part is the caller's variable, which an empty buffer leaves as it was.
  unfoldable pub consume : ℕ → A → BBuffer A → Bool × A × BBuffer A
  consume size val b =
      if b.in_index == b.out_index
      then (false, val, b)
      else (true, b.items b.out_index, record b { out_index = next_index size b.out_index })
