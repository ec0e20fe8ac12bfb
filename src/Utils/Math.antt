-- ===== src/Utils/Math.antt =====
-- utils/math.h: 64-bit division by shifts and subtractions, and the smaller and larger of two.
pub mod Division
use mpstu_bs.Prelude.{
  ℕ, zero, suc, ◌+◌, ◌-◌, ◌*◌, ◌/◌, ◌%◌, ◌^◌, Option, none, some, Bool, ltb, leb, ◌==◌,
  if◌then◌else◌,
}

-- `uint64_t`
abbrev pub u64 : ℕ → ℕ
u64 n = n % 2 ^ 64

pub record Shifted : Type 0 where
  pub den : ℕ
  pub qbit : ℕ

-- `while ((int64_t)den >= 0) { den <<= 1; qbit <<= 1; }`; a `den` of zero never leaves it.
unfoldable pub align : ℕ → Shifted → Option Shifted
align zero s = none
align (suc fuel) s =
    let rest = align fuel (record { den = u64 (s.den * 2); qbit = u64 (s.qbit * 2) }) in
    if ltb s.den (2 ^ 63) then rest else some s

pub record Work : Type 0 where
  pub num : ℕ
  pub den : ℕ
  pub quot : ℕ
  pub qbit : ℕ

-- The `if` in the second loop.
abbrev pub subtract : Work → Work
subtract w =
    if leb w.den w.num then record w { num = w.num - w.den; quot = u64 (w.quot + w.qbit) } else w

abbrev pub halve : Work → Work
halve w = record w { den = w.den / 2; qbit = w.qbit / 2 }

-- `while (qbit) { … den >>= 1; qbit >>= 1; }`
unfoldable pub reduce : ℕ → Work → Option Work
reduce zero w = none
reduce (suc fuel) w =
    let rest = reduce fuel (halve (subtract w)) in if w.qbit == 0 then some w else rest

-- The quotient and the remainder; `none` is a loop that has not ended within 65 and 66 rounds.
unfoldable pub div64 : ℕ → ℕ → Option (ℕ × ℕ)
div64 num den = elim (align 65 (record { den = den; qbit = 1 })) [
  | none ↦ none
  | some s ↦ elim (reduce 66 (record { num = num; den = s.den; quot = 0; qbit = s.qbit })) [
    | none ↦ none
    | some w ↦ some (w.quot, w.num)
  ]
]

-- `Math::min` and `Math::max`
unfoldable pub min_of : ℕ → ℕ → ℕ
min_of a b = if ltb b a then b else a

unfoldable pub max_of : ℕ → ℕ → ℕ
max_of a b = if ltb b a then a else b
