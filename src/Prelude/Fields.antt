-- ===== src/Prelude/Fields.antt =====
-- The bit fields of a word: `width` bits from bit `lo` on.
use Prim.Native.Nat.{ℕ, ◌+◌, ◌*◌, ◌/◌, ◌%◌, ◌^◌}

abbrev pub get_field : ℕ → ℕ → ℕ → ℕ
get_field lo width v = v / 2 ^ lo % 2 ^ width

-- An assignment to the field; the value is cut to its width, and the other bits stay.
abbrev pub set_field : ℕ → ℕ → ℕ → ℕ → ℕ
set_field lo width x v =
    v / 2 ^ (lo + width) * 2 ^ (lo + width) + x % 2 ^ width * 2 ^ lo + v % 2 ^ lo
