-- ===== src/Machine/Key/Flags.antt =====
-- The modifier bits of a key are independent of one another.
use mpstu_bs.Prelude.{
  ℕ, ◌<◌, ◌≡◌, refl, Bool, true, false, not, ◌&&◌, ◌==◌, if◌then◌else◌, arith, ltb, ltb→lt,
}
use mpstu_bs.Prelude.Bits.{every_below, every_below-holds}
use mpstu_bs.Machine.Key.{
  Modifier, shift, alt_left, alt_right, ctrl_left, ctrl_right, caps_lock, num_lock, scroll_lock,
  mask, test_bits, assign_bits,
}

abbrev all_modifiers : (Modifier → Bool) → Bool
all_modifiers p =
    p shift
    && p alt_left
    && p alt_right
    && p ctrl_left
    && p ctrl_right
    && p caps_lock
    && p num_lock
    && p scroll_lock

abbrev bool_eq : Bool → Bool → Bool
bool_eq true b = b
bool_eq false b = not b

all_modifiers_sound : (p : Modifier → Bool) → all_modifiers p ≡ true → (m : Modifier) → p m ≡ true
all_modifiers_sound p h m = ground arith

-- What is read after an assignment, at one byte.
abbrev reads : Bool → Modifier → Modifier → ℕ → Bool
reads b m n x =
    bool_eq (test_bits (assign_bits b (mask m) x) (mask n))
      (if mask m == mask n then b else test_bits x (mask n))

abbrev small : Bool → Modifier → ℕ → Bool
small b m x = ltb (assign_bits b (mask m) x) 256

reads_table :
    every_below 256 (λ x. all_modifiers (λ m.
      all_modifiers (λ n. reads true m n x && reads false m n x)
      && small true m x
      && small false m x))
    ≡ true
unfolding every_below test_bits assign_bits
reads_table = refl

bool_eq-eq : (a b : Bool) → bool_eq a b ≡ true → a ≡ b
bool_eq-eq a b h = ground arith

row :
    (x : ℕ)
    → x < 256
    → (m : Modifier)
    → all_modifiers (λ n. reads true m n x && reads false m n x)
        && small true m x
        && small false m x
      ≡ true
row x h = all_modifiers_sound _ (every_below-holds 256 _ x reads_table h)

first_true : (a b : Bool) → a && b ≡ true → (a ≡ true) × (b ≡ true)
first_true a b h = ground arith

cells :
    (m : Modifier) (x : ℕ)
    → x < 256
    → all_modifiers (λ n. reads true m n x && reads false m n x) ≡ true
cells m x h = (first_true _ _ (first_true _ _ (row x h m)).0).0

cell : (m n : Modifier) (x : ℕ) → x < 256 → reads true m n x && reads false m n x ≡ true
cell m n x h = all_modifiers_sound (λ n. reads true m n x && reads false m n x) (cells m x h) n

bounds : (m : Modifier) (x : ℕ) → x < 256 → (small true m x ≡ true) × (small false m x ≡ true)
bounds m x h = ((first_true _ _ (first_true _ _ (row x h m)).0).1, (first_true _ _ (row x h m)).1)

pub assign_bits-lt : (b : Bool) (m : Modifier) (x : ℕ) → x < 256 → assign_bits b (mask m) x < 256
assign_bits-lt true m x h = ltb→lt _ _ (bounds m x h).0
assign_bits-lt false m x h = ltb→lt _ _ (bounds m x h).1

-- A modifier that is assigned reads as assigned, and the others read as before.
pub test_bits-assign_bits :
    (b : Bool) (m n : Modifier) (x : ℕ)
    → x < 256
    → test_bits (assign_bits b (mask m) x) (mask n)
      ≡ (if mask m == mask n then b else test_bits x (mask n))
test_bits-assign_bits true m n x h = bool_eq-eq _ _ (first_true _ _ (cell m n x h)).0
test_bits-assign_bits false m n x h = bool_eq-eq _ _ (first_true _ _ (cell m n x h)).1
