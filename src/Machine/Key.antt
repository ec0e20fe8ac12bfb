-- ===== src/Machine/Key.antt =====
-- machine/key.h: a key with its ASCII code, its scan code and the modifier bits, each a byte.
pub mod Flags
use mpstu_bs.Prelude.{ℕ, ◌-◌, Bool, not, ◌||◌, ◌==◌, if◌then◌else◌, bit_and, bit_or}

pub record Key : Type 0 where
  pub asc : ℕ
  pub scan : ℕ
  pub modi : ℕ

-- The constructor: an invalid key.
abbrev pub no_key : Key
no_key = record { asc = 0; scan = 0; modi = 0 }

-- `mbit`, one constructor for each mask.
pub data Modifier : Type 0 where
  shift alt_left alt_right ctrl_left ctrl_right caps_lock num_lock scroll_lock : Modifier

abbrev pub mask : Modifier → ℕ
mask shift = 1
mask alt_left = 2
mask alt_right = 4
mask ctrl_left = 8
mask ctrl_right = 16
mask caps_lock = 32
mask num_lock = 64
mask scroll_lock = 128

-- `modi & mask` as a truth value.
unfoldable pub test_bits : ℕ → ℕ → Bool
test_bits modi m = not (bit_and modi m == 0)

-- `pressed ? modi | mask : modi & ~mask`, in a byte.
unfoldable pub assign_bits : Bool → ℕ → ℕ → ℕ
assign_bits pressed m modi = if pressed then bit_or modi m else bit_and modi (255 - m)

abbrev pub valid : Key → Bool
valid k = not (k.scan == 0)

abbrev pub invalidate : Key → Key
invalidate k = record k { scan = 0 }

-- `ascii(a)` and `scancode(s)`; the getters are the fields.
abbrev pub set_ascii : ℕ → Key → Key
set_ascii a k = record k { asc = a }

abbrev pub set_scancode : ℕ → Key → Key
set_scancode s k = record k { scan = s }

abbrev pub has_modifier : Modifier → Key → Bool
has_modifier m k = test_bits k.modi (mask m)

abbrev pub set_modifier : Modifier → Bool → Key → Key
set_modifier m pressed k = record k { modi = assign_bits pressed (mask m) k.modi }

-- `alt()` and `ctrl()`
abbrev pub alt : Key → Bool
alt k = has_modifier alt_left k || has_modifier alt_right k

abbrev pub ctrl : Key → Bool
ctrl k = has_modifier ctrl_left k || has_modifier ctrl_right k

-- The constants of `Key::scan` that the code uses.
abbrev pub scan_del : ℕ
scan_del = 0x53

abbrev pub scan_div : ℕ
scan_div = 8
