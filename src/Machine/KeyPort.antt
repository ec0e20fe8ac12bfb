-- ===== src/Machine/KeyPort.antt =====
-- machine/keyctrl.h and machine/keyctrl.cc below the decoder: the ports of the keyboard controller,
-- its commands and its lamps.
pub mod Led
use mpstu_bs.Prelude.{
  true, false, ℕ, ◌+◌, ◌-◌, ◌*◌, ◌%◌, Bool, Option, none, some, List, [], ◌∷◌, ◌++◌, ◌==◌,
  if◌then◌else◌, bit_and, bit_or,
}

-- The hardware is what its ports will be read as: the status bytes and the data bytes to come.
-- What the code writes is kept, as pairs of port and byte.
pub record Ports : Type 0 where
  pub status : List ℕ
  pub input : List ℕ
  pub sent : List (ℕ × ℕ)

-- `none` is a read that the hardware never answers.
abbrev pub Io : Type 0 → Type 0
Io A = Ports → Option (A × Ports)

abbrev pub pure : {A : Type 0} → A → Io A
pure a p = some (a, p)

infixl 5 ◌>>=◌ ◌>>◌
abbrev pub ◌>>=◌ : {A B : Type 0} → Io A → (A → Io B) → Io B
◌>>=◌ m f p = elim (m p) [ none ↦ none | some (a, p') ↦ f a p' ]

abbrev pub ◌>>◌ : {B : Type 0} → Io (Unit {0}) → Io B → Io B
m >> n = m >>= λ _. n

abbrev first_of : List ℕ → Option (ℕ × List ℕ)
first_of [] = none
first_of (x ∷ xs) = some (x, xs)

-- `ctrl_port.inb()`
unfoldable pub read_status : Io ℕ
read_status p = elim (first_of p.status) [
  | none ↦ none
  | some (s, rest) ↦ some (s, record p { status = rest })
]

-- `data_port.inb()`
unfoldable pub read_data : Io ℕ
read_data p = elim (first_of p.input) [
  | none ↦ none
  | some (d, rest) ↦ some (d, record p { input = rest })
]

-- `outb` on a port
unfoldable pub write_port : ℕ → ℕ → Io (Unit {0})
write_port port byte p = some (tt, record p { sent = p.sent ++ (port, byte) ∷ [] })

-- `status & mask == mask`, for the bits `outb`, `inpb` and `auxb`
unfoldable pub has_bit : ℕ → ℕ → Bool
has_bit mask status = bit_and status mask == mask

abbrev pub outb : ℕ
outb = 0x01

abbrev pub inpb : ℕ
inpb = 0x02

abbrev pub auxb : ℕ
auxb = 0x20

-- The loop of `send_byte`: what is left of the status bytes when the input buffer is free.
unfoldable pub wait_free : List ℕ → Option (List ℕ)
wait_free [] = none
wait_free (s ∷ rest) = elim (has_bit inpb s) [ true ↦ wait_free rest | false ↦ some rest ]

unfoldable pub send_byte : ℕ → Io (Unit {0})
unfolding write_port
send_byte byte p = elim (wait_free p.status) [
  | none ↦ none
  | some rest ↦ write_port 0x60 byte (record p { status = rest })
]

unfoldable pub send_command : ℕ → ℕ → Io (Unit {0})
send_command cmd byte = send_byte cmd >> send_byte byte

-- The loop of `drainKeyboardBuffer`, over the status bytes.
unfoldable pub drain_loop : List ℕ → List ℕ → Option (List ℕ × List ℕ)
drain_loop [] input = none
drain_loop (s ∷ rest) input = elim (has_bit outb s) [
  | true ↦ elim (first_of input) [ none ↦ none | some (_, input') ↦ drain_loop rest input' ]
  | false ↦ some (rest, input)
]

unfoldable pub drain_keyboard_buffer : Io (Unit {0})
drain_keyboard_buffer p = elim (drain_loop p.status p.input) [
  | none ↦ none
  | some (rest, input) ↦ some (tt, record p { status = rest; input = input })
]

-- `led_t`
abbrev pub led_caps_lock : ℕ
led_caps_lock = 4

abbrev pub led_num_lock : ℕ
led_num_lock = 2

abbrev pub led_scroll_lock : ℕ
led_scroll_lock = 1

-- The new `led_ctrl_byte` of `set_led`.
unfoldable pub led_byte : ℕ → Bool → ℕ → ℕ
led_byte led on byte = if on then bit_or byte led else bit_and byte (255 - led)

-- `set_led` returns the new `led_ctrl_byte`.
unfoldable pub set_led : ℕ → Bool → ℕ → Io ℕ
set_led led on byte = do send_command 0xed (led_byte led on byte); pure (led_byte led on byte)

-- `(delay << 4) | speed`, as an unsigned char
unfoldable pub set_repeat_rate : ℕ → ℕ → Io (Unit {0})
set_repeat_rate speed delay = send_command 0xf3 (bit_or (delay * 16) speed % 256)

unfoldable pub reboot : Io (Unit {0})
reboot = do write_port 0x70 (0xe + 1); write_port 0x71 0; write_port 0x92 0x3
