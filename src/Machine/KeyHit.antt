-- ===== src/Machine/KeyHit.antt =====
-- machine/keyctrl.cc above the decoder: the constructor of the keyboard controller and `key_hit`.
pub mod Input
use mpstu_bs.Prelude.{ℕ, not, Bool, true, false, Option, none, some, if◌then◌else◌}
use mpstu_bs.Machine.Key.{Key, no_key}
use mpstu_bs.Machine.KeyPort.{
  Ports, Io, pure, ◌>>=◌, ◌>>◌, read_status, read_data, has_bit, outb, auxb, drain_keyboard_buffer,
  led_caps_lock, led_num_lock, led_scroll_lock, set_led, set_repeat_rate,
}
use mpstu_bs.Machine.KeyDecoder.{Decoder, decode}

-- The constructor; its result is `led_ctrl_byte`, which starts as 0.
unfoldable pub keyboard_controller : Io ℕ
keyboard_controller = do
  drain_keyboard_buffer
  caps ← set_led led_caps_lock false 0
  scroll ← set_led led_scroll_lock false caps
  num ← set_led led_num_lock false scroll
  set_repeat_rate 0 0
  drain_keyboard_buffer
  pure num

-- `key_hit` after the status has been read.
unfoldable pub key_input : ℕ → Decoder → Io (Key × Decoder)
key_input status d =
    if not (has_bit outb status)
    then pure (no_key, d)
    else if has_bit auxb status
    then (do dropped ← read_data; pure (no_key, d))
    else (do code ← read_data; d' ← decode code d; pure (d'.gather, d'))

unfoldable pub key_hit : Decoder → Io (Key × Decoder)
key_hit d = do status ← read_status; key_input status d
