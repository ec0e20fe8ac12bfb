-- ===== src/Machine/KeyHit/Input.antt =====
-- The keyboard controller at work: what its constructor leaves, and what `key_hit` returns.
use mpstu_bs.Prelude.{
  ℕ, ◌≡◌, refl, inl, inr, ◌++◌, true, false, not, ◌&&◌, ◌||◌, some, List, [], ◌∷◌, leb, ltb, ◌==◌,
  if◌then◌else◌, arith, Bool-cases,
}
use mpstu_bs.Machine.Key.{no_key}
use mpstu_bs.Machine.KeyPort.{
  Ports, pure, read_status, read_data, has_bit, outb, inpb, auxb, wait_free, send_byte,
  send_command, write_port, drain_loop, drain_keyboard_buffer, set_led, led_byte, set_repeat_rate,
}
use mpstu_bs.Machine.KeyPort.Led.{AllBusy, >>=-some}
use mpstu_bs.Machine.KeyDecoder.{Decoder, decode}
use mpstu_bs.Machine.KeyDecoder.Total.{busy_twice, decode-some}
use mpstu_bs.Machine.KeyHit.{keyboard_controller, key_input, key_hit}

-- The bytes that the constructor sends to the data port.
abbrev pub setup_bytes : List (ℕ × ℕ)
setup_bytes =
    (0x60, 0xed)
    ∷ (0x60, 0)
    ∷ (0x60, 0xed)
    ∷ (0x60, 0)
    ∷ (0x60, 0xed)
    ∷ (0x60, 0)
    ∷ (0x60, 0xf3)
    ∷ (0x60, 0)
    ∷ []

-- With a controller that is neither full nor busy the constructor ends, switches off the three
-- lamps and sets the fastest repeat rate, in this order, and reads no data.
pub keyboard_controller_lem :
    (s : ℕ) (rest input : List ℕ)
    → has_bit outb s ≡ false
    → has_bit inpb s ≡ false
    → keyboard_controller
        (record { status = s ∷ s ∷ s ∷ s ∷ s ∷ s ∷ s ∷ s ∷ s ∷ s ∷ rest; input = input; sent = [] })
      ≡ some (0, record { status = rest; input = input; sent = setup_bytes })
unfolding keyboard_controller drain_keyboard_buffer drain_loop set_led set_repeat_rate send_command
    send_byte wait_free write_port led_byte
keyboard_controller_lem s rest input o i = ground arith

-- Without a byte of the keyboard, `key_hit` returns an invalid key and leaves the decoder as it is;
-- it drops the byte of a mouse and reads none where none waits.
pub key_hit-ignored :
    (d : Decoder) (s x : ℕ) (rest input : List ℕ) (sent : List (ℕ × ℕ))
    → (has_bit outb s && not (has_bit auxb s)) ≡ false
    → key_hit d (record { status = s ∷ rest; input = x ∷ input; sent = sent })
      ≡ some (
        (no_key, d),
        record { status = rest; input = if has_bit outb s then input else x ∷ input; sent = sent },
      )
unfolding key_hit key_input read_status read_data
key_hit-ignored d s x rest input sent h = elim (Bool-cases (has_bit outb s)) [
  | inl full ↦ let mouse : has_bit auxb s ≡ true = ground arith in rw (full, mouse) refl
  | inr empty ↦ rw empty refl
]

-- For a byte of the keyboard that the tables cover, `key_hit` returns the key that `decode` gathers
-- from it, when the controller becomes free twice.
pub key_hit-decode :
    (busy1 busy2 rest input : List ℕ) (free1 free2 : ℕ) (sent : List (ℕ × ℕ)) (s code : ℕ)
    (d : Decoder)
    → AllBusy busy1
    → AllBusy busy2
    → has_bit inpb free1 ≡ false
    → has_bit inpb free2 ≡ false
    → has_bit outb s ≡ true
    → has_bit auxb s ≡ false
    → (ltb code 89 || (code == 91) || (code == 92) || (code == 93) || leb 128 code) ≡ true
    → (d' : Decoder) × (p' : Ports) × (decode code d
          (busy_twice busy1 free1 busy2 free2 rest input sent)
        ≡ some (d', p'))
      × (key_hit d (record {
        status = s ∷ (busy1 ++ free1 ∷ (busy2 ++ free2 ∷ rest));
        input = code ∷ input;
        sent = sent;
      })
          ≡ some ((d'.gather, d'), p'))
unfolding key_hit key_input read_status read_data
key_hit-decode busy1 busy2 rest input free1 free2 sent s code d b1 b2 f1 f2 full no_mouse c =
    let (d', p', e) = decode-some busy1 busy2 rest input free1 free2 sent b1 b2 f1 f2 code d c in
    (
      d',
      p',
      e,
      rw (full, no_mouse) (>>=-some (decode code d) (λ d'. pure (d'.gather, d')) _ p' d' e),
    )
