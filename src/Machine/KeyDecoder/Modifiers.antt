-- ===== src/Machine/KeyDecoder/Modifiers.antt =====
-- What a code does to the modifiers, the lamps and the prefix.
use mpstu_bs.Prelude.{
  ℕ, ◌-◌, ◌<◌, ◌≡◌, refl, ap, ◌∙◌, inl, inr, Bool, true, false, not, ◌||◌, some, List, ◌==◌,
  if◌then◌else◌, get_elem?, arith, Option-cases,
}
use mpstu_bs.Machine.Key.{
  Key, Modifier, shift, alt_left, alt_right, ctrl_left, ctrl_right, caps_lock, num_lock,
  scroll_lock, has_modifier, set_modifier, mask, test_bits, assign_bits,
}
use mpstu_bs.Machine.Key.Flags.{assign_bits-lt, test_bits-assign_bits}
use mpstu_bs.Machine.KeyPort.{
  Ports, led_caps_lock, led_num_lock, led_scroll_lock, led_byte, set_led, send_command,
}
use mpstu_bs.Machine.KeyPort.Led.{>>=-eq-some, Leds, caps-Leds, num-Leds, scroll-Leds}
use mpstu_bs.Machine.KeyDecoder.{
  Decoder, prefix1, ascii_of, numeric_of, get_ascii_code, toggle, plain, normal_tab, shift_tab,
  alt_tab, asc_num_tab, scan_num_tab,
}

-- The decoder between two codes: the modifiers are a byte and the lamps show the lock keys.
pub record IsValid (d : Decoder) : Type 0 where
  pub small : d.gather.modi < 256
  pub lamps :
      Leds
        (has_modifier caps_lock d.gather)
        (has_modifier num_lock d.gather)
        (has_modifier scroll_lock d.gather)
        d.led_ctrl_byte

-- What a code means for the modifiers, from the keyboard's own description.
pub data Event : Type 0 where
  press : Modifier → Event
  release : Modifier → Event
  flip : Modifier → Event
  other : Event

abbrev pub side : ℕ → Modifier → Modifier → Modifier
side prefix left right = if prefix == prefix1 then right else left

-- `ctrl` says whether the left control key is held, which turns num lock into pause.
unfoldable pub event_of : ℕ → Bool → ℕ → Event
event_of prefix ctrl code =
    if (code == 42) || (code == 54)
    then press shift
    else if code == 56
    then press (side prefix alt_left alt_right)
    else if code == 29
    then press (side prefix ctrl_left ctrl_right)
    else if code == 58
    then flip caps_lock
    else if code == 70
    then flip scroll_lock
    else if code == 69
    then (if ctrl then other else flip num_lock)
    else if (code == 170) || (code == 182)
    then release shift
    else if code == 184
    then release (side prefix alt_left alt_right)
    else if code == 157
    then release (side prefix ctrl_left ctrl_right)
    else other

-- The modifiers after an event.
abbrev pub after : Event → Modifier → Bool → Bool
after (press m) n held = if mask m == mask n then true else held
after (release m) n held = if mask m == mask n then false else held
after (flip m) n held = if mask m == mask n then not held else held
after other n held = held

ascii_of-modi :
    (tab : List ℕ) (code : ℕ) (k : Key) {k' : Key}
    → ascii_of tab code k ≡ some k'
    → k'.modi ≡ k.modi
unfolding ascii_of
ascii_of-modi tab code k e = ground (arith, Option-cases (get_elem? tab code))

numeric_of-modi : (i : ℕ) (k : Key) {k' : Key} → numeric_of i k ≡ some k' → k'.modi ≡ k.modi
unfolding numeric_of
numeric_of-modi i k e =
    ground (arith, Option-cases (get_elem? asc_num_tab i), Option-cases (get_elem? scan_num_tab i))

get_ascii_code-modi :
    (prefix code : ℕ) (k : Key) {k' : Key}
    → get_ascii_code prefix code k ≡ some k'
    → k'.modi ≡ k.modi
unfolding get_ascii_code
get_ascii_code-modi prefix code k {k'} e = ground (
  arith,
  numeric_of-modi (code - 71) k {k' = k'},
  ascii_of-modi alt_tab code k {k' = k'},
  ascii_of-modi shift_tab code k {k' = k'},
  ascii_of-modi normal_tab code k {k' = k'},
)

set_led-eq :
    (led : ℕ) (on : Bool) (byte : ℕ) {b : ℕ} (p : Ports) {p' : Ports}
    → set_led led on byte p ≡ some (b, p')
    → b ≡ led_byte led on byte
unfolding set_led
set_led-eq led on byte p e =
    let (_, _, _, r) = >>=-eq-some (send_command 0xed (led_byte led on byte)) _ p e in ground arith

-- What a step of the decoder did to the modifiers, the lamps and the prefix.
abbrev pub Toggled : Modifier → ℕ → Decoder → Decoder → Type 0
Toggled m led d d' =
    let on = not (has_modifier m d.gather) in
    (d'.gather ≡ set_modifier m on d.gather)
    × (d'.led_ctrl_byte
        ≡ led_byte led (has_modifier m (set_modifier m on d.gather)) d.led_ctrl_byte)

pub toggle-eq :
    (m : Modifier) (led : ℕ) (d : Decoder) {d' : Decoder} (p : Ports) {p' : Ports}
    → toggle m led d p ≡ some (d', p')
    → Toggled m led d d'
unfolding toggle
toggle-eq m led d p e =
    let k = set_modifier m (not (has_modifier m d.gather)) d.gather in
    let (b, q, got, r) = >>=-eq-some (set_led led (has_modifier m k) d.led_ctrl_byte) _ p e in
    let lamp = set_led-eq led (has_modifier m k) d.led_ctrl_byte p got in ground arith

pub plain-eq :
    (code : ℕ) (d : Decoder) {d' : Decoder} (p : Ports) {p' : Ports}
    → plain code d p ≡ some (d', p')
    → (d'.gather.modi ≡ d.gather.modi) × (d'.led_ctrl_byte ≡ d.led_ctrl_byte)
unfolding plain
plain-eq code d p e = elim (Option-cases (get_ascii_code d.prefix code d.gather)) [
  | inl failed ↦ ground arith
  | inr (k, got) ↦ ground (arith, get_ascii_code-modi d.prefix code d.gather got)
]

-- What one code did: the modifiers follow the event, the lamps follow the lock keys.
pub record Decoded (event : Event) (d d' : Decoder) : Type 0 where
  pub modifiers :
      (n : Modifier) → has_modifier n d'.gather ≡ after event n (has_modifier n d.gather)
  pub valid : IsValid d'

after-assign :
    (b : Bool) (m n : Modifier) (held : Bool)
    → (if mask m == mask n then b else held) ≡ after (if b then press m else release m) n held
after-assign true m n held = refl
after-assign false m n held = refl

module _ (d d' : Decoder) (v : IsValid d) where
  -- The modifiers after an assignment to one of them.
  assigned :
      (b : Bool) (m n : Modifier)
      → d'.gather.modi ≡ assign_bits b (mask m) d.gather.modi
      → has_modifier n d'.gather ≡ (if mask m == mask n then b else has_modifier n d.gather)
  assigned b m n e = rw e (test_bits-assign_bits b m n d.gather.modi v.small)

  assigned_small :
      (b : Bool) (m : Modifier)
      → d'.gather.modi ≡ assign_bits b (mask m) d.gather.modi
      → d'.gather.modi < 256
  assigned_small b m e = rw e (assign_bits-lt b m d.gather.modi v.small)

  -- A modifier that is no lock key is set or cleared; no lamp changes.
  pub held-Decoded :
      (b : Bool) (m : Modifier)
      → d'.gather.modi ≡ assign_bits b (mask m) d.gather.modi
      → d'.led_ctrl_byte ≡ d.led_ctrl_byte
      → mask m < 32
      → Decoded (if b then press m else release m) d d'
  held-Decoded b m e l low = record {
    modifiers = λ n. assigned b m n e ∙ after-assign b m n (has_modifier n d.gather);
    valid = record {
      small = assigned_small b m e;
      lamps = record {
        caps_lit = ground (arith, assigned b m caps_lock e, v.lamps.caps_lit);
        num_lit = ground (arith, assigned b m num_lock e, v.lamps.num_lit);
        scroll_lit = ground (arith, assigned b m scroll_lock e, v.lamps.scroll_lit);
        small = rw l v.lamps.small;
      };
    };
  }

  -- The modifiers and the lamps are as before.
  pub same-Decoded :
      d'.gather.modi ≡ d.gather.modi → d'.led_ctrl_byte ≡ d.led_ctrl_byte → Decoded other d d'
  same-Decoded e l = record {
    modifiers = λ n. ap (λ x. test_bits x (mask n)) e;
    valid = record { small = rw e v.small; lamps = rw (e, l) v.lamps };
  }

  -- A lock key is flipped, and its lamp with it.
  flip-modifiers :
      (m : Modifier) (led : ℕ)
      → Toggled m led d d'
      → (n : Modifier) → has_modifier n d'.gather ≡ after (flip m) n (has_modifier n d.gather)
  flip-modifiers m led t n =
      let e = ap (λ (k : Key). k.modi) t.0 in
      ground (arith, assigned (not (has_modifier m d.gather)) m n e)

  flip-valid :
      (m : Modifier) (led : ℕ) (caps num scroll : Bool)
      → Toggled m led d d'
      → Leds caps num scroll (led_byte led (not (has_modifier m d.gather)) d.led_ctrl_byte)
      → has_modifier caps_lock d'.gather ≡ caps
      → has_modifier num_lock d'.gather ≡ num
      → has_modifier scroll_lock d'.gather ≡ scroll
      → IsValid d'
  flip-valid m led caps num scroll t lamps c n s =
      let on = not (has_modifier m d.gather) in
      let e : d'.gather.modi ≡ assign_bits on (mask m) d.gather.modi =
        ap (λ (k : Key). k.modi) t.0 in
      let read : has_modifier m (set_modifier m on d.gather) ≡ on =
        ground (arith, test_bits-assign_bits on m m d.gather.modi v.small) in
      let l : d'.led_ctrl_byte ≡ led_byte led on d.led_ctrl_byte =
        t.1 ∙ ap (λ b. led_byte led b d.led_ctrl_byte) read in
      record { small = assigned_small on m e; lamps = rw (l, c, n, s) lamps }

  pub caps-Decoded : Toggled caps_lock led_caps_lock d d' → Decoded (flip caps_lock) d d'
  caps-Decoded t = record {
    modifiers = flip-modifiers caps_lock led_caps_lock t;
    valid =
        flip-valid caps_lock led_caps_lock _ _ _ t
          (caps-Leds (not (has_modifier caps_lock d.gather)) v.lamps)
          (flip-modifiers caps_lock led_caps_lock t caps_lock)
          (flip-modifiers caps_lock led_caps_lock t num_lock)
          (flip-modifiers caps_lock led_caps_lock t scroll_lock);
  }

  pub num-Decoded : Toggled num_lock led_num_lock d d' → Decoded (flip num_lock) d d'
  num-Decoded t = record {
    modifiers = flip-modifiers num_lock led_num_lock t;
    valid =
        flip-valid num_lock led_num_lock _ _ _ t
          (num-Leds (not (has_modifier num_lock d.gather)) v.lamps)
          (flip-modifiers num_lock led_num_lock t caps_lock)
          (flip-modifiers num_lock led_num_lock t num_lock)
          (flip-modifiers num_lock led_num_lock t scroll_lock);
  }

  pub scroll-Decoded : Toggled scroll_lock led_scroll_lock d d' → Decoded (flip scroll_lock) d d'
  scroll-Decoded t = record {
    modifiers = flip-modifiers scroll_lock led_scroll_lock t;
    valid =
        flip-valid scroll_lock led_scroll_lock _ _ _ t
          (scroll-Leds (not (has_modifier scroll_lock d.gather)) v.lamps)
          (flip-modifiers scroll_lock led_scroll_lock t caps_lock)
          (flip-modifiers scroll_lock led_scroll_lock t num_lock)
          (flip-modifiers scroll_lock led_scroll_lock t scroll_lock);
  }
