-- ===== src/Machine/KeyDecoder.antt =====
-- machine/keydecoder.h and machine/keydecoder.cc: from make and break codes to keys.
pub mod Modifiers
pub mod Validity
pub mod Decode
pub mod Total
pub mod Behind
use mpstu_bs.Prelude.{
  ℕ, ◌-◌, Bool, true, false, not, ◌&&◌, ◌||◌, Option, none, some, List, [], ◌∷◌, leb, ◌==◌,
  if◌then◌else◌, get_elem?,
}
use mpstu_bs.Machine.Key.{
  Key, Modifier, shift, alt_left, alt_right, ctrl_left, ctrl_right, caps_lock, num_lock,
  scroll_lock, invalidate, has_modifier, set_modifier, scan_div,
}
use mpstu_bs.Machine.KeyPort.{
  Io, pure, ◌>>=◌, led_caps_lock, led_num_lock, led_scroll_lock, set_led,
}

unfoldable pub normal_tab : List ℕ
normal_tab =
    0 ∷ 0 ∷ 49 ∷ 50 ∷ 51 ∷ 52 ∷ 53 ∷ 54 ∷ 55 ∷ 56 ∷ 57 ∷ 48 ∷ 225 ∷ 39 ∷ 8 ∷ 9 ∷ 113 ∷ 119 ∷ 101
    ∷ 114 ∷ 116 ∷ 122 ∷ 117 ∷ 105 ∷ 111 ∷ 112 ∷ 129 ∷ 43 ∷ 10 ∷ 0 ∷ 97 ∷ 115 ∷ 100 ∷ 102 ∷ 103 ∷ 104
    ∷ 106 ∷ 107 ∷ 108 ∷ 148 ∷ 132 ∷ 94 ∷ 0 ∷ 35 ∷ 121 ∷ 120 ∷ 99 ∷ 118 ∷ 98 ∷ 110 ∷ 109 ∷ 44 ∷ 46
    ∷ 45 ∷ 0 ∷ 42 ∷ 0 ∷ 32 ∷ 0 ∷ 0 ∷ 0 ∷ 0 ∷ 0 ∷ 0 ∷ 0 ∷ 0 ∷ 0 ∷ 0 ∷ 0 ∷ 0 ∷ 0 ∷ 0 ∷ 0 ∷ 0 ∷ 45 ∷ 0
    ∷ 0 ∷ 0 ∷ 43 ∷ 0 ∷ 0 ∷ 0 ∷ 0 ∷ 0 ∷ 0 ∷ 0 ∷ 60 ∷ 0 ∷ 0 ∷ []

unfoldable pub shift_tab : List ℕ
shift_tab =
    0 ∷ 0 ∷ 33 ∷ 34 ∷ 21 ∷ 36 ∷ 37 ∷ 38 ∷ 47 ∷ 40 ∷ 41 ∷ 61 ∷ 63 ∷ 96 ∷ 0 ∷ 0 ∷ 81 ∷ 87 ∷ 69 ∷ 82
    ∷ 84 ∷ 90 ∷ 85 ∷ 73 ∷ 79 ∷ 80 ∷ 154 ∷ 42 ∷ 0 ∷ 0 ∷ 65 ∷ 83 ∷ 68 ∷ 70 ∷ 71 ∷ 72 ∷ 74 ∷ 75 ∷ 76
    ∷ 153 ∷ 142 ∷ 248 ∷ 0 ∷ 39 ∷ 89 ∷ 88 ∷ 67 ∷ 86 ∷ 66 ∷ 78 ∷ 77 ∷ 59 ∷ 58 ∷ 95 ∷ 0 ∷ 0 ∷ 0 ∷ 32
    ∷ 0 ∷ 0 ∷ 0 ∷ 0 ∷ 0 ∷ 0 ∷ 0 ∷ 0 ∷ 0 ∷ 0 ∷ 0 ∷ 0 ∷ 0 ∷ 0 ∷ 0 ∷ 0 ∷ 0 ∷ 0 ∷ 0 ∷ 0 ∷ 0 ∷ 0 ∷ 0 ∷ 0
    ∷ 0 ∷ 0 ∷ 0 ∷ 0 ∷ 62 ∷ 0 ∷ 0 ∷ []

unfoldable pub alt_tab : List ℕ
alt_tab =
    0 ∷ 0 ∷ 0 ∷ 253 ∷ 0 ∷ 0 ∷ 0 ∷ 0 ∷ 123 ∷ 91 ∷ 93 ∷ 125 ∷ 92 ∷ 0 ∷ 0 ∷ 0 ∷ 64 ∷ 0 ∷ 0 ∷ 0 ∷ 0 ∷ 0
    ∷ 0 ∷ 0 ∷ 0 ∷ 0 ∷ 0 ∷ 126 ∷ 0 ∷ 0 ∷ 0 ∷ 0 ∷ 0 ∷ 0 ∷ 0 ∷ 0 ∷ 0 ∷ 0 ∷ 0 ∷ 0 ∷ 0 ∷ 0 ∷ 0 ∷ 0 ∷ 0
    ∷ 0 ∷ 0 ∷ 0 ∷ 0 ∷ 0 ∷ 230 ∷ 0 ∷ 0 ∷ 0 ∷ 0 ∷ 0 ∷ 0 ∷ 0 ∷ 0 ∷ 0 ∷ 0 ∷ 0 ∷ 0 ∷ 0 ∷ 0 ∷ 0 ∷ 0 ∷ 0
    ∷ 0 ∷ 0 ∷ 0 ∷ 0 ∷ 0 ∷ 0 ∷ 0 ∷ 0 ∷ 0 ∷ 0 ∷ 0 ∷ 0 ∷ 0 ∷ 0 ∷ 0 ∷ 0 ∷ 0 ∷ 0 ∷ 124 ∷ 0 ∷ 0 ∷ []

unfoldable pub asc_num_tab : List ℕ
asc_num_tab = 55 ∷ 56 ∷ 57 ∷ 45 ∷ 52 ∷ 53 ∷ 54 ∷ 43 ∷ 49 ∷ 50 ∷ 51 ∷ 48 ∷ 44 ∷ []

unfoldable pub scan_num_tab : List ℕ
scan_num_tab = 8 ∷ 9 ∷ 10 ∷ 53 ∷ 5 ∷ 6 ∷ 7 ∷ 27 ∷ 2 ∷ 3 ∷ 4 ∷ 11 ∷ 51 ∷ []

-- The fields of Key_Decoder, and the `led_ctrl_byte` of the controller that it calls.
pub record Decoder : Type 0 where
  pub prefix : ℕ
  pub gather : Key
  pub led_ctrl_byte : ℕ

abbrev pub prefix1 : ℕ
prefix1 = 0xe0

abbrev pub prefix2 : ℕ
prefix2 = 0xe1

abbrev pub break_bit : ℕ
break_bit = 0x80

-- The letters, which caps lock turns into capitals.
abbrev pub is_letter_code : ℕ → Bool
is_letter_code code =
    (leb 16 code && leb code 26) || (leb 30 code && leb code 40) || (leb 44 code && leb code 50)

-- The ASCII code and the scan code that `get_ascii_code` sets; a read behind a table is `none`.
unfoldable pub ascii_of : List ℕ → ℕ → Key → Option Key
ascii_of tab code k = elim (get_elem? tab code) [
  | none ↦ none
  | some a ↦ some (record k { asc = a; scan = code })
]

unfoldable pub numeric_of : ℕ → Key → Option Key
numeric_of i k = elim (get_elem? asc_num_tab i) [
  | none ↦ none
  | some a ↦ elim (get_elem? scan_num_tab i) [
    | none ↦ none
    | some s ↦ some (record k { asc = a; scan = s })
  ]
]

unfoldable pub get_ascii_code : ℕ → ℕ → Key → Option Key
get_ascii_code prefix code k =
    if (code == 53) && (prefix == prefix1)
    then some (record k { asc = b'/'; scan = scan_div })
    else if has_modifier num_lock k && (prefix == 0) && leb 71 code && leb code 83
    then numeric_of (code - 71) k
    else if has_modifier alt_right k
    then ascii_of alt_tab code k
    else if has_modifier shift k
    then ascii_of shift_tab code k
    else if has_modifier caps_lock k
    then ascii_of (if is_letter_code code then shift_tab else normal_tab) code k
    else ascii_of normal_tab code k

-- The `switch` for a released key; the prefix tells left from right.
unfoldable pub break_code : ℕ → ℕ → Key → Key
break_code prefix code k =
    if (code == 42) || (code == 54)
    then set_modifier shift false k
    else if code == 56
    then set_modifier (if prefix == prefix1 then alt_right else alt_left) false k
    else if code == 29
    then set_modifier (if prefix == prefix1 then ctrl_right else ctrl_left) false k
    else k

-- A lock key flips its modifier and sets its lamp to match.
unfoldable pub toggle : Modifier → ℕ → Decoder → Io Decoder
toggle m led d = do
  let k = set_modifier m (not (has_modifier m d.gather)) d.gather
  byte ← set_led led (has_modifier m k) d.led_ctrl_byte
  pure (record d { gather = k; led_ctrl_byte = byte })

-- A key that has an ASCII code.
unfoldable pub plain : ℕ → Decoder → Io Decoder
plain code d p = elim (get_ascii_code d.prefix code d.gather) [
  | none ↦ none
  | some k ↦ some (record d { gather = k }, p)
]

-- The `switch` for a pressed key.
unfoldable pub make_code : ℕ → Decoder → Io Decoder
make_code code d =
    if (code == 42) || (code == 54)
    then pure (record d { gather = set_modifier shift true d.gather })
    else if code == 56
    then pure (record d {
      gather = set_modifier (if d.prefix == prefix1 then alt_right else alt_left) true d.gather;
    })
    else if code == 29
    then pure (record d {
      gather = set_modifier (if d.prefix == prefix1 then ctrl_right else ctrl_left) true d.gather;
    })
    else if code == 58
    then toggle caps_lock led_caps_lock d
    else if code == 70
    then toggle scroll_lock led_scroll_lock d
    else if code == 69
    then (if has_modifier ctrl_left d.gather then plain code d else toggle num_lock led_num_lock d)
    else if (code == 91) || (code == 92) || (code == 93)
    then pure d
    else plain code d

-- `decode`; the key that it returns is `gather` of the new state.
unfoldable pub decode : ℕ → Decoder → Io Decoder
decode code d =
    let d1 = record d { gather = invalidate d.gather } in
    if (code == prefix1) || (code == prefix2)
    then pure (record d1 { prefix = code })
    else if leb break_bit code
    then pure (record d1 { gather = break_code d1.prefix (code - break_bit) d1.gather; prefix = 0 })
    else (do d2 ← make_code code d1; pure (record d2 { prefix = 0 }))
