-- ===== src/Machine/KeyDecoder/Total.antt =====
-- Key_Decoder::decode returns: which codes the tables cover, and what the controller must answer.
use mpstu_bs.Prelude.{
  ℕ, zero, suc, ◌-◌, ◌<◌, ◌≡◌, refl, inl, inr, ◌⊎◌, ◌++◌, true, false, not, ◌&&◌, ◌||◌, some, List,
  [], ◌∷◌, ltb, leb, ◌==◌, get_elem?, length, arith, Bool-cases,
}
use mpstu_bs.Machine.Key.{
  Key, Modifier, alt_right, shift, caps_lock, num_lock, ctrl_left, scroll_lock, has_modifier,
  invalidate, set_modifier,
}
use mpstu_bs.Machine.KeyPort.{
  Ports, pure, has_bit, inpb, send_command, set_led, led_byte, led_caps_lock, led_num_lock,
  led_scroll_lock,
}
use mpstu_bs.Machine.KeyPort.Led.{AllBusy, >>=-some, send_command_lem}
use mpstu_bs.Machine.KeyDecoder.{
  Decoder, prefix1, prefix2, break_bit, is_letter_code, ascii_of, numeric_of, get_ascii_code,
  toggle, plain, make_code, decode, normal_tab, shift_tab, alt_tab, asc_num_tab, scan_num_tab,
}

get_elem?-some : (xs : List ℕ) (i : ℕ) → i < length xs → (x : ℕ) × (get_elem? xs i ≡ some x)
get_elem?-some [] i h = absurd (omega arith)
get_elem?-some (x ∷ xs) zero h = (x, refl)
get_elem?-some (x ∷ xs) (suc i) h = get_elem?-some xs i (omega arith)

ascii_of-some :
    (tab : List ℕ) (code : ℕ) (k : Key)
    → length tab ≡ 89
    → code < 89
    → (k' : Key) × (ascii_of tab code k ≡ some k')
unfolding ascii_of
ascii_of-some tab code k e h =
    let (x, p) = get_elem?-some tab code (rw e h) in rw (p, ascii_of) (_, refl)

pub normal_tab-length : length normal_tab ≡ 89
unfolding normal_tab
normal_tab-length = refl

pub shift_tab-length : length shift_tab ≡ 89
unfolding shift_tab
shift_tab-length = refl

pub alt_tab-length : length alt_tab ≡ 89
unfolding alt_tab
alt_tab-length = refl

asc_num_tab-length : length asc_num_tab ≡ 13
unfolding asc_num_tab
asc_num_tab-length = refl

scan_num_tab-length : length scan_num_tab ≡ 13
unfolding scan_num_tab
scan_num_tab-length = refl

numeric_of-some : (i : ℕ) (k : Key) → i < 13 → (k' : Key) × (numeric_of i k ≡ some k')
unfolding numeric_of
numeric_of-some i k h =
    let (a, p) = get_elem?-some asc_num_tab i (rw asc_num_tab-length h) in
    let (s, q) = get_elem?-some scan_num_tab i (rw scan_num_tab-length h) in
    rw (p, q, numeric_of) (_, refl)

get_ascii_code-some :
    (prefix code : ℕ) (k : Key) → code < 89 → (k' : Key) × (get_ascii_code prefix code k ≡ some k')
unfolding get_ascii_code
get_ascii_code-some prefix code k h = elim (Bool-cases ((code == 53) && (prefix == prefix1))) [
  | inl a ↦ rw a (_, refl)
  | inr a ↦
      rw a
        (elim (Bool-cases
          (has_modifier num_lock k && (prefix == 0) && leb 71 code && leb code 83)) [
            | inl b ↦ rw b (numeric_of-some (code - 71) k (ground arith))
            | inr b ↦ rw b (elim (Bool-cases (has_modifier alt_right k)) [
              | inl c ↦ rw c (ascii_of-some alt_tab code k alt_tab-length h)
              | inr c ↦ rw c (elim (Bool-cases (has_modifier shift k)) [
                | inl d ↦ rw d (ascii_of-some shift_tab code k shift_tab-length h)
                | inr d ↦ rw d (elim (Bool-cases (has_modifier caps_lock k)) [
                  | inl e ↦ rw e (elim (Bool-cases (is_letter_code code)) [
                    | inl f ↦ rw f (ascii_of-some shift_tab code k shift_tab-length h)
                    | inr f ↦ rw f (ascii_of-some normal_tab code k normal_tab-length h)
                  ])
                  | inr e ↦ rw e (ascii_of-some normal_tab code k normal_tab-length h)
                ])
              ])
            ])
          ])
]

plain-some :
    (code : ℕ) (d : Decoder) (p : Ports)
    → code < 89
    → (d' : Decoder) × (p' : Ports) × (plain code d p ≡ some (d', p'))
unfolding plain
plain-some code d p h =
    let (k, e) = get_ascii_code-some d.prefix code d.gather h in rw (e, plain) (_, _, refl)

-- A controller that is busy as long as it likes, twice.
abbrev pub busy_twice : List ℕ → ℕ → List ℕ → ℕ → List ℕ → List ℕ → List (ℕ × ℕ) → Ports
busy_twice busy1 free1 busy2 free2 rest input sent = record {
  status = busy1 ++ free1 ∷ (busy2 ++ free2 ∷ rest);
  input = input;
  sent = sent;
}

covered :
    (code : ℕ)
    → (ltb code 89 || (code == 91) || (code == 92) || (code == 93) || leb 128 code) ≡ true
    → leb 128 code ≡ false
    → (code < 89) ⊎ (((code == 91) || (code == 92) || (code == 93)) ≡ true)
covered code c down = elim (Bool-cases (ltb code 89)) [
  | inl l ↦ inl (ground arith)
  | inr l ↦ inr (ground arith)
]

module _ (busy1 busy2 rest input : List ℕ) (free1 free2 : ℕ) (sent : List (ℕ × ℕ))
    (b1 : AllBusy busy1) (b2 : AllBusy busy2) (f1 : has_bit inpb free1 ≡ false)
    (f2 : has_bit inpb free2 ≡ false) where
  toggle-some :
      (m : Modifier) (led : ℕ) (d : Decoder)
      → (d' : Decoder) × (p' : Ports) × (toggle m led d
            (busy_twice busy1 free1 busy2 free2 rest input sent)
          ≡ some (d', p'))
  unfolding toggle set_led
  toggle-some m led d =
      let k = set_modifier m (not (has_modifier m d.gather)) d.gather in
      let byte = led_byte led (has_modifier m k) d.led_ctrl_byte in
      let p = busy_twice busy1 free1 busy2 free2 rest input sent in
      let q : Ports = record {
        status = rest;
        input = input;
        sent = (sent ++ (0x60, 0xed) ∷ []) ++ (0x60, byte) ∷ [];
      } in
      let done = send_command_lem 0xed byte busy1 busy2 rest input free1 free2 sent b1 b2 f1 f2 in
      let lamp : set_led led (has_modifier m k) d.led_ctrl_byte p ≡ some (byte, q) =
        >>=-some (send_command 0xed byte) (λ _. pure byte) p q tt done in
      (
        record d { gather = k; led_ctrl_byte = byte },
        q,
        >>=-some (set_led led (has_modifier m k) d.led_ctrl_byte)
            (λ b. pure (record d { gather = k; led_ctrl_byte = b })) p q byte lamp,
      )

  make_code-some :
      (code : ℕ) (d : Decoder)
      → (code < 89) ⊎ (((code == 91) || (code == 92) || (code == 93)) ≡ true)
      → (d' : Decoder) × (p' : Ports) × (make_code code d
            (busy_twice busy1 free1 busy2 free2 rest input sent)
          ≡ some (d', p'))
  unfolding make_code
  make_code-some code d c = elim (Bool-cases ((code == 42) || (code == 54))) [
    | inl h ↦ rw h (_, _, refl)
    | inr h1 ↦ rw h1 (elim (Bool-cases (code == 56)) [
      | inl h ↦ rw h (_, _, refl)
      | inr h2 ↦ rw h2 (elim (Bool-cases (code == 29)) [
        | inl h ↦ rw h (_, _, refl)
        | inr h3 ↦ rw h3 (elim (Bool-cases (code == 58)) [
          | inl h ↦ rw h (toggle-some caps_lock led_caps_lock d)
          | inr h4 ↦ rw h4 (elim (Bool-cases (code == 70)) [
            | inl h ↦ rw h (toggle-some scroll_lock led_scroll_lock d)
            | inr h5 ↦ rw h5 (elim (Bool-cases (code == 69)) [
              | inl h ↦ rw h (elim (Bool-cases (has_modifier ctrl_left d.gather)) [
                | inl k ↦ rw k (plain-some code d _ (ground arith))
                | inr k ↦ rw k (toggle-some num_lock led_num_lock d)
              ])
              | inr h6 ↦ rw h6 (elim (Bool-cases ((code == 91) || (code == 92) || (code == 93))) [
                | inl h ↦ rw h (_, _, refl)
                | inr h ↦ rw h (plain-some code d _ (ground arith))
              ])
            ])
          ])
        ])
      ])
    ])
  ]

  -- `decode` returns for every released code and prefix, and for every pressed code below 89 or
  -- from 91 to 93, when the controller becomes free twice.
  pub decode-some :
      (code : ℕ) (d : Decoder)
      → (ltb code 89 || (code == 91) || (code == 92) || (code == 93) || leb 128 code) ≡ true
      → (d' : Decoder) × (p' : Ports) × (decode code d
            (busy_twice busy1 free1 busy2 free2 rest input sent)
          ≡ some (d', p'))
  unfolding decode
  decode-some code d c = elim (Bool-cases ((code == prefix1) || (code == prefix2))) [
    | inl pre ↦ rw pre (_, _, refl)
    | inr no_pre ↦ rw no_pre (elim (Bool-cases (leb break_bit code)) [
      | inl up ↦ rw up (_, _, refl)
      | inr down ↦ rw down (
          let (d2, p2, e) =
            make_code-some code (record d { gather = invalidate d.gather }) (covered code c down) in
          (
            record d2 { prefix = 0 },
            p2,
            >>=-some (make_code code (record d { gather = invalidate d.gather }))
                (λ d3. pure (record d3 { prefix = 0 })) _ p2 d2 e,
          ))
    ])
  ]
