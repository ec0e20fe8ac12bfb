-- ===== src/Machine/KeyDecoder/Decode.antt =====
-- Key_Decoder::decode as a whole: the modifiers follow the codes, and which codes give a key.
use mpstu_bs.Prelude.{
  ℕ, ◌-◌, ◌<◌, ◌≤◌, ◌≡◌, refl, ap, subst, ◌∙◌, inl, inr, Bool, true, false, ◌||◌, none, some, leb,
  ◌==◌, if◌then◌else◌, arith, Bool-cases,
}
use mpstu_bs.Machine.Key.{
  Modifier, shift, alt_left, alt_right, ctrl_left, ctrl_right, caps_lock, num_lock, scroll_lock,
  invalidate, has_modifier, mask, valid,
}
use mpstu_bs.Machine.KeyPort.{Ports, pure, led_caps_lock, led_num_lock, led_scroll_lock}
use mpstu_bs.Machine.KeyPort.Led.{>>=-eq-some}
use mpstu_bs.Machine.KeyDecoder.{
  Decoder, prefix1, prefix2, break_bit, break_code, toggle, plain, make_code, decode,
}
use mpstu_bs.Machine.KeyDecoder.Validity.{gives_key, make_code-valid}
use mpstu_bs.Machine.KeyDecoder.Modifiers.{
  IsValid, release, flip, other, side, event_of, Decoded, plain-eq, toggle-eq, held-Decoded,
  same-Decoded, caps-Decoded, num-Decoded, scroll-Decoded,
}

side-mask : (prefix : ℕ) (l r : Modifier) → mask l < 32 → mask r < 32 → mask (side prefix l r) < 32
side-mask prefix l r hl hr = elim (Bool-cases (prefix == prefix1)) [
  | inl h ↦ rw h hr
  | inr h ↦ rw h hl
]

module _ (d d' : Decoder) (p p' : Ports) (v : IsValid d) where
  plain-Decoded : (code : ℕ) → plain code d p ≡ some (d', p') → Decoded other d d'
  plain-Decoded code e = let (m, l) = plain-eq code d p e in same-Decoded d d' v m l

  -- The tail of the two ladders, from num lock on.
  late :
      (code : ℕ)
      → code < 128
      → (if code == 69
            then (if has_modifier ctrl_left d.gather
                then plain code d
                else toggle num_lock led_num_lock d)
            else if (code == 91) || (code == 92) || (code == 93)
            then pure d
            else plain code d)
          p
        ≡ some (d', p')
      → Decoded
          (if code == 69
            then (if has_modifier ctrl_left d.gather then other else flip num_lock)
            else if (code == 170) || (code == 182)
            then release shift
            else if code == 184
            then release (side d.prefix alt_left alt_right)
            else if code == 157
            then release (side d.prefix ctrl_left ctrl_right)
            else other)
          d
          d'
  late code low = elim (Bool-cases (code == 69)) [
    | inl h ↦ rw h (elim (Bool-cases (has_modifier ctrl_left d.gather)) [
      | inl c ↦ rw c (plain-Decoded code)
      | inr c ↦ rw c (λ e. num-Decoded d d' v (toggle-eq num_lock led_num_lock d p e))
    ])
    | inr h ↦
        let a : ((code == 170) || (code == 182)) ≡ false = ground arith in
        let b : (code == 184) ≡ false = ground arith in
        let c : (code == 157) ≡ false = ground arith in
        rw (h, a, b, c)
          (elim (Bool-cases ((code == 91) || (code == 92) || (code == 93))) [
            | inl m ↦ rw m (λ e. same-Decoded d d' v (ground arith) (ground arith))
            | inr m ↦ rw m (plain-Decoded code)
          ])
  ]

  make_code-Decoded :
      (code : ℕ)
      → code < 128
      → make_code code d p ≡ some (d', p')
      → Decoded (event_of d.prefix (has_modifier ctrl_left d.gather) code) d d'
  unfolding make_code event_of
  make_code-Decoded code low = elim (Bool-cases ((code == 42) || (code == 54))) [
    | inl h ↦ rw h (λ e. held-Decoded d d' v true shift (ground arith) (ground arith) (omega arith))
    | inr h1 ↦ rw h1 (elim (Bool-cases (code == 56)) [
      | inl h ↦ rw h (λ e.
          held-Decoded d d' v true (side d.prefix alt_left alt_right) (ground arith) (ground arith)
            (side-mask d.prefix alt_left alt_right (omega arith) (omega arith)))
      | inr h2 ↦ rw h2 (elim (Bool-cases (code == 29)) [
        | inl h ↦ rw h (λ e.
            held-Decoded d d' v true (side d.prefix ctrl_left ctrl_right) (ground arith)
              (ground arith) (side-mask d.prefix ctrl_left ctrl_right (omega arith) (omega arith)))
        | inr h3 ↦ rw h3 (elim (Bool-cases (code == 58)) [
          | inl h ↦ rw h (λ e. caps-Decoded d d' v (toggle-eq caps_lock led_caps_lock d p e))
          | inr h4 ↦ rw h4 (elim (Bool-cases (code == 70)) [
            | inl h ↦
                rw h (λ e. scroll-Decoded d d' v (toggle-eq scroll_lock led_scroll_lock d p e))
            | inr h5 ↦ rw h5 (late code low)
          ])
        ])
      ])
    ])
  ]

-- The decoder after a released key.
abbrev released : Decoder → ℕ → Decoder
released d code = record d {
  gather = break_code d.prefix (code - break_bit) (invalidate d.gather);
  prefix = 0;
}

module _ (d : Decoder) (v : IsValid d) where
  event_of-break :
      (ctrl : Bool) (code : ℕ)
      → 128 ≤ code
      → event_of d.prefix ctrl code ≡ (
          if (code == 170) || (code == 182)
          then release shift
          else if code == 184
          then release (side d.prefix alt_left alt_right)
          else if code == 157
          then release (side d.prefix ctrl_left ctrl_right)
          else other)
  unfolding event_of
  event_of-break ctrl code high =
      let a : ((code == 42) || (code == 54)) ≡ false = ground arith in
      let b : (code == 56) ≡ false = ground arith in
      let c : (code == 29) ≡ false = ground arith in
      let e : (code == 58) ≡ false = ground arith in
      let f : (code == 70) ≡ false = ground arith in
      let g : (code == 69) ≡ false = ground arith in rw (a, b, c, e, f, g) refl

  break_code-Decoded :
      (code : ℕ)
      → 128 ≤ code
      → Decoded (event_of d.prefix (has_modifier ctrl_left d.gather) code) d (released d code)
  unfolding break_code
  break_code-Decoded code high =
      rw (event_of-break (has_modifier ctrl_left d.gather) code high)
        (elim (Bool-cases ((code == 170) || (code == 182))) [
          | inl h ↦
              let a : ((code - 128 == 42) || (code - 128 == 54)) ≡ true = ground arith in
              rw h (held-Decoded d (released d code) v false shift (rw a refl) refl (omega arith))
          | inr h ↦
              let a : ((code - 128 == 42) || (code - 128 == 54)) ≡ false = ground arith in
              rw h (elim (Bool-cases (code == 184)) [
                | inl k ↦
                    let b : (code - 128 == 56) ≡ true = ground arith in
                    rw k (
                      held-Decoded d (released d code) v false (side d.prefix alt_left alt_right)
                        (rw (a, b) refl) refl
                        (side-mask d.prefix alt_left alt_right (omega arith) (omega arith)))
                | inr k ↦
                    let b : (code - 128 == 56) ≡ false = ground arith in
                    rw k (elim (Bool-cases (code == 157)) [
                      | inl l ↦
                          let c : (code - 128 == 29) ≡ true = ground arith in
                          rw l (
                            held-Decoded d (released d code) v false
                              (side d.prefix ctrl_left ctrl_right) (rw (a, b, c) refl) refl
                              (side-mask d.prefix ctrl_left ctrl_right (omega arith) (omega arith)))
                      | inr l ↦
                          let c : (code - 128 == 29) ≡ false = ground arith in
                          rw l (same-Decoded d (released d code) v (rw (a, b, c) refl) refl)
                    ])
              ])
        ])

  break_code-invalid : (code : ℕ) → valid (released d code).gather ≡ false
  unfolding break_code
  break_code-invalid code = ground arith

-- What one code does: the modifiers follow the event, a prefix is kept for the next code and no
-- longer, and the key is valid exactly when the code gives one.
pub record Outcome (code : ℕ) (d d' : Decoder) : Type 0 where
  pub decoded : Decoded (event_of d.prefix (has_modifier ctrl_left d.gather) code) d d'
  pub prefix_kept : d'.prefix ≡ (if (code == prefix1) || (code == prefix2) then code else 0)
  pub key : valid d'.gather ≡ gives_key (has_modifier ctrl_left d.gather) code

not_a_key :
    (d : Decoder) (ctrl : Bool) (code : ℕ)
    → IsValid d
    → ((code == prefix1) || (code == prefix2)) ≡ true
    → event_of d.prefix ctrl code ≡ other
not_a_key d ctrl code v pre =
    let a : ((code == 170) || (code == 182)) ≡ false = ground arith in
    let b : (code == 184) ≡ false = ground arith in
    let c : (code == 157) ≡ false = ground arith in
    event_of-break d v ctrl code (ground arith) ∙ rw (a, b, c) refl

prefix-Outcome :
    (code : ℕ) (d : Decoder)
    → IsValid d
    → ((code == prefix1) || (code == prefix2)) ≡ true
    → Outcome code d (record d { prefix = code; gather = invalidate d.gather })
prefix-Outcome code d v pre =
    let d' = record d { prefix = code; gather = invalidate d.gather } in
    record {
      decoded =
          rw (not_a_key d (has_modifier ctrl_left d.gather) code v pre)
            (same-Decoded d d' v refl refl);
      prefix_kept = rw pre refl;
      key = ground arith;
    }

released-Outcome :
    (code : ℕ) (d : Decoder)
    → IsValid d
    → ((code == prefix1) || (code == prefix2)) ≡ false
    → 128 ≤ code
    → Outcome code d (released d code)
released-Outcome code d v no_pre up = record {
  decoded = break_code-Decoded d v code up;
  prefix_kept = rw no_pre refl;
  key = break_code-invalid d v code ∙ ground arith;
}

pressed-Outcome :
    (code : ℕ) (d d2 : Decoder) (p p' : Ports)
    → IsValid d
    → ((code == prefix1) || (code == prefix2)) ≡ false
    → code < 128
    → make_code code (record d { gather = invalidate d.gather }) p ≡ some (d2, p')
    → Outcome code d (record d2 { prefix = 0 })
pressed-Outcome code d d2 p p' v no_pre down e =
    let d1 = record d { gather = invalidate d.gather } in
    let r = make_code-Decoded d1 d2 p p' record { small = v.small; lamps = v.lamps } code down e in
    record {
      decoded = record {
        modifiers = r.modifiers;
        valid = record { small = r.valid.small; lamps = r.valid.lamps };
      };
      prefix_kept = rw no_pre refl;
      key = make_code-valid code d1 d2 p p' down refl _ refl e;
    }

returned : (a b : Decoder) {p p' : Ports} → pure a p ≡ some (b, p') → a ≡ b
returned a b e = ap (λ o. elim o [ none ↦ a | some (x, q) ↦ x ]) e

-- When `decode` returns from a valid decoder, whatever code arrived: the modifiers change as its event
-- says, the lamps still show the lock keys, and a prefix is kept for the next code and no longer. The
-- key is valid exactly when a key was pressed that is neither a modifier, nor a lock key, nor one of
-- the three that are ignored, nor the code 0; the code of num lock gives a key when the left control
-- key is held. A key from an earlier code is never valid again.
pub decode-Outcome :
    (code : ℕ) (d d' : Decoder) (p p' : Ports)
    → IsValid d
    → decode code d p ≡ some (d', p')
    → Outcome code d d'
unfolding decode
decode-Outcome code d d' p p' v = elim (Bool-cases ((code == prefix1) || (code == prefix2))) [
  | inl pre ↦ rw pre (λ e. subst (Outcome code d) (returned _ d' e) (prefix-Outcome code d v pre))
  | inr no_pre ↦ rw no_pre (elim (Bool-cases (leb break_bit code)) [
    | inl up ↦ rw up (λ e.
        subst (Outcome code d) (returned (released d code) d' e)
          (released-Outcome code d v no_pre (ground arith)))
    | inr down ↦ rw down (λ e.
        let d1 = record d { gather = invalidate d.gather } in
        let (d2, q, got, r) = >>=-eq-some (make_code code d1) _ p e in
        subst (Outcome code d) (returned (record d2 { prefix = 0 }) d' r)
          (pressed-Outcome code d d2 p q v no_pre (ground arith) got))
  ])
]
