-- ===== src/Machine/KeyDecoder/Validity.antt =====
-- Which pressed codes Key_Decoder::decode makes a valid key of.
use mpstu_bs.Prelude.{
  ℕ, zero, suc, ◌-◌, ◌<◌, ◌≡◌, refl, ap, ◌∙◌, inl, inr, Bool, true, false, not, ◌&&◌, ◌||◌, some,
  List, [], ◌∷◌, ltb, ◌==◌, has, if◌then◌else◌, get_elem?, arith, Bool-cases, Option-cases,
}
use mpstu_bs.Machine.Key.{
  Key, Modifier, ctrl_left, caps_lock, num_lock, scroll_lock, has_modifier, valid,
}
use mpstu_bs.Machine.KeyPort.{Ports, pure, led_caps_lock, led_num_lock, led_scroll_lock}
use mpstu_bs.Machine.KeyDecoder.{
  Decoder, ascii_of, numeric_of, get_ascii_code, toggle, plain, make_code, normal_tab, shift_tab,
  alt_tab, asc_num_tab, scan_num_tab,
}
use mpstu_bs.Machine.KeyDecoder.Modifiers.{toggle-eq}

-- The codes of the keys that only change a modifier or a lamp, and of those that are ignored; the
-- code 0 is that of an invalid key.
abbrev pub is_silent : ℕ → Bool
is_silent code = has code (0 ∷ 29 ∷ 42 ∷ 54 ∷ 56 ∷ 58 ∷ 70 ∷ 91 ∷ 92 ∷ 93 ∷ [])

-- The codes that give a key: no prefix and no released key does, and the code of num lock does when
-- the left control key is held.
abbrev pub gives_key : Bool → ℕ → Bool
gives_key ctrl code = ltb code 128 && not (is_silent code) && (ctrl || not (code == 69))

get_elem?-nonzero :
    (xs : List ℕ) (i : ℕ) {x : ℕ} → has 0 xs ≡ false → get_elem? xs i ≡ some x → (x == 0) ≡ false
get_elem?-nonzero [] i h e = absurd (ground arith)
get_elem?-nonzero (y ∷ ys) zero h e = ground arith
get_elem?-nonzero (y ∷ ys) (suc i) h e = get_elem?-nonzero ys i (ground arith) e

numbers-nonzero : has 0 scan_num_tab ≡ false
unfolding scan_num_tab
numbers-nonzero = refl

ascii_of-valid :
    (tab : List ℕ) (code : ℕ) (k : Key) {k' : Key}
    → ascii_of tab code k ≡ some k'
    → valid k' ≡ not (code == 0)
unfolding ascii_of
ascii_of-valid tab code k e = ground (arith, Option-cases (get_elem? tab code))

numeric_of-valid : (i : ℕ) (k : Key) {k' : Key} → numeric_of i k ≡ some k' → valid k' ≡ true
unfolding numeric_of
numeric_of-valid i k {k'} e = elim (Option-cases (get_elem? asc_num_tab i)) [
  | inl failed ↦ ground arith
  | inr (a, got) ↦ elim (Option-cases (get_elem? scan_num_tab i)) [
    | inl failed ↦ ground arith
    | inr (c, there) ↦
        let nonzero = get_elem?-nonzero scan_num_tab i numbers-nonzero there in ground arith
  ]
]

get_ascii_code-valid :
    (prefix code : ℕ) (k : Key) {k' : Key}
    → get_ascii_code prefix code k ≡ some k'
    → valid k' ≡ not (code == 0)
unfolding get_ascii_code
get_ascii_code-valid prefix code k {k'} e = ground (
  arith,
  numeric_of-valid (code - 71) k {k' = k'},
  ascii_of-valid alt_tab code k {k' = k'},
  ascii_of-valid shift_tab code k {k' = k'},
  ascii_of-valid normal_tab code k {k' = k'},
)

pub plain-valid :
    (code : ℕ) (d : Decoder) {d' : Decoder} (p : Ports) {p' : Ports}
    → plain code d p ≡ some (d', p')
    → valid d'.gather ≡ not (code == 0)
unfolding plain
plain-valid code d p e = elim (Option-cases (get_ascii_code d.prefix code d.gather)) [
  | inl failed ↦ ground arith
  | inr (k, got) ↦ ground (arith, get_ascii_code-valid d.prefix code d.gather got)
]

pub toggle-valid :
    (m : Modifier) (led : ℕ) (d : Decoder) {d' : Decoder} (p : Ports) {p' : Ports}
    → toggle m led d p ≡ some (d', p')
    → valid d'.gather ≡ valid d.gather
toggle-valid m led d p e = let (k, l) = toggle-eq m led d p e in ap valid k

-- `b` is what `gives_key` says of the code.
module _ (code : ℕ) (d d' : Decoder) (p p' : Ports) (low : code < 128)
    (before : valid d.gather ≡ false) (b : Bool)
    (is : b ≡ gives_key (has_modifier ctrl_left d.gather) code) where
  -- The tail of the `switch`, from num lock on.
  late-valid :
      ((code == 42) || (code == 54)) ≡ false
      → (code == 56) ≡ false
      → (code == 29) ≡ false
      → (code == 58) ≡ false
      → (code == 70) ≡ false
      → (if code == 69
            then (if has_modifier ctrl_left d.gather
                then plain code d
                else toggle num_lock led_num_lock d)
            else if (code == 91) || (code == 92) || (code == 93)
            then pure d
            else plain code d)
          p
        ≡ some (d', p')
      → valid d'.gather ≡ b
  late-valid h1 h2 h3 h4 h5 = elim (Bool-cases (code == 69)) [
    | inl h ↦ rw h (elim (Bool-cases (has_modifier ctrl_left d.gather)) [
      | inl held ↦ rw held (λ e. plain-valid code d p e ∙ ground arith)
      | inr free ↦ rw free (λ e. toggle-valid num_lock led_num_lock d p e ∙ ground arith)
    ])
    | inr h ↦ rw h (elim (Bool-cases ((code == 91) || (code == 92) || (code == 93))) [
      | inl m ↦ rw m (λ e. ground arith)
      | inr m ↦ rw m (λ e. plain-valid code d p e ∙ ground arith)
    ])
  ]

  -- A pressed code gives a key exactly when `gives_key` says so.
  pub make_code-valid : make_code code d p ≡ some (d', p') → valid d'.gather ≡ b
  unfolding make_code
  make_code-valid = elim (Bool-cases ((code == 42) || (code == 54))) [
    | inl h ↦ rw h (λ e. ground arith)
    | inr h1 ↦ rw h1 (elim (Bool-cases (code == 56)) [
      | inl h ↦ rw h (λ e. ground arith)
      | inr h2 ↦ rw h2 (elim (Bool-cases (code == 29)) [
        | inl h ↦ rw h (λ e. ground arith)
        | inr h3 ↦ rw h3 (elim (Bool-cases (code == 58)) [
          | inl h ↦ rw h (λ e. toggle-valid caps_lock led_caps_lock d p e ∙ ground arith)
          | inr h4 ↦ rw h4 (elim (Bool-cases (code == 70)) [
            | inl h ↦ rw h (λ e. toggle-valid scroll_lock led_scroll_lock d p e ∙ ground arith)
            | inr h5 ↦ rw h5 (late-valid h1 h2 h3 h4 h5)
          ])
        ])
      ])
    ])
  ]
