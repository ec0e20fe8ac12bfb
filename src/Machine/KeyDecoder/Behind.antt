-- ===== src/Machine/KeyDecoder/Behind.antt =====
-- The pressed codes that Key_Decoder::decode looks up behind the end of its tables.
use mpstu_bs.Prelude.{
  ℕ, zero, suc, ◌≤◌, ◌≡◌, refl, inl, inr, Bool, true, false, not, ◌&&◌, ◌||◌, none, List, [], ◌∷◌,
  ltb, leb, ◌==◌, get_elem?, length, arith, Bool-cases,
}
use mpstu_bs.Machine.Key.{Key, alt_right, shift, caps_lock, num_lock, has_modifier, invalidate}
use mpstu_bs.Machine.KeyPort.{Ports, pure}
use mpstu_bs.Machine.KeyPort.Led.{>>=-none}
use mpstu_bs.Machine.KeyDecoder.{
  Decoder, prefix1, prefix2, break_bit, is_letter_code, ascii_of, get_ascii_code, plain, make_code,
  decode, normal_tab, shift_tab, alt_tab,
}
use mpstu_bs.Machine.KeyDecoder.Total.{normal_tab-length, shift_tab-length, alt_tab-length}

get_elem?-none : (xs : List ℕ) (i : ℕ) → length xs ≤ i → get_elem? xs i ≡ none
get_elem?-none [] i h = refl
get_elem?-none (x ∷ xs) zero h = absurd (omega arith)
get_elem?-none (x ∷ xs) (suc i) h = get_elem?-none xs i (omega arith)

ascii_of-none :
    (tab : List ℕ) (code : ℕ) (k : Key) → length tab ≡ 89 → 89 ≤ code → ascii_of tab code k ≡ none
unfolding ascii_of
ascii_of-none tab code k e h = rw (get_elem?-none tab code (rw e h), ascii_of) refl

get_ascii_code-none : (prefix code : ℕ) (k : Key) → 89 ≤ code → get_ascii_code prefix code k ≡ none
unfolding get_ascii_code
get_ascii_code-none prefix code k h =
    let a : ((code == 53) && (prefix == prefix1)) ≡ false = ground arith in
    let b : (has_modifier num_lock k && (prefix == 0) && leb 71 code && leb code 83) ≡ false =
      ground arith in
    let n = ascii_of-none normal_tab code k normal_tab-length h in
    let s = ascii_of-none shift_tab code k shift_tab-length h in
    let t = ascii_of-none alt_tab code k alt_tab-length h in
    rw (a, b)
      (elim (Bool-cases (has_modifier alt_right k)) [
        | inl c ↦ rw c t
        | inr c ↦ rw c (elim (Bool-cases (has_modifier shift k)) [
          | inl d ↦ rw d s
          | inr d ↦ rw d (elim (Bool-cases (has_modifier caps_lock k)) [
            | inl e ↦
                rw e (elim (Bool-cases (is_letter_code code)) [ inl f ↦ rw f s | inr f ↦ rw f n ])
            | inr e ↦ rw e n
          ])
        ])
      ])

-- The pressed codes 89, 90 and 94 to 127.
abbrev pub behind : ℕ → Bool
behind code = leb 89 code && ltb code 128 && not ((code == 91) || (code == 92) || (code == 93))

-- For the pressed codes 89, 90 and 94 to 127 `decode` reads behind the end of a table, whatever
-- the modifiers are: the model has no result.
pub decode-behind :
    (code : ℕ) (d : Decoder) (p : Ports) → behind code ≡ true → decode code d p ≡ none
unfolding decode make_code plain
decode-behind code d p h =
    let d1 = record d { gather = invalidate d.gather } in
    let a : ((code == prefix1) || (code == prefix2)) ≡ false = ground arith in
    let b : leb break_bit code ≡ false = ground arith in
    let c1 : ((code == 42) || (code == 54)) ≡ false = ground arith in
    let c2 : (code == 56) ≡ false = ground arith in
    let c3 : (code == 29) ≡ false = ground arith in
    let c4 : (code == 58) ≡ false = ground arith in
    let c5 : (code == 70) ≡ false = ground arith in
    let c6 : (code == 69) ≡ false = ground arith in
    let c7 : ((code == 91) || (code == 92) || (code == 93)) ≡ false = ground arith in
    let e : make_code code d1 p ≡ none =
      rw (c1, c2, c3, c4, c5, c6, c7)
        (rw (get_ascii_code-none d.prefix code d1.gather (ground arith), plain) refl) in
    rw (a, b) (>>=-none (make_code code d1) (λ d2. pure (record d2 { prefix = 0 })) p e)
