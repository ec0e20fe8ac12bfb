-- ===== src/Object/OStream/Number.antt =====
-- What the operators for numbers put out: digits that stand for the number.
use mpstu_bs.Prelude.{
  ◌⊎◌, ℕ, zero, suc, ◌+◌, ◌-◌, ◌*◌, ◌/◌, ◌%◌, ◌^◌, ◌≤◌, ◌<◌, ◌≡◌, refl, ap, ◌∙◌, sym, ◌≢◌, inl, inr,
  some, List, [], ◌∷◌, ◌++◌, arith, ltb, ◌==◌, if◌then◌else◌, set, drop, replicate, length,
  length-set, drop-set, append_assoc, Bool-cases,
}
use native.Mathlib.Nat.{pow-suc, div-add-mod', mod-lt}
use mpstu_bs.Object.OStream.{Stream, digit_char, fill, put, put_string, put_ulong, put_long}
use mpstu_bs.Object.OStream.Text.{IsValid, Shows, text, NonZero, put-text, put_string-text}

-- The digits of `n`, the lowest last, at most `k` of them.
unfoldable pub digits : ℕ → ℕ → ℕ → List ℕ
digits b zero n = []
digits b (suc k) n =
    let rest = digits b k (n / b) ++ digit_char (n % b) ∷ [] in if n == 0 then [] else rest

-- The number that a digit stands for, and a row of digits.
abbrev pub digit_value : ℕ → ℕ
digit_value c = if ltb c b'a' then c - b'0' else c - b'a' + 10

unfoldable pub value : ℕ → ℕ → List ℕ → ℕ
value b acc [] = acc
value b acc (c ∷ cs) = value b (acc * b + digit_value c) cs

value-append :
    (b acc c : ℕ) (cs : List ℕ) → value b acc (cs ++ c ∷ []) ≡ value b acc cs * b + digit_value c
unfolding value
value-append b acc c [] = refl
value-append b acc c (d ∷ cs) = value-append b (acc * b + digit_value d) c cs

half_bound : (b n k : ℕ) → 2 ≤ b → n < 2 ^ suc k → n / b < 2 ^ k
half_bound b n k two h = grind (arith, pow-suc)

NonZero-append : (cs : List ℕ) (c : ℕ) → NonZero cs → c ≢ 0 → NonZero (cs ++ c ∷ [])
NonZero-append [] c h n = (n, tt)
NonZero-append (d ∷ cs) c h n = (h.0, NonZero-append cs c h.1 n)

module _ (b : ℕ) (low : 2 ≤ b) (high : b ≤ 16) where
  -- `k` digits are enough for a number below `2 ^ k`.
  digits-value : (k n : ℕ) → n < 2 ^ k → value b 0 (digits b k n) ≡ n
  unfolding digits value
  digits-value zero n h = omega arith
  digits-value (suc k) n h = elim (Bool-cases (n == 0)) [
    | inl none_left ↦ rw none_left (ground arith)
    | inr more ↦
        rw (more, value-append, digits-value k (n / b) (half_bound b n k low h))
          (ground (arith, mod-lt n {m = b} (omega arith), div-add-mod' n b))
  ]

  digits-NonZero : (k n : ℕ) → NonZero (digits b k n)
  unfolding digits
  digits-NonZero zero n = tt
  digits-NonZero (suc k) n = elim (Bool-cases (n == 0)) [
    | inl none_left ↦ rw none_left tt
    | inr more ↦
        rw more (NonZero-append (digits b k (n / b)) _ (digits-NonZero k (n / b)) (ground arith))
  ]

  -- The loop writes the digits before what stands at the end of the buffer, inside the buffer.
  fill-digits :
      (k n : ℕ) (buff : List ℕ)
      → n < 2 ^ k
      → k ≤ length buff
      → (i : ℕ) × (buff' : List ℕ) × (fill b k n buff ≡ some (i, buff'))
        × (drop i buff' ≡ digits b k n ++ drop k buff)
  unfolding fill digits
  fill-digits zero n buff h l = (0, buff, ground arith, refl)
  fill-digits (suc k) n buff h l = elim (Bool-cases (n == 0)) [
    | inl none_left ↦ (suc k, buff, rw none_left, rw none_left)
    | inr more ↦
        let c = digit_char (n % b) in
        let (i, buff', e, d) =
          fill-digits k (n / b) (set buff k c) (half_bound b n k low h)
            (omega (arith, length-set buff k c)) in
        (
          i,
          buff',
          rw more e,
          rw more (
              d
              ∙ ap (λ l. digits b k (n / b) ++ l) (drop-set buff k c (omega arith))
              ∙ sym (append_assoc (digits b k (n / b)) (c ∷ []) (drop (suc k) buff))),
        )
  ]

module _ {D : Type 0} (emit : List ℕ → D → D) (shows : Shows emit) where
  -- What an operator for a number has done: it put out digits that stand for the number.
  pub record Printed (s : Stream D) (b n next_base : ℕ) (t : Stream D) : Type 0 where
    pub row : List ℕ
    pub shown : text emit shows t ≡ text emit shows s ++ row
    pub stands : value b 0 row ≡ n
    pub valid : IsValid t
    pub base_after : t.base ≡ next_base

  -- An unsigned number is put out in the selected base and reads back as itself. No digit is
  -- written outside the buffer of 33 bytes. Afterwards the base is 10, but a zero leaves it.
  pub put_ulong-Printed :
      (n : ℕ) (s : Stream D)
      → IsValid s
      → n < 2 ^ 32
      → (t : Stream D) × (put_ulong emit n s ≡ some t)
        × Printed s s.base n (if n == 0 then s.base else 10) t
  unfolding put_ulong value
  put_ulong-Printed n s v h = elim (Bool-cases (n == 0)) [
    | inl is_zero ↦
        let (shown, valid, base) = put-text emit shows b'0' s v in
        (
          put emit b'0' s,
          rw is_zero,
          record {
            row = b'0' ∷ [];
            shown = shown;
            stands = ground arith;
            valid = valid;
            base_after = rw is_zero base;
          },
        )
    | inr more ↦
        let (i, buff, e, d) =
          fill-digits s.base v.base_low v.base_high 32 n (replicate 33 0) h (omega arith) in
        let ds = digits s.base 32 n in
        let (shown, valid, base) =
          put_string-text emit shows ds [] s v
            (digits-NonZero s.base v.base_low v.base_high 32 n) in
        (
          record (put_string emit (ds ++ 0 ∷ []) s) { base = 10 },
          rw (more, e, d) refl,
          record {
            row = ds;
            shown = shown;
            stands = digits-value s.base v.base_low v.base_high 32 n h;
            valid = record {
              room = valid.room;
              open_end = valid.open_end;
              base_low = omega arith;
              base_high = omega arith;
            };
            base_after = rw more refl;
          },
        )
  ]

  -- In base 10 a negative number, given as its 32-bit pattern, is put out as a minus sign and its
  -- magnitude.
  pub put_long-negative :
      (w : ℕ) (s : Stream D)
      → IsValid s
      → s.base ≡ 10
      → 2 ^ 31 ≤ w
      → w < 2 ^ 32
      → (t : Stream D) × (row : List ℕ) × (put_long emit w s ≡ some t)
        × (text emit shows t ≡ text emit shows s ++ b'-' ∷ row)
        × (value 10 0 row ≡ 2 ^ 32 - w)
        × (t.base ≡ 10)
  unfolding put_long
  put_long-negative w s v ten low h =
      let (dash, v', b) = put-text emit shows b'-' s v in
      let (t, e, p) =
        put_ulong-Printed ((2 ^ 32 - w) % 2 ^ 32) (put emit b'-' s) v' (omega arith) in
      (
        record t { base = 10 },
        p.row,
        ground (arith, e),
        p.shown ∙ ap (λ l. l ++ p.row) dash ∙ append_assoc _ (b'-' ∷ []) p.row,
        ap (λ c. value c 0 p.row) (sym ten ∙ sym b) ∙ p.stands ∙ omega arith,
        refl,
      )

  -- A number that is not negative, or any number in another base, is put out as its 32-bit pattern.
  -- Afterwards the base is 10.
  pub put_long-pattern :
      (w : ℕ) (s : Stream D)
      → IsValid s
      → (s.base ≢ 10) ⊎ (w < 2 ^ 31)
      → w < 2 ^ 32
      → (t : Stream D) × (put_long emit w s ≡ some t) × Printed s s.base w 10 t
  unfolding put_long
  put_long-pattern w s v plain h =
      let (t, e, p) = put_ulong-Printed w s v h in
      (
        record t { base = 10 },
        ground (arith, e),
        record {
          row = p.row;
          shown = p.shown;
          stands = p.stands;
          valid = decimal t p.valid;
          base_after = refl;
        },
      )
    where
      decimal : (t : Stream D) → IsValid t → IsValid (record t { base = 10 })
      decimal t v = record {
        room = v.room;
        open_end = v.open_end;
        base_low = omega arith;
        base_high = omega arith;
      }
