-- ===== src/Utils/Math/Division.antt =====
-- Math::div64 is the division of 64-bit numbers.
use mpstu_bs.Prelude.{
  ℕ, zero, suc, ◌+◌, ◌-◌, ◌*◌, ◌/◌, ◌%◌, ◌^◌, ◌≤◌, ◌<◌, ◌≡◌, refl, ap, sym, inl, inr, none, some,
  false, ltb, leb, ◌==◌, Bool-cases, arith, ltb→lt, leb→le,
}
use native.Mathlib.Nat.{mul-add-div_right, div-eq_of_lt, mod-eq-sub-div-mul, pow-suc, mul_comm}
use native.Mathlib.Decide.{dec_lt}
use mpstu_bs.Utils.Math.{u64, Shifted, align, Work, subtract, halve, reduce, div64}

-- The divisor aligned by `i` places.
record Aligned (den : ℕ) (s : Shifted) (i : ℕ) : Type 0 where
  power : s.qbit ≡ 2 ^ i
  scaled : s.den ≡ den * 2 ^ i
  top : 2 ^ 63 ≤ s.den
  fits : s.den < 2 ^ 64

le_mul : (n m : ℕ) → 0 < n → m ≤ n * m
le_mul n m h = grind arith

pow_pos : (n : ℕ) → 0 < 2 ^ n
pow_pos zero = omega arith
pow_pos (suc n) = omega (arith, pow-suc 2 n, pow_pos n)

pub pow_mono : (i k : ℕ) → i ≤ k → 2 ^ i ≤ 2 ^ k
pow_mono i zero h = let e : i ≡ 0 = omega arith in rw e (omega arith)
pow_mono i (suc k) h = elim (dec_lt i (suc k)) [
  | yes p ↦ omega (arith, pow-suc 2 k, pow_mono i k (omega arith))
  | no p ↦ let e : i ≡ suc k = omega arith in rw e (omega arith)
]

-- A shift that has not pushed the divisor out of its 64 bits.
places_lt : (den i : ℕ) → 0 < den → den * 2 ^ i < 2 ^ 64 → i < 64
places_lt den i pos h = elim (dec_lt i 64) [
  | yes p ↦ p
  | no p ↦
      let m : 2 ^ 64 ≤ 2 ^ i = pow_mono 64 i (omega arith) in
      absurd (grind (arith, le_mul den (2 ^ i)))
]

align-Aligned :
    (fuel : ℕ) (den i : ℕ) (s : Shifted)
    → 0 < den
    → s.qbit ≡ 2 ^ i
    → s.den ≡ den * 2 ^ i
    → s.den < 2 ^ 64
    → 64 < fuel + i
    → (t : Shifted) × (j : ℕ) × (align fuel s ≡ some t) × Aligned den t j
unfolding align
align-Aligned zero den i s pos q d fit f =
    absurd (omega (arith, places_lt den i pos (rw (← d) fit)))
align-Aligned (suc fuel) den i s pos q d fit f = elim (Bool-cases (ltb s.den (2 ^ 63))) [
  | inl more ↦
      let small : s.den < 2 ^ 63 = ltb→lt _ _ more in
      let bit : s.qbit ≤ s.den = omega (arith, le_mul den (2 ^ i) pos) in
      let (t, j, e, a) =
        align-Aligned fuel den (suc i) (record { den = u64 (s.den * 2); qbit = u64 (s.qbit * 2) })
          pos (omega (arith, pow-suc 2 i)) (omega (arith, ap (λ n. den * n) (pow-suc 2 i)))
          (omega arith) (omega arith) in
      (t, j, rw more e, a)
  | inr stop ↦ (s, i, rw stop, record { power = q; scaled = d; top = ground arith; fits = fit })
]

-- Between two rounds of the second loop: `num` is what is left to divide.
record Dividing (num den i : ℕ) (w : Work) : Type 0 where
  power : w.qbit ≡ 2 ^ i
  scaled : w.den ≡ den * 2 ^ i
  total : w.quot * den + w.num ≡ num
  left : w.num < w.den + w.den

record Divided (num den : ℕ) (w : Work) : Type 0 where
  total : w.quot * den + w.num ≡ num
  left : w.num < den

module _ (num den : ℕ) (pos : 0 < den) (fit : num < 2 ^ 64) where
  subtract_keeps : (w : Work) → ((subtract w).den ≡ w.den) × ((subtract w).qbit ≡ w.qbit)
  subtract_keeps w = ground arith

  -- A subtraction keeps the total, and the quotient stays within 64 bits.
  subtract_total :
      (i : ℕ) (w : Work)
      → Dividing num den i w
      → ((subtract w).quot * den + (subtract w).num ≡ num) × ((subtract w).num < w.den)
  subtract_total i w d = elim (Bool-cases (leb w.den w.num)) [
    | inl goes ↦
        let bits : w.qbit * den ≡ w.den = rw (d.power, d.scaled) (mul_comm (2 ^ i) den) in
        let more : (w.quot + w.qbit) * den + (w.num - w.den) ≡ num =
          omega (arith, bits, leb→le _ _ goes) in
        let small : w.quot + w.qbit < 2 ^ 64 = omega (arith, le_mul den (w.quot + w.qbit) pos) in
        let same : u64 (w.quot + w.qbit) ≡ w.quot + w.qbit = omega arith in
        rw goes (rw same more, ground (arith, d.left))
    | inr stays ↦ rw stays (d.total, ground arith)
  ]

  reduce-Divided :
      (fuel i : ℕ) (w : Work)
      → Dividing num den i w
      → suc i < fuel
      → (w' : Work) × (reduce fuel w ≡ some w') × Divided num den w'
  unfolding reduce
  reduce-Divided zero i w d f = absurd (omega arith)
  reduce-Divided (suc zero) i w d f = absurd (omega arith)
  reduce-Divided (suc (suc fuel)) zero w d f =
      let (t, l) = subtract_total zero w d in
      (
        halve (subtract w),
        ground (arith, subtract_keeps w),
        record { total = t; left = omega arith },
      )
  reduce-Divided (suc fuel) (suc i) w d f =
      let (t, l) = subtract_total (suc i) w d in
      let (same_den, same_bit) = subtract_keeps w in
      let even = ap (λ n. den * n) (pow-suc 2 i) in
      let next : Dividing num den i (halve (subtract w)) = record {
        power = omega (arith, pow-suc 2 i);
        scaled = omega (arith, even);
        total = t;
        left = omega (arith, even);
      } in
      let (w', e, r) = reduce-Divided fuel i (halve (subtract w)) next (omega arith) in
      let live : (w.qbit == 0) ≡ false = ground (arith, pow_pos (suc i)) in (w', rw live e, r)

quotient_unique :
    (num den q r : ℕ) → q * den + r ≡ num → r < den → (q ≡ num / den) × (r ≡ num % den)
quotient_unique num den q r t l =
    let e : num / den ≡ q =
      rw (← t, mul-add-div_right {m = den} (omega arith) q r, div-eq_of_lt l) (omega arith) in
    (sym e, rw (mod-eq-sub-div-mul, e) (omega arith))

-- `div64` ends and gives the quotient and the remainder of 64-bit numbers, for any divisor but 0.
pub div64_lem :
    (num den : ℕ)
    → num < 2 ^ 64
    → 0 < den
    → den < 2 ^ 64
    → div64 num den ≡ some (num / den, num % den)
unfolding div64
div64_lem num den fit pos h =
    let (s, i, e, a) =
      align-Aligned 65 den 0 (record { den = den; qbit = 1 }) pos refl (omega arith) h
        (omega arith) in
    let start : Dividing num den i (record { num = num; den = s.den; quot = 0; qbit = s.qbit }) =
      record {
        power = a.power;
        scaled = a.scaled;
        total = omega arith;
        left = omega (arith, a.top);
      } in
    let (w, e', d) =
      reduce-Divided num den pos fit 66 i _ start
        (omega (arith, places_lt den i pos (rw (← a.scaled) a.fits))) in
    let (q, r) = quotient_unique num den w.quot w.num d.total d.left in
    rw (e, div64) (rw (e', q, r) refl)

-- A divisor of 0 is shifted for ever: no number of rounds ends the first loop.
pub align-zero : (fuel q : ℕ) → align fuel (record { den = 0; qbit = q }) ≡ none
unfolding align
align-zero zero q = refl
align-zero (suc fuel) q = align-zero fuel (u64 (q * 2))
