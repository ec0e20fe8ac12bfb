-- ===== src/Device/Watch/Windup.antt =====
-- Watch::windup: how the ticks are fitted into 32 bits, and when the divisor does not follow.
use mpstu_bs.Prelude.{
  ℕ, zero, suc, ◌+◌, ◌*◌, ◌/◌, ◌%◌, ◌^◌, ◌≤◌, ◌<◌, ◌≡◌, refl, ap, subst, sym, ◌∙◌, inl, inr, Bool,
  true, false, ◌||◌, some, ltb, ◌==◌, Bool-cases, arith,
}
use native.Mathlib.Nat.{pow-suc, div-eq_of_lt}
use mpstu_bs.Utils.Math.{u64, div64}
use mpstu_bs.Utils.Math.Division.{div64_lem, pow_mono}
use mpstu_bs.Machine.LapicTimer.{set_timer}
use mpstu_bs.Device.Watch.{scaled, scale, Wound, windup, interval}

-- The bytes that doubling 1 leads to.
abbrev pub power_byte : ℕ → Bool
power_byte b =
    (b == 0)
    || (b == 1)
    || (b == 2)
    || (b == 4)
    || (b == 8)
    || (b == 16)
    || (b == 32)
    || (b == 64)
    || (b == 128)

double_byte :
    (b : ℕ)
    → power_byte b ≡ true
    → (power_byte (b * 2 % 256) ≡ true) × (ltb 128 (b * 2 % 256) ≡ false)
double_byte b h = (ground arith, ground arith)

-- `t` halved `n` times is `r`, and the byte `d` doubled as often is `d'`.
pub record Fitted (k t d r d' : ℕ) : Type 0 where
  pub n : ℕ
  pub few : n ≤ k
  pub lower : r * 2 ^ n ≤ t
  pub upper : t < (r + 1) * 2 ^ n
  pub small : r ≤ 2 ^ 31
  pub divide : d' ≡ d * 2 ^ n % 256

lower_step : (r p t : ℕ) → r * p ≤ t / 2 → r * (p * 2) ≤ t
lower_step r p t h = grind arith

upper_step : (r p t : ℕ) → t / 2 < (r + 1) * p → t < (r + 1) * (p * 2)
upper_step r p t h = grind arith

half_le : (t p : ℕ) → t ≤ 2 ^ 31 * (p * 2) → t / 2 ≤ 2 ^ 31 * p
half_le t p h = grind arith

below : (a b : ℕ) → a < 2 ^ 32 → b < 2 ^ 32 → a * b < 2 ^ 64
below a b h k = grind arith

swap : (d p : ℕ) → d * (p * 2) ≡ (d * 2) * p
swap d p = grind arith

spread : (q r p : ℕ) → (256 * q + r) * p ≡ 256 * (q * p) + r * p
spread q r p = grind arith

product : (a q r d p : ℕ) → a ≡ 256 * q + r → a ≡ d * 2 → d * (p * 2) ≡ 256 * (q * p) + r * p
product a q r d p e f = swap d p ∙ ap (λ x. x * p) (sym f ∙ e) ∙ spread q r p

byte_step : (d p : ℕ) → (d * 2 % 256) * p % 256 ≡ d * (p * 2) % 256
byte_step d p =
    let split : d * 2 ≡ 256 * (d * 2 / 256) + d * 2 % 256 = omega arith in
    let e : d * (p * 2) ≡ 256 * ((d * 2 / 256) * p) + (d * 2 % 256) * p =
      product (d * 2) (d * 2 / 256) (d * 2 % 256) d p split refl in
    rw e (omega arith)

Fitted-step : (k t d r d' : ℕ) → Fitted k (t / 2) (d * 2 % 256) r d' → Fitted (suc k) t d r d'
Fitted-step k t d r d' f = record {
  n = suc f.n;
  few = let n = f.few in omega arith;
  lower = rw (pow-suc 2 f.n) (lower_step r (2 ^ f.n) t f.lower);
  upper = rw (pow-suc 2 f.n) (upper_step r (2 ^ f.n) t f.upper);
  small = f.small;
  divide = f.divide ∙ rw (pow-suc 2 f.n) (byte_step d (2 ^ f.n));
}

Fitted-now : (k t d : ℕ) → d < 256 → t ≤ 2 ^ 31 → Fitted k t d t d
Fitted-now k t d b h = record {
  n = 0;
  few = omega arith;
  lower = omega arith;
  upper = omega arith;
  small = h;
  divide = omega arith;
}

scale-Fitted :
    (k t d : ℕ)
    → power_byte d ≡ true
    → d < 256
    → t ≤ 2 ^ 31 * 2 ^ k
    → (r : ℕ) × (d' : ℕ) × (scale (suc k) t d ≡ scaled r d') × Fitted k t d r d'
unfolding scale
scale-Fitted zero t d p b h =
    let fits : ltb (2 ^ 31) t ≡ false = ground arith in
    (t, d, rw (fits, scale) refl, Fitted-now 0 t d b (omega arith))
scale-Fitted (suc k) t d p b h = elim (Bool-cases (ltb (2 ^ 31) t)) [
  | inr fits ↦ (t, d, rw (fits, scale) refl, Fitted-now (suc k) t d b (ground arith))
  | inl over ↦
      let (q, under) = double_byte d p in
      let half : t / 2 ≤ 2 ^ 31 * 2 ^ k =
        half_le t (2 ^ k) (subst (λ x. t ≤ 2 ^ 31 * x) (pow-suc 2 k) h) in
      let (r, d', e, f) = scale-Fitted k (t / 2) (d * 2 % 256) q (omega arith) half in
      (r, d', rw (over, under, scale) e, Fitted-step k t d r d' f)
]

-- `windup` fits the ticks of `us` microseconds into 32 bits by `n` halvings and doubles the byte
-- `_divide` as often, modulo 256; it answers `true` whatever the number of halvings is, and stops
-- the timer with the divisor found. The interval and the frequency are 32-bit numbers, and the
-- divisor was 1.
pub windup-Fitted :
    (us tm ticks : ℕ)
    → us < 2 ^ 32
    → tm < 2 ^ 32
    → (r : ℕ) × (d : ℕ) × (windup us tm (record { divide = 1; ticks = ticks })
        ≡ some (record {
          ok = true;
          watch = record { divide = d; ticks = r };
          timer = some (set_timer 0 d 32 true false);
        }))
      × Fitted 33 (us * tm / 1000) 1 r d
unfolding windup
windup-Fitted us tm ticks hu ht =
    let total : us * tm < 2 ^ 64 = below us tm hu ht in
    let (r, d, e, f) = scale-Fitted 33 (us * tm / 1000) 1 refl (omega arith) (omega arith) in
    let e1 : div64 (u64 (us * tm)) 1000 ≡ some (us * tm / 1000, us * tm % 1000) =
      ap (λ x. div64 x 1000) (omega arith)
      ∙ div64_lem (us * tm) 1000 total (omega arith) (omega arith) in
    let fit : r % 2 ^ 32 ≡ r = let s = f.small in omega arith in
    (r, d, rw (e1, e, windup) (rw fit refl), f)

wrapped : (n : ℕ) → 8 ≤ n → 2 ^ n % 256 ≡ 0
wrapped zero h = absurd (omega arith)
wrapped (suc n) h = elim (Bool-cases (ltb n 8)) [
  | inl last ↦ let e : n ≡ 7 = ground arith in rw e refl
  | inr more ↦ rw (pow-suc 2 n) (let w = wrapped n (ground arith) in omega arith)
]

one_mul : (p : ℕ) → 1 * p ≡ p
one_mul p = omega arith

many : (n r t : ℕ) → 2 ^ 39 ≤ t → t < (r + 1) * 2 ^ n → r ≤ 2 ^ 31 → 8 ≤ n
many n r t h u s = elim (Bool-cases (ltb n 8)) [
  | inl few ↦ absurd (grind (arith, pow_mono n 7 (ground arith)))
  | inr enough ↦ ground arith
]

zero_div : (m : ℕ) → 0 < m → 0 / m ≡ 0
zero_div m h = div-eq_of_lt h

interval-zero :
    (tm r : ℕ) → 0 < tm → tm < 2 ^ 32 → interval tm (record { divide = 0; ticks = r }) ≡ some 0
unfolding interval
interval-zero tm r pos fit =
    let none_left : u64 (r * 0 * 1000) ≡ 0 = omega arith in
    let e : div64 (u64 (r * 0 * 1000)) tm ≡ some (0 / tm, 0 % tm) =
      ap (λ x. div64 x tm) none_left ∙ div64_lem 0 tm (omega arith) pos (omega arith) in
    rw (e, interval) (rw (zero_div tm pos) refl)

-- From 2 ^ 39 ticks on, which seven halvings do not fit into 31 bits, `windup` still answers `true`,
-- but leaves a divisor of zero, and the interval that can be asked for is zero. The interval and
-- the frequency are 32-bit numbers, the frequency is not 0, and the divisor was 1.
pub windup-overflow :
    (us tm ticks : ℕ)
    → us < 2 ^ 32
    → tm < 2 ^ 32
    → 0 < tm
    → 2 ^ 39 ≤ us * tm / 1000
    → (w : Wound) × (windup us tm (record { divide = 1; ticks = ticks }) ≡ some w)
      × (w.ok ≡ true)
      × (w.watch.divide ≡ 0)
      × (interval tm w.watch ≡ some 0)
windup-overflow us tm ticks hu ht pos big =
    let (r, d, e, f) = windup-Fitted us tm ticks hu ht in
    let zero_byte : d ≡ 0 =
      f.divide
      ∙ ap (λ x. x % 256) (one_mul (2 ^ f.n))
      ∙ wrapped f.n (many f.n r (us * tm / 1000) big f.upper f.small) in
    (_, e, refl, zero_byte, rw zero_byte (interval-zero tm r pos ht))
