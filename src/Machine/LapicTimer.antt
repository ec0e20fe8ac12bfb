-- ===== src/Machine/LapicTimer.antt =====
-- machine/lapic.cc, the timer: the code of a divisor, and the settings that `setTimer` writes.
use mpstu_bs.Prelude.{
  ℕ, zero, suc, ◌-◌, ◌/◌, ◌%◌, ◌<◌, ◌≡◌, refl, Bool, true, not, ◌&&◌, List, [], ◌∷◌, ltb, ◌==◌,
  if◌then◌else◌, get_or, bit_and, ==_iff,
}
use mpstu_bs.Prelude.Bits.{every_below, every_below-holds}

unfoldable masks : List ℕ
masks = 0x0b ∷ 0x00 ∷ 0x01 ∷ 0x02 ∷ 0x03 ∷ 0x08 ∷ 0x09 ∷ 0x0a ∷ []

-- `__builtin_ctz`, over the bits of a byte
unfoldable ctz : ℕ → ℕ → ℕ
ctz zero n = 0
ctz (suc k) n = let rest = suc (ctz k (n / 2)) in if n % 2 == 1 then 0 else rest

unfoldable pub timer_div : ℕ → ℕ
unfolding masks ctz
timer_div div =
    if not (not (div == 0) && (bit_and div (div - 1) == 0))
    then 0xff
    else (let trail = ctz 8 div in if ltb 7 trail then 0xff else get_or masks trail 0xff)

-- What `setTimer` writes to the local APIC of the core.
pub record Timer : Type 0 where
  pub counter : ℕ
  pub divider : ℕ
  pub vector : ℕ
  pub periodic : Bool
  pub masked : Bool

unfoldable pub set_timer : ℕ → ℕ → ℕ → Bool → Bool → Timer
set_timer counter divide vector periodic masked = record {
  counter = counter;
  divider = timer_div divide;
  vector = vector;
  periodic = periodic;
  masked = masked;
}

-- The divisors that the hardware has, from its manual.
abbrev pub code_of : ℕ → ℕ
code_of div =
    if div == 1
    then 0x0b
    else if div == 2
    then 0x00
    else if div == 4
    then 0x01
    else if div == 8
    then 0x02
    else if div == 16
    then 0x03
    else if div == 32
    then 0x08
    else if div == 64
    then 0x09
    else if div == 128
    then 0x0a
    else 0xff

agrees : every_below 256 (λ d. timer_div d == code_of d) ≡ true
unfolding every_below timer_div masks ctz
agrees = refl

-- For every byte `timer_div` gives the code of the manual's table, and 0xff where it has none.
pub timer_div_lem : (div : ℕ) → div < 256 → timer_div div ≡ code_of div
timer_div_lem div h =
    (==_iff (timer_div div) (code_of div)).0
      (every_below-holds 256 (λ d. timer_div d == code_of d) div agrees h)
