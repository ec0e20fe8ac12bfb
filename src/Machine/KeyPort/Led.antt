-- ===== src/Machine/KeyPort/Led.antt =====
-- The lamps and the commands of the keyboard controller.
use mpstu_bs.Prelude.{
  none, some, Option, ℕ, ◌<◌, ◌≡◌, refl, ap, Bool, true, false, not, ◌&&◌, some, List, [], ◌∷◌,
  ◌++◌, ◌==◌, bit_and, arith, ltb,
}
use mpstu_bs.Prelude.Bits.{every_below, every_below-holds}
use mpstu_bs.Machine.KeyPort.{
  Ports, Io, ◌>>=◌, write_port, has_bit, inpb, wait_free, send_byte, send_command, led_caps_lock,
  led_num_lock, led_scroll_lock, led_byte,
}

-- What a chain that returns has done.
pub >>=-eq-some :
    {A B : Type 0} (m : Io A) (f : A → Io B) (p : Ports) {b : B} {q : Ports}
    → (m >>= f) p ≡ some (b, q)
    → (a : A) × (p' : Ports) × (m p ≡ some (a, p')) × (f a p' ≡ some (b, q))
>>=-eq-some {A} {B} m f p {b} {q} e = go (m p) refl e
  where
    go :
        (r : Option (A × Ports))
        → m p ≡ r
        → (elim r [ none ↦ none | some (a, p') ↦ f a p' ]) ≡ some (b, q)
        → (a : A) × (p' : Ports) × (m p ≡ some (a, p')) × (f a p' ≡ some (b, q))
    go none h e = cc
    go (some (a, p')) h e = (a, p', h, e)

-- A chain goes on with what its first part returns.
pub >>=-some :
    {A B : Type 0} (m : Io A) (f : A → Io B) (p q : Ports) (a : A)
    → m p ≡ some (a, q)
    → (m >>= f) p ≡ f a q
>>=-some {A} {B} m f p q a e =
    ap
      (λ (o : Option (A × Ports)). elim o as (λ x. Option (B × Ports)) [
        | none ↦ none
        | some (x, r) ↦ f x r
      ])
      e

-- A chain whose first part never returns does not return.
pub >>=-none :
    {A B : Type 0} (m : Io A) (f : A → Io B) (p : Ports) → m p ≡ none → (m >>= f) p ≡ none
>>=-none {A} {B} m f p e =
    ap
      (λ (o : Option (A × Ports)). elim o as (λ x. Option (B × Ports)) [
        | none ↦ none
        | some (x, r) ↦ f x r
      ])
      e

-- Whether a lamp is lit in a control byte.
unfoldable pub lit : ℕ → ℕ → Bool
lit led byte = not (bit_and byte led == 0)

abbrev pub AllBusy : List ℕ → Type 0
AllBusy [] = Unit
AllBusy (s ∷ rest) = (has_bit inpb s ≡ true) × AllBusy rest

-- However often the controller is busy, the wait ends at the first status byte that is free.
pub wait_free-AllBusy :
    (busy : List ℕ) (free : ℕ) (rest : List ℕ)
    → AllBusy busy
    → has_bit inpb free ≡ false
    → wait_free (busy ++ free ∷ rest) ≡ some rest
unfolding wait_free
wait_free-AllBusy [] free rest b f = rw (f, wait_free) refl
wait_free-AllBusy (s ∷ busy) free rest b f =
    rw (b.0, wait_free) (wait_free-AllBusy busy free rest b.1 f)

-- What the controller has done when `send_command` returns: it was busy as long as it liked before
-- each byte, and got the command and then its byte, each once.
pub send_command_lem :
    (cmd byte : ℕ) (busy1 busy2 rest input : List ℕ) (free1 free2 : ℕ) (sent : List (ℕ × ℕ))
    → AllBusy busy1
    → AllBusy busy2
    → has_bit inpb free1 ≡ false
    → has_bit inpb free2 ≡ false
    → send_command cmd byte
        (record { status = busy1 ++ free1 ∷ (busy2 ++ free2 ∷ rest); input = input; sent = sent })
      ≡ some (
        tt,
        record {
          status = rest;
          input = input;
          sent = (sent ++ (0x60, cmd) ∷ []) ++ (0x60, byte) ∷ [];
        },
      )
unfolding send_command send_byte write_port
send_command_lem cmd byte busy1 busy2 rest input free1 free2 sent b1 b2 f1 f2 = ground (
  arith,
  wait_free-AllBusy busy1 free1 (busy2 ++ free2 ∷ rest) b1 f1,
  wait_free-AllBusy busy2 free2 rest b2 f2,
)

abbrev bool_eq : Bool → Bool → Bool
bool_eq true b = b
bool_eq false b = not b

bool_eq-eq : (a b : Bool) → bool_eq a b ≡ true → a ≡ b
bool_eq-eq a b h = ground arith

-- After `set_led` the lamp is as asked, and the two others are as before.
abbrev leds_ok : Bool → ℕ → Bool
leds_ok on x =
    bool_eq (lit 4 (led_byte 4 on x)) on
    && bool_eq (lit 2 (led_byte 4 on x)) (lit 2 x)
    && bool_eq (lit 1 (led_byte 4 on x)) (lit 1 x)
    && bool_eq (lit 2 (led_byte 2 on x)) on
    && bool_eq (lit 4 (led_byte 2 on x)) (lit 4 x)
    && bool_eq (lit 1 (led_byte 2 on x)) (lit 1 x)
    && bool_eq (lit 1 (led_byte 1 on x)) on
    && bool_eq (lit 4 (led_byte 1 on x)) (lit 4 x)
    && bool_eq (lit 2 (led_byte 1 on x)) (lit 2 x)
    && ltb (led_byte 4 on x) 8
    && ltb (led_byte 2 on x) 8
    && ltb (led_byte 1 on x) 8

leds_table : every_below 8 (λ x. leds_ok true x && leds_ok false x) ≡ true
unfolding every_below lit led_byte
leds_table = refl

leds_row : (on : Bool) (x : ℕ) → x < 8 → leds_ok on x ≡ true
leds_row true x h =
    ground (arith, every_below-holds 8 (λ x. leds_ok true x && leds_ok false x) x leds_table h)
leds_row false x h =
    ground (arith, every_below-holds 8 (λ x. leds_ok true x && leds_ok false x) x leds_table h)

-- Which lamps are lit after a lamp has been set.
pub record Leds (caps num scroll : Bool) (byte : ℕ) : Type 0 where
  pub caps_lit : lit led_caps_lock byte ≡ caps
  pub num_lit : lit led_num_lock byte ≡ num
  pub scroll_lit : lit led_scroll_lock byte ≡ scroll
  pub small : byte < 8

module _ (on : Bool) {caps num scroll : Bool} {byte : ℕ} (l : Leds caps num scroll byte) where
  pub caps-Leds : Leds on num scroll (led_byte led_caps_lock on byte)
  caps-Leds = ground (arith, leds_row on byte l.small)

  pub num-Leds : Leds caps on scroll (led_byte led_num_lock on byte)
  num-Leds = ground (arith, leds_row on byte l.small)

  pub scroll-Leds : Leds caps num on (led_byte led_scroll_lock on byte)
  scroll-Leds = ground (arith, leds_row on byte l.small)
