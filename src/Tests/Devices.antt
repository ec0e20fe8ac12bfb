-- ===== src/Tests/Devices.antt =====
-- The keyboard, the timer and the watch at concrete inputs.
use mpstu_bs.Prelude.{ℕ, ◌≡◌, refl, ◌*◌, ◌/◌, true, false, none, some, [], arith}
use mpstu_bs.Machine.Key.{no_key, test_bits, assign_bits}
use mpstu_bs.Machine.KeyPort.{Ports, has_bit, inpb}
use mpstu_bs.Machine.KeyPort.Led.{lit}
use mpstu_bs.Machine.KeyDecoder.{Decoder, decode, make_code}
use mpstu_bs.Machine.KeyDecoder.Modifiers.{IsValid}
use mpstu_bs.Machine.KeyDecoder.Decode.{Outcome, decode-Outcome}
use mpstu_bs.Machine.KeyDecoder.Behind.{decode-behind}
use mpstu_bs.Machine.LapicTimer.{set_timer}
use mpstu_bs.Device.Watch.{Wound, windup, interval}
use mpstu_bs.Device.Watch.Windup.{Fitted, windup-Fitted, windup-overflow}

abbrev fresh : Decoder
fresh = record { prefix = 0; gather = no_key; led_ctrl_byte = 0 }

fresh-IsValid : IsValid fresh
unfolding lit test_bits
fresh-IsValid = record {
  small = omega arith;
  lamps = record { caps_lit = refl; num_lit = refl; scroll_lit = refl; small = omega arith };
}

-- The left shift key.
abbrev shifted : Decoder
shifted = record fresh { gather = record { asc = 0; scan = 0; modi = 1 } }

abbrev no_ports : Ports
no_ports = record { status = []; input = []; sent = [] }

press_shift : decode 42 fresh no_ports ≡ some (shifted, no_ports)
unfolding decode make_code assign_bits
press_shift = refl

decode-Outcome_example : Outcome 42 fresh shifted
decode-Outcome_example = decode-Outcome 42 fresh shifted no_ports no_ports fresh-IsValid press_shift

busy_first : has_bit inpb 2 ≡ true
unfolding has_bit
busy_first = refl

free_then : has_bit inpb 0 ≡ false
unfolding has_bit
free_then = refl

decode-behind_example : decode 127 fresh no_ports ≡ none
decode-behind_example = decode-behind 127 fresh no_ports refl

windup-Fitted_example :
    (r : ℕ) × (d : ℕ) × (windup 40000 62500 (record { divide = 1; ticks = 0 })
      ≡ some (record {
        ok = true;
        watch = record { divide = d; ticks = r };
        timer = some (set_timer 0 d 32 true false);
      }))
    × Fitted 33 (40000 * 62500 / 1000) 1 r d
windup-Fitted_example = windup-Fitted 40000 62500 0 (omega arith) (omega arith)

windup-overflow_example :
    (w : Wound) × (windup 4000000000 1000000 (record { divide = 1; ticks = 0 }) ≡ some w)
    × (w.ok ≡ true)
    × (w.watch.divide ≡ 0)
    × (interval 1000000 w.watch ≡ some 0)
windup-overflow_example =
    windup-overflow 4000000000 1000000 0 (omega arith) (omega arith) (omega arith) (omega arith)
