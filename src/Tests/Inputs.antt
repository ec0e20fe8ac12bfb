-- ===== src/Tests/Inputs.antt =====
-- machine/keyctrl.cc and machine/plugbox.cc at concrete inputs.
use mpstu_bs.Prelude.{
  ℕ, ◌<◌, ◌≡◌, refl, true, length, replicate, arith, some, List, [], ◌∷◌, ◌+◌, ◌&&◌, if◌then◌else◌,
  set, ltb,
}
use mpstu_bs.Machine.Key.{no_key, valid}
use mpstu_bs.Machine.KeyPort.{Ports, has_bit}
use mpstu_bs.Machine.KeyDecoder.{Decoder, decode}
use mpstu_bs.Machine.KeyDecoder.Total.{busy_twice}
use mpstu_bs.Machine.CgaScreen.{pos, Screen, width, height, setpos, print}
use mpstu_bs.Machine.CgaScreen.Position.{Framed}
use mpstu_bs.Device.Keyboard.{trigger, k0}
use mpstu_bs.Device.Keyboard.Window.{SameWindow}
use mpstu_bs.Device.Keyboard.Shown.{ordinary, Shows}
use mpstu_bs.Device.Keyboard.Trigger.{ready, told, trigger-ready}

abbrev fresh : Decoder
fresh = record { prefix = 0; gather = no_key; led_ctrl_byte = 0 }

-- `kout`, empty.
abbrev window : Screen
window = record {
  from_col = 0;
  to_col = 79;
  from_row = 0;
  to_row = 16;
  use_cursor = true;
  rel_x = 0;
  rel_y = 0;
  cells = λ i. record { c = b' '; a = 7 };
  high = 0;
  low = 0;
}

abbrev typed : List ℕ
typed = replicate 80 0

-- The key of the letter a, at the last but one place of the window.
trigger-ready_example :
    (d' : Decoder) × (p' : Ports) × (buffer' : List ℕ) × (x' : ℕ) × (y' : ℕ) × (t : Screen)
    × (decode 30 fresh (busy_twice [] 0 [] 0 [] [] []) ≡ some (d', p'))
    × (trigger
          (ready fresh typed 10 78 16 window)
          (record { status = 1 ∷ 0 ∷ 0 ∷ []; input = 30 ∷ []; sent = [] })
        ≡ some (ready d' buffer' 10 x' y' t, told d'.gather p'))
    × Framed window window.cells t.cells
    × SameWindow window t
    × (x' < width t)
    × (y' < height t)
    × (length buffer' ≡ 80)
    × ((if valid d'.gather then set typed 0 d'.gather.asc else typed) ≡ buffer')
    × ((if valid d'.gather
          then print 5 (d'.gather.asc ∷ []) k0 (setpos (pos 78) (pos 16) window)
          else some window)
        ≡ some t)
    × Shows
        (valid d'.gather && ordinary d'.gather.asc && ltb (78 + 1) (width window))
        d'.gather.asc
        78
        16
        window
        x'
        y'
        t
unfolding has_bit
trigger-ready_example =
    trigger-ready [] [] [] [] 0 0 [] 1 30 fresh typed 10 78 16 window tt tt refl refl refl refl refl
      (record {
        columns = omega arith;
        right = omega arith;
        rows = omega arith;
        bottom = omega arith;
      })
      (omega arith) (omega arith) refl
