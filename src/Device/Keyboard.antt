-- ===== src/Device/Keyboard.antt =====
-- device/keyboard.h and device/keyboard.cc: the keys that arrive are shown on the screen.
pub mod Window
pub mod Shown
pub mod Trigger
use mpstu_bs.Prelude.{
  ℕ, ◌+◌, ◌*◌, Bool, true, false, not, ◌&&◌, Option, none, some, List, [], ◌==◌, if◌then◌else◌,
  length,
}
use mpstu_bs.Object.Queue.{Ptr}
use mpstu_bs.Object.OStream.{Stream, put, flush}
use mpstu_bs.Machine.Key.{Key, valid, ctrl, scan_del}
use mpstu_bs.Machine.KeyPort.{Io, pure, ◌>>=◌, ◌>>◌, reboot}
use mpstu_bs.Machine.KeyDecoder.{Decoder}
use mpstu_bs.Machine.KeyHit.{key_hit}
use mpstu_bs.Machine.CgaScreen.{ℤ, Screen, setpos, getpos, print}
use mpstu_bs.Machine.Plugbox.{Gateobjs, assign}

-- The decoder of the controller, the position of the keyboard's cursor, and `kout`, whose device is
-- the screen, or none after a text that the fuel of `print` did not suffice for.
pub record Keyboard : Type 0 where
  pub decoder : Decoder
  pub pos_x : ℤ
  pub pos_y : ℤ
  pub kout : Stream (Option Screen)

-- The attribute `k0`: light grey on black.
abbrev pub k0 : ℕ
k0 = 0x07

-- `CGA_Stream::flush` on the screen of `kout`.
abbrev pub emit : List ℕ → Option Screen → Option Screen
emit text none = none
emit text (some s) = print (4 * length text + 1) text k0 s

-- `kout.setpos(x, y)`
abbrev pub place : ℤ → ℤ → Option Screen → Option Screen
place x y none = none
place x y (some s) = some (setpos x y s)

-- `kout.getpos(pos_x, pos_y)`
abbrev pub remember : Option Screen → Keyboard → Keyboard
remember none k = k
remember (some s) k = record k { pos_x = (getpos s).0; pos_y = (getpos s).1 }

-- The constructor: the place of the cursor of `kout` becomes the keyboard's own, which is arbitrary
-- before.
abbrev pub keyboard : Decoder → ℤ → ℤ → Stream (Option Screen) → Keyboard
keyboard decoder x y kout =
    remember kout.device (record { decoder = decoder; pos_x = x; pos_y = y; kout = kout })

-- The part of `trigger` that shows a key at the keyboard's cursor.
unfoldable pub show_key : Key → Keyboard → Keyboard
show_key key k =
    let out = record (k.kout) { device = place k.pos_x k.pos_y k.kout.device } in
    let out' = flush emit (put emit key.asc out) in remember out'.device (record k { kout = out' })

-- `trigger` behind `key_hit`.
unfoldable pub handle : Key → Keyboard → Io Keyboard
handle key k =
    if not (valid key)
    then pure k
    else if ctrl key && (key.scan == scan_del)
    then reboot >> pure (show_key key k)
    else pure (show_key key k)

unfoldable pub trigger : Keyboard → Io Keyboard
trigger k = do hit ← key_hit k.decoder; handle hit.0 (record k { decoder = hit.1 })

abbrev pub keyboard_vector : ℕ
keyboard_vector = 33

-- `plugin`, for the gate of the keyboard
abbrev pub plugin : Ptr → Gateobjs → Gateobjs
plugin this gateobjs = assign keyboard_vector this gateobjs

-- `prologue`
abbrev pub wants_epilogue : Bool
wants_epilogue = true
