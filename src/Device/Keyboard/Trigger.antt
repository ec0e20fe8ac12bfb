-- ===== src/Device/Keyboard/Trigger.antt =====
-- What a key does to the screen and to the controller.
use mpstu_bs.Prelude.{
  ℕ, ◌+◌, ◌<◌, ◌≡◌, refl, ap, ◌∙◌, inl, inr, true, false, ◌&&◌, ◌||◌, some, List, [], ◌∷◌, ◌++◌,
  ltb, leb, ◌==◌, if◌then◌else◌, length, set, take, length-set, arith, Bool-cases,
}
use mpstu_bs.Object.OStream.{put, flush}
use mpstu_bs.Machine.Key.{Key, valid, ctrl, scan_del}
use mpstu_bs.Machine.KeyPort.{Ports, has_bit, outb, inpb, auxb, write_port, reboot}
use mpstu_bs.Machine.KeyPort.Led.{AllBusy, >>=-some}
use mpstu_bs.Machine.KeyDecoder.{Decoder, decode}
use mpstu_bs.Machine.KeyDecoder.Total.{busy_twice}
use mpstu_bs.Machine.KeyHit.{key_hit}
use mpstu_bs.Machine.KeyHit.Input.{key_hit-decode}
use mpstu_bs.Machine.CgaScreen.{pos, Screen, width, height, setpos, getpos, print}
use mpstu_bs.Machine.CgaScreen.Position.{OnScreen, Framed, getpos-setpos, setpos-cells}
use mpstu_bs.Machine.CgaScreen.Print.{print-Framed}
use mpstu_bs.Device.Keyboard.{Keyboard, k0, show_key, handle, trigger}
use mpstu_bs.Device.Keyboard.Shown.{ordinary, Shows, print-Shows}
use mpstu_bs.Device.Keyboard.Window.{
  SameWindow, setpos-SameWindow, print-SameWindow, SameWindow-OnScreen,
}

first_of_buffer : (b : List ℕ) (c : ℕ) → length b ≡ 80 → take 1 (set b 0 c) ≡ c ∷ []
first_of_buffer [] c e = absurd (omega arith)
first_of_buffer (x ∷ xs) c e = refl

-- The keyboard with its cursor at column x and row y, and `kout` with nothing in its buffer.
abbrev pub ready : Decoder → List ℕ → ℕ → ℕ → ℕ → Screen → Keyboard
ready d buffer base x y s = record {
  decoder = d;
  pos_x = pos x;
  pos_y = pos y;
  kout = record { buffer = buffer; pos = 0; base = base; device = some s };
}

show_key-print :
    (key : Key) (d : Decoder) (buffer : List ℕ) (base x y x' y' : ℕ) (s t : Screen)
    → length buffer ≡ 80
    → print 5 (key.asc ∷ []) k0 (setpos (pos x) (pos y) s) ≡ some t
    → getpos t ≡ (pos x', pos y')
    → show_key key (ready d buffer base x y s) ≡ ready d (set buffer 0 key.asc) base x' y' t
unfolding show_key put flush
show_key-print key d buffer base x y x' y' s t room printed at =
    rw (first_of_buffer buffer key.asc room, printed, at) refl

-- A key is shown inside the window of the screen, and the cursor stays inside it.
pub show_key-ready :
    (key : Key) (d : Decoder) (buffer : List ℕ) (base x y : ℕ) (s : Screen)
    → OnScreen s
    → x < width s
    → y < height s
    → length buffer ≡ 80
    → (t : Screen) × (x' : ℕ) × (y' : ℕ) × (show_key key (ready d buffer base x y s)
        ≡ ready d (set buffer 0 key.asc) base x' y' t)
      × Framed s s.cells t.cells
      × SameWindow s t
      × (x' < width t)
      × (y' < height t)
      × (print 5 (key.asc ∷ []) k0 (setpos (pos x) (pos y) s) ≡ some t)
      × Shows (ordinary key.asc && ltb (x + 1) (width s)) key.asc x y s x' y' t
show_key-ready key d buffer base x y s on inx iny room =
    let s1 = setpos (pos x) (pos y) s in
    let w1 = setpos-SameWindow (pos x) (pos y) s in
    let on1 : OnScreen s1 = SameWindow-OnScreen s s1 w1 on in
    let home : getpos s1 ≡ (pos x, pos y) = getpos-setpos s x y on inx iny in
    let (t, printed, framed, x', y', at, inx', iny') =
      print-Framed s1 on1 5 0x07 x y (key.asc ∷ []) home (rw (w1.from_col, w1.to_col) inx)
        (rw (w1.from_row, w1.to_row) iny) (omega arith) in
    let w2 = print-SameWindow 5 (key.asc ∷ []) 0x07 s1 t printed in
    let w : SameWindow s t = record {
      from_col = w2.from_col ∙ w1.from_col;
      to_col = w2.to_col ∙ w1.to_col;
      from_row = w2.from_row ∙ w1.from_row;
      to_row = w2.to_row ∙ w1.to_row;
    } in
    (
      t,
      x',
      y',
      show_key-print key d buffer base x y x' y' s t room printed at,
      λ i o.
          framed i (rw (w1.from_col, w1.to_col, w1.from_row, w1.to_row) o)
          ∙ ap (λ m. m i) (setpos-cells (pos x) (pos y) s),
      w,
      rw (w2.from_col, w2.to_col) inx',
      rw (w2.from_row, w2.to_row) iny',
      printed,
      elim (Bool-cases (ordinary key.asc && ltb (x + 1) (width s))) [
        | inl both ↦
            rw both
              (print-Shows s t x y key.asc x' y' on (ground arith) iny (ground arith) printed at)
        | inr other ↦ rw other tt
      ],
    )

-- The bytes that the controller gets from `reboot`.
abbrev pub rebooted : Ports → Ports
rebooted p = record p { sent = ((p.sent ++ (0x70, 15) ∷ []) ++ (0x71, 0) ∷ []) ++ (0x92, 3) ∷ [] }

handle-invalid :
    (key : Key) (k : Keyboard) (p : Ports) → valid key ≡ false → handle key k p ≡ some (k, p)
unfolding handle
handle-invalid key k p bad = rw bad refl

-- Where `handle` leaves the ports.
abbrev pub told : Key → Ports → Ports
told key p = if valid key && ctrl key && (key.scan == scan_del) then rebooted p else p

handle-valid :
    (key : Key) (k k' : Keyboard) (p : Ports)
    → valid key ≡ true
    → show_key key k ≡ k'
    → handle key k p ≡ some (k', told key p)
unfolding handle reboot write_port
handle-valid key k k' p good e = elim (Bool-cases (ctrl key && (key.scan == scan_del))) [
  | inl re ↦ rw (good, re, e) refl
  | inr stay ↦ rw (good, stay, e) refl
]

trigger-hit :
    (k : Keyboard) (p p' : Ports) (key : Key) (d' : Decoder)
    → key_hit k.decoder p ≡ some ((key, d'), p')
    → trigger k p ≡ handle key (record k { decoder = d' }) p'
unfolding trigger
trigger-hit k p p' key d' e =
    >>=-some (key_hit k.decoder) (λ hit. handle hit.0 (record k { decoder = hit.1 })) p p' (key, d')
      e

told-invalid : (key : Key) (p : Ports) → valid key ≡ false → p ≡ told key p
told-invalid key p bad = rw bad refl

-- For a byte of the keyboard that the tables cover, with the controller free twice, `trigger` leaves
-- a keyboard that is ready again, with its cursor inside the window. Outside the window no character
-- changes. If the key is not valid the screen and the buffer stay as they are. If it is valid, the
-- screen is what `print` of its character at the keyboard's cursor makes of it, the character is the
-- first of the buffer, and the controller is told to reboot exactly if ctrl is down and the key is
-- del, whether or not alt is down. A character other than 0, a backspace, a tab and the end of a line,
-- before the last column, stands at the cursor's place then, no other place of the screen changes,
-- and the cursor moves on by one column.
pub trigger-ready :
    (busy1 busy2 rest input : List ℕ) (free1 free2 : ℕ) (sent : List (ℕ × ℕ)) (st code : ℕ)
    (d : Decoder) (buffer : List ℕ) (base x y : ℕ) (s : Screen)
    → AllBusy busy1
    → AllBusy busy2
    → has_bit inpb free1 ≡ false
    → has_bit inpb free2 ≡ false
    → has_bit outb st ≡ true
    → has_bit auxb st ≡ false
    → (ltb code 89 || (code == 91) || (code == 92) || (code == 93) || leb 128 code) ≡ true
    → OnScreen s
    → x < width s
    → y < height s
    → length buffer ≡ 80
    → (d' : Decoder) × (p' : Ports) × (buffer' : List ℕ) × (x' : ℕ) × (y' : ℕ) × (t : Screen)
      × (decode code d (busy_twice busy1 free1 busy2 free2 rest input sent) ≡ some (d', p'))
      × (trigger (ready d buffer base x y s) (record {
        status = st ∷ (busy1 ++ free1 ∷ (busy2 ++ free2 ∷ rest));
        input = code ∷ input;
        sent = sent;
      })
          ≡ some (ready d' buffer' base x' y' t, told d'.gather p'))
      × Framed s s.cells t.cells
      × SameWindow s t
      × (x' < width t)
      × (y' < height t)
      × (length buffer' ≡ 80)
      × ((if valid d'.gather then set buffer 0 d'.gather.asc else buffer) ≡ buffer')
      × ((if valid d'.gather
            then print 5 (d'.gather.asc ∷ []) k0 (setpos (pos x) (pos y) s)
            else some s)
          ≡ some t)
      × Shows
          (valid d'.gather && ordinary d'.gather.asc && ltb (x + 1) (width s))
          d'.gather.asc
          x
          y
          s
          x'
          y'
          t
trigger-ready busy1 busy2 rest input free1 free2 sent st code d buffer base x y s b1 b2 f1 f2 full
      nomouse c on inx iny room =
    let (d', p', e, hit) =
      key_hit-decode busy1 busy2 rest input free1 free2 sent st code d b1 b2 f1 f2 full nomouse c in
    let (t, x', y', eq, fr, w, ix, iy, printed, shows) =
      show_key-ready d'.gather d' buffer base x y s on inx iny room in
    let len : length (set buffer 0 d'.gather.asc) ≡ 80 = length-set buffer 0 d'.gather.asc ∙ room in
    let e' = trigger-hit (ready d buffer base x y s) _ p' d'.gather d' hit in
    elim (Bool-cases (valid d'.gather)) [
      | inr bad ↦ (
        d',
        p',
        buffer,
        x,
        y,
        s,
        e,
        e'
            ∙ handle-invalid d'.gather (ready d' buffer base x y s) p' bad
            ∙ ap (λ q. some (ready d' buffer base x y s, q)) (told-invalid d'.gather p' bad),
        λ i o. refl,
        record { from_col = refl; to_col = refl; from_row = refl; to_row = refl },
        inx,
        iny,
        room,
        rw bad refl,
        rw bad refl,
        rw bad tt,
      )
      | inl good ↦ (
        d',
        p',
        set buffer 0 d'.gather.asc,
        x',
        y',
        t,
        e,
        e' ∙ handle-valid d'.gather (ready d' buffer base x y s) _ p' good eq,
        fr,
        w,
        ix,
        iy,
        len,
        rw good refl,
        rw good printed,
        rw good shows,
      )
    ]
