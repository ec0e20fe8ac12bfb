-- ===== src/Object/OStream/Text.antt =====
-- What the operators for characters and texts put out: every character, once and in order.
use mpstu_bs.Prelude.{
  ℕ, suc, ◌+◌, ◌≤◌, ◌<◌, ◌≡◌, refl, ap, ◌∙◌, sym, ◌≢◌, false, inl, inr, List, [], ◌∷◌, ◌++◌, arith,
  ◌==◌, set, take, length, length-set, take-set, append_assoc, append-nil, Bool-cases,
}
use mpstu_bs.Object.OStream.{Stream, init, flush, put, put_string, hex, endl}

pub record IsValid {D : Type 0} (s : Stream D) : Type 0 where
  pub room : length s.buffer ≡ 80
  pub open_end : s.pos < 80
  pub base_low : 2 ≤ s.base
  pub base_high : s.base ≤ 16

pub init-IsValid :
    {D : Type 0} (garbage : List ℕ) (d : D) → length garbage ≡ 80 → IsValid (init garbage d)
unfolding init
init-IsValid garbage d h = ground arith

-- A device that appends what it is handed to what it has shown.
pub record Shows {D : Type 0} (emit : List ℕ → D → D) : Type 0 where
  pub seen : D → List ℕ
  pub seen-emit : (cs : List ℕ) (d : D) → seen (emit cs d) ≡ seen d ++ cs

abbrev pub NonZero : List ℕ → Type 0
NonZero [] = Unit
NonZero (c ∷ cs) = (c ≢ 0) × NonZero cs

module _ {D : Type 0} (emit : List ℕ → D → D) (shows : Shows emit) where
  -- What is on the device and what waits in the buffer.
  abbrev pub text : Stream D → List ℕ
  text s = shows.seen s.device ++ take s.pos s.buffer

  -- `flush` moves the waiting characters to the device, and keeps the text.
  pub flush-text : (s : Stream D) → (text (flush emit s) ≡ text s) × ((flush emit s).pos ≡ 0)
  unfolding flush
  flush-text s = (append-nil _ ∙ shows.seen-emit (take s.pos s.buffer) s.device, refl)

  -- `put` adds one character at the end of the text, also where the buffer is flushed.
  pub put-text :
      (c : ℕ) (s : Stream D)
      → IsValid s
      → (text (put emit c s) ≡ text s ++ c ∷ [])
        × IsValid (put emit c s)
        × ((put emit c s).base ≡ s.base)
  unfolding put
  put-text c s v = elim (Bool-cases (s.pos + 1 == 80)) [
    | inl full ↦ rw full (
      append-nil _
          ∙ shows.seen-emit (take (s.pos + 1) (set s.buffer s.pos c)) s.device
          ∙ ap (λ l. shows.seen s.device ++ l) grown
          ∙ sym (append_assoc (shows.seen s.device) (take s.pos s.buffer) (c ∷ [])),
      record {
        room = same;
        open_end = omega arith;
        base_low = v.base_low;
        base_high = v.base_high;
      },
      refl,
    )
    | inr more ↦ rw more (
      ap (λ l. shows.seen s.device ++ l) grown
          ∙ sym (append_assoc (shows.seen s.device) (take s.pos s.buffer) (c ∷ [])),
      record {
        room = same;
        open_end = ground arith;
        base_low = v.base_low;
        base_high = v.base_high;
      },
      refl,
    )
  ]
    where
      same : length (set s.buffer s.pos c) ≡ 80
      same = length-set s.buffer s.pos c ∙ v.room

      grown : take (s.pos + 1) (set s.buffer s.pos c) ≡ take s.pos s.buffer ++ c ∷ []
      grown =
          let e : s.pos + 1 ≡ suc s.pos = omega arith in
          rw e (take-set s.buffer s.pos c (omega (arith, v.room, v.open_end)))

  -- A text is put out up to its terminating zero byte, whatever stands behind that.
  pub put_string-text :
      (cs rest : List ℕ) (s : Stream D)
      → IsValid s
      → NonZero cs
      → (text (put_string emit (cs ++ 0 ∷ rest) s) ≡ text s ++ cs)
        × IsValid (put_string emit (cs ++ 0 ∷ rest) s)
        × ((put_string emit (cs ++ 0 ∷ rest) s).base ≡ s.base)
  unfolding put_string
  put_string-text [] rest s v nz = (sym (append-nil _), v, refl)
  put_string-text (c ∷ cs) rest s v nz =
      let (t, v', b) = put-text c s v in
      let (t', v'', b') = put_string-text cs rest (put emit c s) v' nz.1 in
      let live : (c == 0) ≡ false = ground (arith, nz.0) in
      rw live (t' ∙ ap (λ l. l ++ cs) t ∙ append_assoc (text s) (c ∷ []) cs, v'', b' ∙ b)

  -- `endl` ends the line and leaves nothing waiting.
  pub endl-text :
      (s : Stream D)
      → IsValid s
      → (text (endl emit s) ≡ text s ++ 10 ∷ []) × ((endl emit s).pos ≡ 0)
  unfolding endl
  endl-text s v = let (t, p) = flush-text (put emit 10 s) in (t ∙ (put-text 10 s v).0, p)

  -- `hex` puts out its prefix and selects base 16.
  pub hex-text :
      (s : Stream D)
      → IsValid s
      → (text (hex emit s) ≡ text s ++ b'0' ∷ b'x' ∷ [])
        × IsValid (hex emit s)
        × ((hex emit s).base ≡ 16)
  unfolding hex
  hex-text s v =
      let (t, v', b) = put_string-text (b'0' ∷ b'x' ∷ []) [] s v (ground arith) in
      (
        t,
        record {
          room = v'.room;
          open_end = v'.open_end;
          base_low = omega arith;
          base_high = omega arith;
        },
        refl,
      )
