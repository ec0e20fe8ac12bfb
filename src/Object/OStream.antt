-- ===== src/Object/OStream.antt =====
-- object/strbuf.h, object/strbuf.cc, object/o_stream.h and object/o_stream.cc: the character buffer
-- and the output operators. Characters are bytes; `long` and `int` have 32 bits, `short` has 16, and
-- a signed number is given as its bit pattern. The device behind `flush` is a parameter.
pub mod Text
pub mod Number
use mpstu_bs.Prelude.{
  ℕ, zero, suc, ◌+◌, ◌-◌, ◌/◌, ◌%◌, ◌^◌, Bool, true, false, ◌&&◌, Option, none, some, List, [], ◌∷◌,
  ltb, ◌==◌, if◌then◌else◌, set, take, drop, replicate,
}

-- The fields of Stringbuffer and O_Stream, and the state of the device.
pub record Stream (D : Type 0) : Type 0 where
  pub buffer : List ℕ
  pub pos : ℕ
  pub base : ℕ
  pub device : D

-- The constructors; the buffer keeps what its memory held.
unfoldable pub init : {D : Type 0} → List ℕ → D → Stream D
init garbage d = record { buffer = garbage; pos = 0; base = 10; device = d }

-- `'0' + rest`, or `'a' + (rest - 10)`
abbrev pub digit_char : ℕ → ℕ
digit_char rest = if ltb 9 rest then b'a' + (rest - 10) else b'0' + rest

-- The loop of `operator<<(unsigned long)`, at `i + 1`. A write below the buffer is `none`.
unfoldable pub fill : ℕ → ℕ → ℕ → List ℕ → Option (ℕ × List ℕ)
fill base zero ival buff = if ival == 0 then some (0, buff) else none
fill base (suc i) ival buff =
    let rest = fill base i (ival / base) (set buff i (digit_char (ival % base))) in
    if ival == 0 then some (suc i, buff) else rest

module _ {D : Type 0} (emit : List ℕ → D → D) where
  -- The virtual `flush`, as the derived classes write it: the first `pos` characters go out.
  unfoldable pub flush : Stream D → Stream D
  flush s = record s { device = emit (take s.pos s.buffer) s.device; pos = 0 }

  -- `Stringbuffer::put`, and the operators for `char` and `unsigned char`.
  unfoldable pub put : ℕ → Stream D → Stream D
  unfolding flush
  put c s =
      let s1 = record s { buffer = set s.buffer s.pos c; pos = s.pos + 1 } in
      if s1.pos == 80 then flush s1 else s1

  -- `operator<<(const char*)`: up to the terminating zero byte.
  unfoldable pub put_string : List ℕ → Stream D → Stream D
  put_string [] s = s
  put_string (c ∷ cs) s = let rest = put_string cs (put c s) in if c == 0 then s else rest

  unfoldable pub put_bool : Bool → Stream D → Stream D
  put_bool true s = put_string (b't' ∷ b'r' ∷ b'u' ∷ b'e' ∷ 0 ∷ []) s
  put_bool false s = put_string (b'f' ∷ b'a' ∷ b'l' ∷ b's' ∷ b'e' ∷ 0 ∷ []) s

  unfoldable pub dec : Stream D → Stream D
  dec s = record s { base = 10 }

  unfoldable pub bin : Stream D → Stream D
  bin s = record (put_string (b'0' ∷ b'b' ∷ 0 ∷ []) s) { base = 2 }

  unfoldable pub oct : Stream D → Stream D
  oct s = record (put b'0' s) { base = 8 }

  unfoldable pub hex : Stream D → Stream D
  hex s = record (put_string (b'0' ∷ b'x' ∷ 0 ∷ []) s) { base = 16 }

  unfoldable pub endl : Stream D → Stream D
  endl s = flush (put 10 s)

  -- `operator<<(unsigned long)`; `none` is a write outside the buffer of 33 bytes.
  unfoldable pub put_ulong : ℕ → Stream D → Option (Stream D)
  unfolding dec
  put_ulong ival s =
      if ival == 0 then some (put b'0' s) else elim (fill s.base 32 ival (replicate 33 0)) [
        | none ↦ none
        | some (i, buff) ↦ some (dec (put_string (drop i buff) s))
      ]

  -- `operator<<(long)`
  unfoldable pub put_long : ℕ → Stream D → Option (Stream D)
  unfolding dec
  put_long ival s =
      let out =
        if (s.base == 10) && ltb (2 ^ 31 - 1) ival
        then put_ulong ((2 ^ 32 - ival) % 2 ^ 32) (put b'-' s)
        else put_ulong ival s in
      elim out [ none ↦ none | some t ↦ some (dec t) ]

  unfoldable pub put_int : ℕ → Stream D → Option (Stream D)
  put_int ival s = put_long ival s

  unfoldable pub put_uint : ℕ → Stream D → Option (Stream D)
  put_uint ival s = put_ulong ival s

  -- The conversion to `long` copies the sign bit.
  unfoldable pub put_short : ℕ → Stream D → Option (Stream D)
  put_short ival s = put_long (if ltb ival (2 ^ 15) then ival else ival + 2 ^ 32 - 2 ^ 16) s

  unfoldable pub put_ushort : ℕ → Stream D → Option (Stream D)
  put_ushort ival s = put_ulong ival s

  -- `operator<<(const void*)`
  unfoldable pub put_pointer : ℕ → Stream D → Option (Stream D)
  unfolding dec
  put_pointer ptr s = elim (put_ulong ptr (hex s)) [ none ↦ none | some t ↦ some (dec t) ]
