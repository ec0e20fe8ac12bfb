-- ===== src/Tests/Streams.antt =====
-- object/o_stream.cc with a device that keeps what it is handed.
use mpstu_bs.Prelude.{ℕ, ◌≡◌, refl, ◌++◌, some, List, [], ◌∷◌, replicate, arith}
use mpstu_bs.Object.OStream.{Stream, put_string, put_ulong}
use mpstu_bs.Object.OStream.Text.{IsValid, Shows, text, put_string-text}
use mpstu_bs.Object.OStream.Number.{Printed, put_ulong-Printed}

abbrev keep : List ℕ → List ℕ → List ℕ
keep cs shown = shown ++ cs

abbrev keeps : Shows keep
keeps = record { seen = λ shown. shown; seen-emit = λ cs d. refl }

abbrev stream : Stream (List ℕ)
stream = record { buffer = replicate 80 0; pos = 0; base = 10; device = [] }

stream-IsValid : IsValid stream
stream-IsValid = record {
  room = refl;
  open_end = omega arith;
  base_low = omega arith;
  base_high = omega arith;
}

put_string-text_example :
    (text keep keeps (put_string keep (b'o' ∷ b'k' ∷ 0 ∷ 7 ∷ []) stream) ≡ b'o' ∷ b'k' ∷ [])
    × IsValid (put_string keep (b'o' ∷ b'k' ∷ 0 ∷ 7 ∷ []) stream)
    × ((put_string keep (b'o' ∷ b'k' ∷ 0 ∷ 7 ∷ []) stream).base ≡ 10)
put_string-text_example =
    put_string-text keep keeps (b'o' ∷ b'k' ∷ []) (7 ∷ []) stream stream-IsValid
      ((λ e. omega arith), ((λ e. omega arith), tt))

put_ulong-Printed_example :
    (t : Stream (List ℕ)) × (put_ulong keep 255 stream ≡ some t)
    × Printed keep keeps stream 10 255 10 t
put_ulong-Printed_example = put_ulong-Printed keep keeps 255 stream stream-IsValid (omega arith)
