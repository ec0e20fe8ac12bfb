-- ===== src/Machine/MpTable/Entries.antt =====
-- APICSystem::readMPCT: what one entry of a table changes in the configuration.
use mpstu_bs.Prelude.{
  ℕ, ◌+◌, ◌-◌, ◌≤◌, ◌<◌, ◌≡◌, refl, inl, inr, true, false, not, ◌&&◌, List, [], ◌∷◌, ◌++◌, ltb, leb,
  ◌==◌, if◌then◌else◌, bit_and, length, length-append, append-nil, arith, Bool-cases,
}
use mpstu_bs.Machine.SystemConfig.{Memory}
use mpstu_bs.Machine.SystemConfig.Stored.{Stored, Stored-full, Stored-snoc}
use mpstu_bs.Machine.MpTable.{Detection, processor, ioint, block}

-- The bytes of an entry, by its type.
abbrev pub entry_size : ℕ → ℕ
entry_size t = if t == 0 then 20 else 8

-- The entries of a table that ends, all of known types.
pub data Blocks (m : Memory) (len : ℕ) : ℕ → ℕ → List ℕ → Type 0 where
  over : {a count : ℕ} → len ≤ count → Blocks m len a count []
  next :
      {a count : ℕ} {es : List ℕ}
      → count < len
      → m a ≤ 4
      → Blocks m len (a + entry_size (m a)) (count + entry_size (m a)) es
      → Blocks m len a count (a ∷ es)

-- A table with an entry of another type.
pub data Unknown (m : Memory) (len : ℕ) : ℕ → ℕ → Type 0 where
  here : {a count : ℕ} → count < len → 4 < m a → Unknown m len a count
  later :
      {a count : ℕ}
      → count < len
      → m a ≤ 4
      → Unknown m len (a + entry_size (m a)) (count + entry_size (m a))
      → Unknown m len a count

-- The identifications of the enabled processors among some entries.
abbrev pub enabled : Memory → List ℕ → List ℕ
enabled m [] = []
enabled m (a ∷ es) =
    if (m a == 0) && not (bit_and (m (a + 3)) 1 == 0)
    then m (a + 1) ∷ enabled m es
    else enabled m es

-- The processors `xs` were added to `before`: all are counted, and eight at most are stored.
pub record Added (before : ℕ) (xs : List ℕ) (d : Detection) : Type 0 where
  pub count : d.conf.cpu_count ≡ before + length xs
  pub stored : Stored d.conf.lapic_id before (8 - before) xs

processor-Added :
    (m : Memory) (a before : ℕ) (xs : List ℕ) (d : Detection)
    → (bit_and (m (a + 3)) 1 == 0) ≡ false
    → Added before xs d
    → Added before (xs ++ m (a + 1) ∷ []) (processor m a d)
unfolding processor
processor-Added m a before xs d on r =
    let n : length (xs ++ m (a + 1) ∷ []) ≡ length xs + 1 = length-append xs (m (a + 1) ∷ []) in
    let c : d.conf.cpu_count ≡ before + length xs = r.count in
    elim (Bool-cases (leb (d.conf.cpu_count + 1) 8)) [
      | inl room ↦
          rw (on, room)
            record {
              count = omega arith;
              stored =
                  Stored-snoc xs d.conf.lapic_id before (8 - before) d.conf.cpu_count (m (a + 1)) c
                    r.stored;
            }
      | inr full ↦
          rw (on, full)
            record {
              count = omega arith;
              stored =
                  Stored-full xs d.conf.lapic_id before (8 - before) (m (a + 1)) (ground arith)
                    r.stored;
            }
    ]

processor-off :
    (m : Memory) (a : ℕ) (d : Detection) → (bit_and (m (a + 3)) 1 == 0) ≡ true → processor m a d ≡ d
unfolding processor
processor-off m a d off = rw off refl

ioint-Added :
    (m : Memory) (a before : ℕ) (xs : List ℕ) (d : Detection)
    → Added before xs d
    → Added before xs (ioint m a d)
unfolding ioint
ioint-Added m a before xs d r =
    elim (Bool-cases ((m (a + 4) == 0) && ltb (m (a + 5)) 16 && ltb (m (a + 7)) 24)) [
      | inl maps ↦ rw maps record { count = r.count; stored = r.stored }
      | inr other ↦ rw other r
    ]

-- An entry of a known type.
pub block-Added :
    (m : Memory) (a before : ℕ) (xs : List ℕ) (d : Detection)
    → m a ≤ 4
    → Added before xs d
    → ((block m a d).1 ≡ entry_size (m a)) × Added before (xs ++ enabled m (a ∷ [])) (block m a d).0
unfolding block
block-Added m a before xs d known r = elim (Bool-cases (m a == 0)) [
  | inl cpu ↦ elim (Bool-cases (bit_and (m (a + 3)) 1 == 0)) [
    | inl off ↦ rw (cpu, off, append-nil xs, processor-off m a d off) (refl, r)
    | inr on ↦ rw (cpu, on) (refl, processor-Added m a before xs d on r)
  ]
  | inr no_cpu ↦
      let same : Added before (xs ++ enabled m (a ∷ [])) d = rw (no_cpu, append-nil xs) r in
      let kept : xs ++ enabled m (a ∷ []) ≡ xs = rw (no_cpu, append-nil xs) refl in
      elim (Bool-cases (m a == 2)) [
        | inl io ↦
            rw (no_cpu, io, append-nil xs) (refl, record { count = r.count; stored = r.stored })
        | inr no_io ↦ elim (Bool-cases (m a == 1)) [
          | inl bus ↦ rw (no_cpu, no_io, bus, append-nil xs) (refl, r)
          | inr no_bus ↦ elim (Bool-cases (m a == 3)) [
            | inl int ↦
                rw (no_cpu, no_io, no_bus, int, append-nil xs) (refl, ioint-Added m a before xs d r)
            | inr no_int ↦
                let four : (m a == 4) ≡ true = ground arith in
                rw (no_cpu, no_io, no_bus, no_int, four, append-nil xs) (refl, r)
          ]
        ]
      ]
]
