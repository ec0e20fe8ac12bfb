-- ===== src/Machine/MpTable/Read.antt =====
-- APICSystem::readMPCT: what a table of known entries gives, and that another one is never left.
use mpstu_bs.Prelude.{
  ℕ, zero, suc, ◌+◌, ◌≤◌, ◌<◌, ◌≡◌, refl, ◌∙◌, ◌⊎◌, inl, inr, true, false, not, ◌&&◌, none, some,
  List, [], ◌∷◌, ◌++◌, ltb, leb, ◌==◌, bit_and, append_assoc, append-nil, arith, Bool-cases,
}
use mpstu_bs.Machine.SystemConfig.{Memory, u16_at, mpb_checksum_ok}
use mpstu_bs.Machine.MpTable.{Detection, block, read_loop, with_isa_slots, read_mpct}
use mpstu_bs.Machine.MpTable.Entries.{
  entry_size, Blocks, Unknown, enabled, Added, block-Added, over, next, here, later,
}

enabled-cons :
    (m : Memory) (a : ℕ) (es : List ℕ) → enabled m (a ∷ es) ≡ enabled m (a ∷ []) ++ enabled m es
enabled-cons m a es = elim (Bool-cases ((m a == 0) && not (bit_and (m (a + 3)) 1 == 0))) [
  | inl on ↦ rw on refl
  | inr off ↦ rw off refl
]

read_loop-round :
    (k : ℕ) (m : Memory) (a count len : ℕ) (d : Detection)
    → ltb count len ≡ true
    → (block m a d).1 ≡ entry_size (m a)
    → read_loop m (suc k) a count len d
      ≡ read_loop m k (a + entry_size (m a)) (count + entry_size (m a)) len (block m a d).0
unfolding read_loop
read_loop-round k m a count len d more size = rw (more, size) refl

read_loop-Added :
    (k : ℕ) (m : Memory) (a count len before : ℕ) (xs : List ℕ) {es : List ℕ} (d : Detection)
    → Blocks m len a count es
    → len < count + k
    → 0 < k
    → Added before xs d
    → (d' : Detection) × (read_loop m k a count len d ≡ some d')
      × Added before (xs ++ enabled m es) d'
unfolding read_loop
read_loop-Added zero m a count len before xs d b f pos r = absurd (omega arith)
read_loop-Added (suc k) m a count len before xs d (over l) f pos r =
    let past : ltb count len ≡ false = ground arith in (d, rw past refl, rw (append-nil xs) r)
read_loop-Added (suc k) m a count len before xs d (next {es = es} l known b) f pos r =
    let more : ltb count len ≡ true = ground arith in
    let (size, r') = block-Added m a before xs d known r in
    let size_pos : 8 ≤ entry_size (m a) = ground arith in
    let (d', e, s) =
      read_loop-Added k m (a + entry_size (m a)) (count + entry_size (m a)) len before
        (xs ++ enabled m (a ∷ [])) (block m a d).0 b (omega arith) (omega arith) r' in
    (
      d',
      read_loop-round k m a count len d more size ∙ e,
      rw (enabled-cons m a es, ← append_assoc xs (enabled m (a ∷ [])) (enabled m es)) s,
    )

block-unknown : (m : Memory) (a : ℕ) (d : Detection) → 4 < m a → block m a d ≡ (d, 0)
unfolding block
block-unknown m a d h =
    let e0 : (m a == 0) ≡ false = ground arith in
    let e1 : (m a == 1) ≡ false = ground arith in
    let e2 : (m a == 2) ≡ false = ground arith in
    let e3 : (m a == 3) ≡ false = ground arith in
    let e4 : (m a == 4) ≡ false = ground arith in rw (e0, e1, e2, e3, e4) refl

-- At an entry of an unknown type the loop stays for ever.
stay :
    (k : ℕ) (m : Memory) (a count len : ℕ) (d : Detection)
    → count < len
    → 4 < m a
    → read_loop m k a count len d ≡ none
unfolding read_loop
stay zero m a count len d l h = refl
stay (suc k) m a count len d l h =
    let more : ltb count len ≡ true = ground arith in
    let same_a : a + 0 ≡ a = omega arith in
    let same_count : count + 0 ≡ count = omega arith in
    rw (more, block-unknown m a d h, same_a, same_count) (stay k m a count len d l h)

read_loop-Unknown :
    (k : ℕ) (m : Memory) (a count len : ℕ) (d : Detection)
    → Unknown m len a count
    → read_loop m k a count len d ≡ none
unfolding read_loop
read_loop-Unknown zero m a count len d u = refl
read_loop-Unknown (suc k) m a count len d (here l h) = stay (suc k) m a count len d l h
read_loop-Unknown (suc k) m a count len d (later l known u) =
    let more : ltb count len ≡ true = ground arith in
    let (size, r) =
      block-Added m a d.conf.cpu_count [] d known record { count = omega arith; stored = tt } in
    read_loop-round k m a count len d more size
    ∙ read_loop-Unknown k m (a + entry_size (m a)) (count + entry_size (m a)) len (block m a d).0 u

Blocks-or-Unknown :
    (k : ℕ) (m : Memory) (len a count : ℕ)
    → len < count + k
    → ((es : List ℕ) × Blocks m len a count es) ⊎ Unknown m len a count
Blocks-or-Unknown zero m len a count f = inl ([], over (omega arith))
Blocks-or-Unknown (suc k) m len a count f = elim (Bool-cases (ltb count len)) [
  | inr past ↦ inl ([], over (ground arith))
  | inl more ↦
      let l : count < len = ground arith in
      elim (Bool-cases (leb (m a) 4)) [
        | inr unknown ↦ inr (here l (ground arith))
        | inl known ↦
            let h : m a ≤ 4 = ground arith in
            let size_pos : 8 ≤ entry_size (m a) = ground arith in
            elim (Blocks-or-Unknown k m len (a + entry_size (m a)) (count + entry_size (m a))
              (omega arith)) [ inl (es, b) ↦ inl (a ∷ es, next l h b) | inr u ↦ inr (later l h u) ]
      ]
]

-- For a table with its signature and checksum `readMPCT` ends, with fuel for more rounds than the
-- table has bytes, exactly when all its entries are of known types. It then adds all the enabled
-- processors to those that were counted before, and stores their identifications behind those, as
-- far as there is room for eight.
pub read_mpct-Added :
    (m : Memory) (fuel mpcth : ℕ) (d : Detection)
    → ((m mpcth == b'P')
        && (m (mpcth + 1) == b'C')
        && (m (mpcth + 2) == b'M')
        && (m (mpcth + 3) == b'P'))
      ≡ true
    → mpb_checksum_ok m mpcth (u16_at m (mpcth + 4)) ≡ true
    → u16_at m (mpcth + 4) < fuel
    → ((es : List ℕ) × Blocks m (u16_at m (mpcth + 4)) (mpcth + 44) 44 es
        × (d' : Detection) × (read_mpct m fuel mpcth d ≡ some d')
        × Added d.conf.cpu_count (enabled m es) d')
      ⊎ (Unknown m (u16_at m (mpcth + 4)) (mpcth + 44) 44 × (read_mpct m fuel mpcth d ≡ none))
unfolding read_mpct
read_mpct-Added m fuel mpcth d signed summed enough =
    elim (Blocks-or-Unknown fuel m (u16_at m (mpcth + 4)) (mpcth + 44) 44 (omega arith)) [
      | inl (es, b) ↦
          let (d', e, s) =
            read_loop-Added fuel m (mpcth + 44) 44 (u16_at m (mpcth + 4)) d.conf.cpu_count []
              (with_isa_slots d) b (omega arith) (omega arith)
              record { count = omega arith; stored = tt } in
          inl (es, b, d', rw (signed, summed) e, s)
      | inr u ↦ inr (
        u,
        rw (signed, summed)
            (read_loop-Unknown fuel m (mpcth + 44) 44 (u16_at m (mpcth + 4)) (with_isa_slots d) u),
      )
    ]
