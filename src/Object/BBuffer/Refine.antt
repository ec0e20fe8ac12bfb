-- ===== src/Object/BBuffer/Refine.antt =====
-- BBuffer against a first-in first-out list of at most CAP - 1 elements.
use mpstu_bs.Prelude.{
  ℕ, zero, suc, ◌+◌, ◌-◌, ◌%◌, ◌^◌, ◌≤◌, ◌<◌, ◌≡◌, refl, ap, ap₂, ◌∙◌, sym, ◌≢◌, ◌⊎◌, inl, inr,
  true, false, List, [], ◌∷◌, ◌++◌, arith, ltb, ◌==◌, if◌then◌else◌, Bool-cases,
}
use native.Mathlib.Nat.{mod-eq_of_lt}
use native.Mathlib.Decide.{dec_lt}
use mpstu_bs.Object.BBuffer.{BBuffer, next_index, init, produce, consume}

-- One step round the ring, without a division.
abbrev bump : ℕ → ℕ → ℕ
bump size i = if i + 1 == size then 0 else i + 1

-- `k` steps round the ring.
abbrev wrap : ℕ → ℕ → ℕ
wrap size i = if ltb i size then i else i - size

next_index-bump : (size i : ℕ) → size ≤ 2 ^ 32 → i < size → next_index size i ≡ bump size i
next_index-bump size i fit h = elim (dec_lt (i + 1) size) [
  | yes p ↦ let e : (i + 1) % 2 ^ 32 ≡ i + 1 = omega arith in ground (arith, e, mod-eq_of_lt p)
  | no p ↦
      let e : i + 1 ≡ size = omega arith in
      elim (dec_lt size (2 ^ 32)) [ yes q ↦ grind (arith, mod-eq_of_lt q) | no q ↦ grind arith ]
]

module _ {A : Type 0} where
  pub record IsValid (size : ℕ) (b : BBuffer A) : Type 0 where
    pub fit : size ≤ 2 ^ 32
    pub in_range : b.in_index < size
    pub out_range : b.out_index < size

  -- How many elements are waiting.
  abbrev pub count : ℕ → BBuffer A → ℕ
  count size b =
      if ltb b.in_index b.out_index
      then b.in_index + size - b.out_index
      else b.in_index - b.out_index

  -- The `n` elements from index `o` on, round the ring.
  abbrev pub window : (ℕ → A) → ℕ → ℕ → ℕ → List A
  window items size o zero = []
  window items size o (suc n) = window items size o n ++ items (wrap size (o + n)) ∷ []

  -- The elements that are waiting, the oldest first.
  abbrev pub contents : ℕ → BBuffer A → List A
  contents size b = window b.items size b.out_index (count size b)

  window-cons :
      (items : ℕ → A) (size o n : ℕ)
      → o < size
      → n < size
      → window items size o (suc n) ≡ items o ∷ window items size (bump size o) n
  window-cons items size o zero h m = ap (λ i. items i ∷ []) (ground arith)
  window-cons items size o (suc n) h m =
      ap₂ ◌++◌ (window-cons items size o n h (omega arith)) (ap (λ i. items i ∷ []) (ground arith))

  -- A constructed buffer is valid and holds nothing.
  pub init-IsValid :
      (size : ℕ) (garbage : ℕ → A)
      → 0 < size
      → size ≤ 2 ^ 32
      → IsValid size (init garbage) × (contents size (init garbage) ≡ [])
  unfolding init
  init-IsValid size garbage pos fit = (ground arith, refl)

  pub produce-IsValid :
      (size : ℕ) (v : A) (b : BBuffer A) → IsValid size b → IsValid size (produce size v b).1
  unfolding produce
  produce-IsValid size v b is = ground (arith, next_index-bump size b.in_index is.fit is.in_range)

  pub consume-IsValid :
      (size : ℕ) (v : A) (b : BBuffer A) → IsValid size b → IsValid size (consume size v b).2
  unfolding consume
  consume-IsValid size v b is = ground (arith, next_index-bump size b.out_index is.fit is.out_range)

  -- The buffer after a write at `in_index`.
  abbrev added : ℕ → A → BBuffer A → BBuffer A
  added size v b = record b {
    items = λ j. if b.in_index == j then v else b.items j;
    in_index = next_index size b.in_index;
  }

  window-count :
      (size : ℕ) (b : BBuffer A) (n : ℕ)
      → count size b ≡ n
      → contents size b ≡ window b.items size b.out_index n
  window-count size b n e = rw e

  abbrev taken : ℕ → BBuffer A → BBuffer A
  taken size b = record b { out_index = next_index size b.out_index }

  count-taken :
      (size : ℕ) (b : BBuffer A)
      → IsValid size b
      → b.in_index ≢ b.out_index
      → count size b ≡ suc (count size (taken size b))
  count-taken size b is ne = ground (arith, next_index-bump size b.out_index is.fit is.out_range)

  contents-taken :
      (size : ℕ) (b : BBuffer A)
      → IsValid size b
      → b.in_index ≢ b.out_index
      → contents size b ≡ b.items b.out_index ∷ contents size (taken size b)
  contents-taken size b is ne =
      let n = count size (taken size b) in
      window-count size b (suc n) (count-taken size b is ne)
      ∙ window-cons b.items size b.out_index n is.out_range
          (ground (arith, count-taken size b is ne))
      ∙ ap (λ o. b.items b.out_index ∷ window b.items size o n)
          (sym (next_index-bump size b.out_index is.fit is.out_range))

  -- `consume` returns the oldest element and leaves the others; when none is waiting it returns
  -- false, leaves the caller's variable as it was and changes nothing.
  pub consume-refines :
      (size : ℕ) (v : A) (b : BBuffer A)
      → IsValid size b
      → (contents size b ≡ []) × (consume size v b ≡ (false, v, b))
        ⊎ (contents size b ≡ (consume size v b).1 ∷ contents size (consume size v b).2)
          × ((consume size v b).0 ≡ true)
  unfolding consume
  consume-refines size v b is = elim (Bool-cases (b.in_index == b.out_index)) [
    | inl none_left ↦ inl (window-count size b 0 (ground arith), rw none_left)
    | inr some_left ↦ inr (rw some_left (contents-taken size b is (ground arith)), rw some_left)
  ]
