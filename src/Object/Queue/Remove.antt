-- ===== src/Object/Queue/Remove.antt =====
-- Queue::remove, with any comparison, against the list of the elements.
use mpstu_bs.Prelude.{
  has, Distinct, ℕ, zero, suc, ◌<◌, ◌≡◌, refl, ◌≢◌, inl, inr, Bool, false, List, [], ◌∷◌, arith,
  ◌==◌, if◌then◌else◌, length, Bool-cases,
}
use mpstu_bs.Object.Queue.{
  Ptr, null, Slot, head_of, next_of, slot_eq, Heap, done, unlink, remove_loop, remove,
}
use mpstu_bs.Object.Queue.Chain.{
  linked, Chain, end_slot, IsQueue, slot_eq_refl, slot_eq_comm, end_slot-ne, moved, linked_head,
  linked_tail, slot_ne_of_has,
}

module _ (cmp : Ptr → Ptr → Bool) (item : Ptr) where
  -- The first element that compares equal, or the null pointer.
  unfoldable pub find : List Ptr → Ptr
  find [] = null
  find (x ∷ xs) = if cmp item x then x else find xs

  -- The list without that element.
  unfoldable pub erase : List Ptr → List Ptr
  erase [] = []
  erase (x ∷ xs) = if cmp item x then xs else x ∷ erase xs

  has-erase : (a : Ptr) (xs : List Ptr) → has a xs ≡ false → has a (erase xs) ≡ false
  unfolding erase
  has-erase a [] o = refl
  has-erase a (x ∷ xs) o = ground (arith, has-erase a xs)

  erase-Distinct : (xs : List Ptr) → Distinct xs → Distinct (erase xs)
  unfolding erase
  erase-Distinct [] d = tt
  erase-Distinct (x ∷ xs) d = elim (Bool-cases (cmp item x)) [
    | inl hit ↦ rw hit d.1
    | inr miss ↦ rw miss (has-erase x xs d.0, erase-Distinct xs d.1)
  ]

-- What a part of the queue from the slot `s` on has become.
record Removed (h : Heap) (q : ℕ) (s : Slot) (xs ys : List Ptr) (h' : Heap) : Type 0 where
  chain : Chain h'.cell s ys
  tail : h'.tail q ≡ end_slot s ys
  same : (t : Slot) → slot_eq s t ≡ false → linked t xs ≡ false → h'.cell t ≡ h.cell t
  others : (r : ℕ) → r ≢ q → h'.tail r ≡ h.tail r

unlink-tail :
    (h : Heap) (q : ℕ) (s : Slot) (x : Ptr) (xs : List Ptr)
    → has x xs ≡ false
    → h.tail q ≡ end_slot (next_of x) xs
    → (unlink q s x h).tail q ≡ end_slot s xs
unfolding unlink
unlink-tail h q s x [] d e = ground arith
unlink-tail h q s x (y ∷ ys) d e = ground (
  arith,
  end_slot-ne (next_of x) (next_of y) ys (ground arith) (ground arith),
  slot_eq_comm (next_of x) (end_slot (next_of y) ys),
)

unlink-Removed :
    (h : Heap) (q : ℕ) (s : Slot) (x : Ptr) (xs : List Ptr)
    → Chain h.cell s (x ∷ xs)
    → has x xs ≡ false
    → linked s (x ∷ xs) ≡ false
    → h.tail q ≡ end_slot (next_of x) xs
    → Removed h q s (x ∷ xs) xs (unlink q s x h)
unfolding unlink
unlink-Removed h q s x xs c d l e = record {
  chain =
      moved h.cell _ (next_of x) s xs c.2 (ground (arith, slot_eq_refl s))
        (λ a i. ground (arith, slot_ne_of_has s a xs (linked_tail s x xs l) i));
  tail = unlink-tail h q s x xs d e;
  same = λ t n o. ground arith;
  others = λ r n. ground arith;
}

Removed-cons :
    (h h' : Heap) (q : ℕ) (s : Slot) (x : Ptr) (xs ys : List Ptr)
    → Chain h.cell s (x ∷ xs)
    → linked s (x ∷ xs) ≡ false
    → Removed h q (next_of x) xs ys h'
    → Removed h q s (x ∷ xs) (x ∷ ys) h'
Removed-cons h h' q s x xs ys c l r = record {
  chain = (ground (arith, r.same s (linked_head s x xs l) (linked_tail s x xs l)), c.1, r.chain);
  tail = r.tail;
  same = λ t n o. r.same t (linked_head t x xs o) (linked_tail t x xs o);
  others = r.others;
}

module _ (cmp : Ptr → Ptr → Bool) (q : ℕ) (item : Ptr) where
  remove_loop-Removed :
      (k : ℕ) (h : Heap) (s : Slot) (xs : List Ptr)
      → Chain h.cell s xs
      → Distinct xs
      → linked s xs ≡ false
      → h.tail q ≡ end_slot s xs
      → length xs < k
      → (h' : Heap) × (remove_loop k cmp q item s (h.cell s) h ≡ done (find cmp item xs) h')
        × Removed h q s xs (erase cmp item xs) h'
  unfolding remove_loop find erase
  remove_loop-Removed zero h s xs c d l e f = absurd (ground arith)
  remove_loop-Removed (suc k) h s [] c d l e f =
      (h, rw c refl, record { chain = c; tail = e; same = λ t n o. refl; others = λ r n. refl })
  remove_loop-Removed (suc k) h s (x ∷ xs) c d l e f =
      let live : (x == null) ≡ false = ground (arith, c.1) in
      elim (Bool-cases (cmp item x)) [
        | inl hit ↦
            (unlink q s x h, rw (c.0, live, hit) refl, rw hit (unlink-Removed h q s x xs c d.0 l e))
        | inr miss ↦
            let (h', p, r) = remove_loop-Removed k h (next_of x) xs c.2 d.1 d.0 e (ground arith) in
            (h', rw (c.0, live, miss) p, rw miss (Removed-cons h h' q s x xs _ c l r))
      ]

  -- With more fuel than elements, `remove` returns the first element that compares equal, or the
  -- null pointer, and leaves the queue of the others, in order.
  pub remove-IsQueue :
      (k : ℕ) (h : Heap) (xs : List Ptr)
      → IsQueue h q xs
      → length xs < k
      → (h' : Heap) × (remove k cmp q item h ≡ done (find cmp item xs) h')
        × IsQueue h' q (erase cmp item xs)
  unfolding remove
  remove-IsQueue k h xs is f =
      let (h', p, r) = remove_loop-Removed k h (head_of q) xs is.chain is.distinct refl is.tail f in
      (
        h',
        p,
        record {
          chain = r.chain;
          distinct = erase-Distinct cmp item xs is.distinct;
          tail = r.tail;
        },
      )
