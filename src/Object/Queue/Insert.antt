-- ===== src/Object/Queue/Insert.antt =====
-- Queue::insert_first and Queue::insert_after against the list of the elements.
use mpstu_bs.Prelude.{
  has, Distinct, ne_of_has, ℕ, ◌≡◌, refl, ◌≢◌, inl, inr, true, false, List, [], ◌∷◌, arith, ◌==◌,
  if◌then◌else◌, Bool-cases,
}
use mpstu_bs.Object.Queue.{
  Ptr, null, Slot, head_of, next_of, slot_eq, Heap, insert_first, insert_after,
}
use mpstu_bs.Object.Queue.Chain.{
  Chain, end_slot, IsQueue, slot_eq_comm, end_slot-ne, moved, cell-end_slot,
}

insert_first_tail :
    (h : Heap) (q : ℕ) (xs : List Ptr) (item : Ptr)
    → IsQueue h q xs
    → (insert_first q item h).tail q ≡ end_slot (next_of item) xs
unfolding insert_first
insert_first_tail h q [] item is = ground (arith, is.tail)
insert_first_tail h q (x ∷ xs) item is =
    ground (arith, is.tail, end_slot-ne (head_of q) (next_of x) xs refl refl)

-- `insert_first` puts a new element before the others; it is not null and not in the queue.
pub insert_first-IsQueue :
    (h : Heap) (q : ℕ) (xs : List Ptr) (item : Ptr)
    → IsQueue h q xs
    → item ≢ null
    → has item xs ≡ false
    → IsQueue (insert_first q item h) q (item ∷ xs)
unfolding insert_first
insert_first-IsQueue h q xs item is ne out = record {
  chain = (
    ground arith,
    ne,
    moved h.cell _ (head_of q) (next_of item) xs is.chain (ground arith)
        (λ a i. ground (arith, ne_of_has item a xs out i)),
  );
  distinct = (out, is.distinct);
  tail = insert_first_tail h q xs item is;
}

-- The list with `new_item` behind `old_item`.
unfoldable pub insert_behind : Ptr → Ptr → List Ptr → List Ptr
insert_behind old_item new_item [] = []
insert_behind old_item new_item (x ∷ xs) =
    if x == old_item then x ∷ new_item ∷ xs else x ∷ insert_behind old_item new_item xs

-- The pointers after the two writes of `insert_after`.
abbrev spliced : (Slot → Ptr) → Ptr → Ptr → Slot → Ptr
spliced c old_item new_item t =
    if slot_eq (next_of old_item) t
    then new_item
    else (if slot_eq (next_of new_item) t then c (next_of old_item) else c t)

module _ (c : Slot → Ptr) (old_item new_item : Ptr) (ne : new_item ≢ null) where
  spliced-Chain :
      (s : Slot) (xs : List Ptr)
      → Chain c s xs
      → Distinct xs
      → has old_item xs ≡ true
      → has new_item xs ≡ false
      → slot_eq (next_of old_item) s ≡ false
      → slot_eq (next_of new_item) s ≡ false
      → Chain (spliced c old_item new_item) s (insert_behind old_item new_item xs)
  unfolding insert_behind
  spliced-Chain s [] h d i o e n = ground arith
  spliced-Chain s (x ∷ xs) h d i o e n = elim (Bool-cases (x == old_item)) [
    | inl hit ↦ rw hit (
      ground arith,
      h.1,
      (
        ground arith,
        ne,
        moved c _ (next_of x) (next_of new_item) xs h.2 (ground arith) (λ a j.
            ground (arith, ne_of_has new_item a xs (ground arith) j, ne_of_has x a xs d.0 j)),
      ),
    )
    | inr miss ↦ rw miss (
      ground arith,
      h.1,
      spliced-Chain (next_of x) xs h.2 d.1 (ground arith) (ground arith) (ground arith)
          (ground arith),
    )
  ]

has-insert_behind :
    (a old_item new_item : Ptr) (xs : List Ptr)
    → has a xs ≡ false
    → (a == new_item) ≡ false
    → has a (insert_behind old_item new_item xs) ≡ false
unfolding insert_behind
has-insert_behind a old_item new_item [] o n = refl
has-insert_behind a old_item new_item (x ∷ xs) o n =
    ground (arith, has-insert_behind a old_item new_item xs)

insert_behind-Distinct :
    (old_item new_item : Ptr) (xs : List Ptr)
    → Distinct xs
    → has new_item xs ≡ false
    → Distinct (insert_behind old_item new_item xs)
unfolding insert_behind
insert_behind-Distinct old_item new_item [] d o = tt
insert_behind-Distinct old_item new_item (x ∷ xs) d o = elim (Bool-cases (x == old_item)) [
  | inl hit ↦ rw hit (ground arith, (ground arith, d.1))
  | inr miss ↦ rw miss (
    has-insert_behind x old_item new_item xs d.0 (ground arith),
    insert_behind-Distinct old_item new_item xs d.1 (ground arith),
  )
]

-- The end of the list moves to the new element if it stands behind the last one.
end_slot-insert_behind :
    (s : Slot) (old_item new_item : Ptr) (xs : List Ptr)
    → Distinct xs
    → has old_item xs ≡ true
    → end_slot s (insert_behind old_item new_item xs)
      ≡ (if slot_eq (next_of old_item) (end_slot s xs) then next_of new_item else end_slot s xs)
unfolding insert_behind
end_slot-insert_behind s old_item new_item [] d i = ground arith
end_slot-insert_behind s old_item new_item (x ∷ []) d i = ground arith
end_slot-insert_behind s old_item new_item (x ∷ y ∷ ys) d i = elim (Bool-cases (x == old_item)) [
  | inl hit ↦ rw hit (
      ground (
        arith,
        end_slot-ne (next_of x) (next_of y) ys (ground arith) (ground arith),
        slot_eq_comm (next_of x) (end_slot (next_of y) ys),
      ))
  | inr miss ↦
      rw miss (end_slot-insert_behind (next_of x) old_item new_item (y ∷ ys) d.1 (ground arith))
]

-- `insert_after` puts a new element behind `old_item`, wherever that stands in the queue.
pub insert_after-IsQueue :
    (h : Heap) (q : ℕ) (xs : List Ptr) (old_item new_item : Ptr)
    → IsQueue h q xs
    → has old_item xs ≡ true
    → new_item ≢ null
    → has new_item xs ≡ false
    → IsQueue (insert_after q old_item new_item h) q (insert_behind old_item new_item xs)
unfolding insert_after
insert_after-IsQueue h q xs old_item new_item is i ne out = record {
  chain = ground (
    arith,
    spliced-Chain h.cell old_item new_item ne (head_of q) xs is.chain is.distinct i out refl refl,
  );
  distinct = insert_behind-Distinct old_item new_item xs is.distinct out;
  tail = ground (
    arith,
    end_slot-insert_behind (head_of q) old_item new_item xs is.distinct i,
    end_slot-ne (next_of new_item) (head_of q) xs refl out,
    slot_eq_comm (next_of new_item) (end_slot (head_of q) xs),
    cell-end_slot h.cell (head_of q) xs is.chain,
  );
}
