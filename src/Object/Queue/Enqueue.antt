-- ===== src/Object/Queue/Enqueue.antt =====
-- Queue::Queue and Queue::enqueue against the list of the elements.
use mpstu_bs.Prelude.{
  has, Distinct, Distinct-snoc, ne_of_has, ℕ, ◌≡◌, refl, ◌≢◌, true, false, List, [], ◌∷◌, ◌++◌,
  arith, if◌then◌else◌,
}
use mpstu_bs.Object.Queue.{Ptr, null, Slot, head_of, next_of, slot_eq, Heap, init, enqueue}
use mpstu_bs.Object.Queue.Chain.{
  linked, Chain, end_slot, IsQueue, slot_eq_refl, slot_eq_comm, end_slot-ne, frame, linked_head,
  linked_tail,
}

-- A constructed queue is empty.
pub init-IsQueue : (q : ℕ) (h : Heap) → IsQueue (init q h) q []
unfolding init
init-IsQueue q h = ground arith

-- The pointers after `item->next = 0` and the write of `item` to the slot `e`.
abbrev pushed : (Slot → Ptr) → Slot → Ptr → Slot → Ptr
pushed c e item t = if slot_eq e t then item else (if slot_eq (next_of item) t then null else c t)

pushed-Chain :
    (c : Slot → Ptr) (s : Slot) (xs : List Ptr) (item : Ptr)
    → Chain c s xs
    → Distinct xs
    → item ≢ null
    → has item xs ≡ false
    → slot_eq (next_of item) s ≡ false
    → linked s xs ≡ false
    → Chain (pushed c (end_slot s xs) item) s (xs ++ item ∷ [])
pushed-Chain c s [] item h d ne out apart l =
    ground (arith, slot_eq_refl s, slot_eq_comm s (next_of item))
pushed-Chain c s (x ∷ xs) item h d ne out apart l = (
  ground (arith, end_slot-ne s (next_of x) xs (linked_head s x xs l) (linked_tail s x xs l)),
  h.1,
  pushed-Chain c (next_of x) xs item h.2 d.1 ne (ground arith) (ground arith) d.0,
)

end_slot-append :
    (s : Slot) (xs : List Ptr) (item : Ptr) → end_slot s (xs ++ item ∷ []) ≡ next_of item
end_slot-append s [] item = refl
end_slot-append s (x ∷ xs) item = end_slot-append (next_of x) xs item

-- `enqueue` puts a new element behind the last one; it is not null and not in the queue.
pub enqueue-IsQueue :
    (h : Heap) (q : ℕ) (xs : List Ptr) (item : Ptr)
    → IsQueue h q xs
    → item ≢ null
    → has item xs ≡ false
    → IsQueue (enqueue q item h) q (xs ++ item ∷ [])
unfolding enqueue
enqueue-IsQueue h q xs item is ne out = record {
  chain =
      rw is.tail (pushed-Chain h.cell (head_of q) xs item is.chain is.distinct ne out refl refl);
  distinct = Distinct-snoc xs item is.distinct out;
  tail = ground (arith, end_slot-append (head_of q) xs item);
}

-- Another queue, without the new element and those of the queue, is left as it is.
pub enqueue-frame :
    (h : Heap) (q r : ℕ) (xs ys : List Ptr) (item : Ptr)
    → IsQueue h q xs
    → IsQueue h r ys
    → r ≢ q
    → has item ys ≡ false
    → ((a : Ptr) → has a ys ≡ true → has a xs ≡ false)
    → IsQueue (enqueue q item h) r ys
unfolding enqueue
enqueue-frame h q r xs ys item is other ne out apart = record {
  chain =
      frame h.cell _ (head_of r) ys other.chain
        (rw is.tail (ground (arith, end_slot-ne (head_of r) (head_of q) xs (ground arith) refl)))
        (λ a i. rw is.tail (
          ground (
            arith,
            apart a,
            end_slot-ne (next_of a) (head_of q) xs refl,
            ne_of_has item a ys out,
          )));
  distinct = other.distinct;
  tail = ground (arith, other.tail);
}
