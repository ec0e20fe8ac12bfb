-- ===== src/Object/Queue/Dequeue.antt =====
-- Queue::dequeue against the list of the elements.
use mpstu_bs.Prelude.{has, ne_of_has, ℕ, ◌≡◌, ◌≢◌, false, List, [], ◌∷◌, arith}
use mpstu_bs.Object.Queue.{Ptr, null, head_of, next_of, Heap, dequeue}
use mpstu_bs.Object.Queue.Chain.{end_slot, IsQueue, frame, moved}

-- An empty queue yields the null pointer and stays as it is.
pub dequeue-empty : (h : Heap) (q : ℕ) → IsQueue h q [] → dequeue q h ≡ (null, h)
unfolding dequeue
dequeue-empty h q is = ground (arith, is.chain)

dequeue_tail :
    (h : Heap) (q : ℕ) (x : Ptr) (xs : List Ptr)
    → IsQueue h q (x ∷ xs)
    → (dequeue q h).1.tail q ≡ end_slot (head_of q) xs
unfolding dequeue
dequeue_tail h q x [] is = ground (arith, is.chain, is.tail)
dequeue_tail h q x (y ∷ ys) is = ground (arith, is.chain, is.tail, is.distinct)

-- `dequeue` hands out the first element, leaves the others in order, and clears its link.
pub dequeue-IsQueue :
    (h : Heap) (q : ℕ) (x : Ptr) (xs : List Ptr)
    → IsQueue h q (x ∷ xs)
    → ((dequeue q h).0 ≡ x)
      × IsQueue (dequeue q h).1 q xs
      × ((dequeue q h).1.cell (next_of x) ≡ null)
unfolding dequeue
dequeue-IsQueue h q x xs is = (
  ground (arith, is.chain),
  record {
    chain =
        moved h.cell _ (next_of x) (head_of q) xs is.chain.2 (ground (arith, is.chain))
          (λ a i. ground (arith, is.chain, ne_of_has x a xs is.distinct.0 i));
    distinct = is.distinct.1;
    tail = dequeue_tail h q x xs is;
  },
  ground (arith, is.chain),
)

-- A queue with other elements is left as it is.
pub dequeue-frame :
    (h : Heap) (q r : ℕ) (x : Ptr) (xs ys : List Ptr)
    → IsQueue h q (x ∷ xs)
    → IsQueue h r ys
    → r ≢ q
    → has x ys ≡ false
    → IsQueue (dequeue q h).1 r ys
unfolding dequeue
dequeue-frame h q r x xs ys is other ne out = record {
  chain =
      frame h.cell _ (head_of r) ys other.chain (ground (arith, is.chain))
        (λ a i. ground (arith, is.chain, ne_of_has x a ys out i));
  distinct = other.distinct;
  tail = ground (arith, other.tail, is.chain);
}
