-- ===== src/Tests/Queues.antt =====
-- object/queue.h and object/bbuffer.h at concrete inputs.
use mpstu_bs.Prelude.{ℕ, ◌≡◌, refl, ◌≢◌, ◌<◌, ◌⊎◌, true, false, Bool, [], ◌∷◌, ◌==◌, ◌+◌, arith}
use mpstu_bs.Object.Queue.{Ptr, null, Heap, next_of, head_of, done, init, enqueue, dequeue, remove}
use mpstu_bs.Object.Queue.Chain.{IsQueue}
use mpstu_bs.Object.Queue.Enqueue.{init-IsQueue, enqueue-IsQueue}
use mpstu_bs.Object.Queue.Dequeue.{dequeue-IsQueue}
use mpstu_bs.Object.Queue.Remove.{find, erase, remove-IsQueue}
use mpstu_bs.Object.BBuffer.{BBuffer, consume}
use mpstu_bs.Object.BBuffer.Refine.{IsValid, contents, consume-refines}

abbrev blank : Heap
blank = record { cell = λ s. null; tail = head_of }

-- A queue of the objects 5 and 6.
abbrev two : Heap
two = enqueue 0 6 (enqueue 0 5 (init 0 blank))

ne : (n : ℕ) → 0 < n → n ≢ null
ne n h e = omega arith

one-IsQueue : IsQueue (enqueue 0 5 (init 0 blank)) 0 (5 ∷ [])
one-IsQueue = enqueue-IsQueue (init 0 blank) 0 [] 5 (init-IsQueue 0 blank) (ne 5 (omega arith)) refl

two-IsQueue : IsQueue two 0 (5 ∷ 6 ∷ [])
two-IsQueue =
    enqueue-IsQueue (enqueue 0 5 (init 0 blank)) 0 (5 ∷ []) 6 one-IsQueue (ne 6 (omega arith)) refl

enqueue-IsQueue_example : IsQueue (enqueue 0 7 two) 0 (5 ∷ 6 ∷ 7 ∷ [])
enqueue-IsQueue_example = enqueue-IsQueue two 0 (5 ∷ 6 ∷ []) 7 two-IsQueue (ne 7 (omega arith)) refl

dequeue-IsQueue_example :
    ((dequeue 0 two).0 ≡ 5)
    × IsQueue (dequeue 0 two).1 0 (6 ∷ [])
    × ((dequeue 0 two).1.cell (next_of 5) ≡ null)
dequeue-IsQueue_example = dequeue-IsQueue two 0 5 (6 ∷ []) two-IsQueue

abbrev same : Ptr → Ptr → Bool
same a b = a == b

remove-IsQueue_example :
    (h' : Heap) × (remove 3 same 0 6 two ≡ done (find same 6 (5 ∷ 6 ∷ [])) h')
    × IsQueue h' 0 (erase same 6 (5 ∷ 6 ∷ []))
remove-IsQueue_example = remove-IsQueue same 0 6 3 two (5 ∷ 6 ∷ []) two-IsQueue (omega arith)

-- A second queue without elements.
other-IsQueue : IsQueue blank 1 []
other-IsQueue = record { chain = refl; distinct = tt; tail = refl }

abbrev ring : BBuffer ℕ
ring = record { items = λ i. 10 + i; in_index = 1; out_index = 0 }

ring-IsValid : IsValid 4 ring
ring-IsValid = record { fit = omega arith; in_range = omega arith; out_range = omega arith }

consume-refines_example :
    (contents 4 ring ≡ []) × (consume 4 9 ring ≡ (false, 9, ring))
    ⊎ (contents 4 ring ≡ (consume 4 9 ring).1 ∷ contents 4 (consume 4 9 ring).2)
      × ((consume 4 9 ring).0 ≡ true)
consume-refines_example = consume-refines 4 9 ring ring-IsValid
