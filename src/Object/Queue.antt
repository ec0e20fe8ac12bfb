-- ===== src/Object/Queue.antt =====
-- object/queue.h and object/queuelink.h: the intrusive list, with its pointer to a `next` pointer.
-- The kernel runs without paging, so the link of the null object is a word like any other.
pub mod Chain
pub mod Enqueue
pub mod Dequeue
pub mod Remove
pub mod Insert
use mpstu_bs.Prelude.{
  ℕ, zero, suc, ◌+◌, ◌≡◌, Bool, true, false, ◌&&◌, List, [], ◌∷◌, ◌==◌, if◌then◌else◌,
}

abbrev pub Ptr : Type 0
Ptr = ℕ

abbrev pub null : Ptr
null = 0

-- What a `T**` of the class can point to: the `head` of a queue, or the `next` of an object.
pub data Slot : Type 0 where
  head_of : ℕ → Slot
  next_of : Ptr → Slot

abbrev pub slot_eq : Slot → Slot → Bool
slot_eq (head_of q) (head_of r) = q == r
slot_eq (next_of a) (next_of b) = a == b
slot_eq (head_of q) (next_of b) = false
slot_eq (next_of a) (head_of r) = false

-- The pointers that all queues of one element type live in. A queue is known by its number.
pub record Heap : Type 0 where
  pub cell : Slot → Ptr
  pub tail : ℕ → Slot

-- `*s = p`
abbrev pub store : Slot → Ptr → Heap → Heap
store s p h = record h { cell = λ t. if slot_eq s t then p else h.cell t }

-- `tail = s`
abbrev pub set_tail : ℕ → Slot → Heap → Heap
set_tail q s h = record h { tail = λ r. if q == r then s else h.tail r }

-- The constructor.
unfoldable pub init : ℕ → Heap → Heap
init q h = set_tail q (head_of q) (store (head_of q) null h)

unfoldable pub first : ℕ → Heap → Ptr
first q h = h.cell (head_of q)

unfoldable pub next : Ptr → Heap → Ptr
next o h = h.cell (next_of o)

unfoldable pub enqueue : ℕ → Ptr → Heap → Heap
enqueue q item h =
    let h1 = store (next_of item) null h in
    let h2 = store (h1.tail q) item h1 in set_tail q (next_of item) h2

unfoldable pub dequeue : ℕ → Heap → Ptr × Heap
dequeue q h =
    let out = h.cell (head_of q) in
    let h1 = store (head_of q) (h.cell (next_of out)) h in
    let h2 = if h1.cell (head_of q) == null then set_tail q (head_of q) h1 else h1 in
    if out == null then (out, h) else (out, store (next_of out) null h2)

-- The body of the loop of `remove` at an element that compares equal.
unlink : ℕ → Slot → Ptr → Heap → Heap
unlink q prev current h =
    let h1 = store prev (h.cell (next_of current)) h in
    if slot_eq (next_of current) (h1.tail q) then set_tail q prev h1 else h1

pub data Found : Type 0 where
  out_of_fuel : Found
  done : Ptr → Heap → Found

-- The range loop of `remove`, at the iterator value `current`.
remove_loop : ℕ → (Ptr → Ptr → Bool) → ℕ → Ptr → Slot → Ptr → Heap → Found
remove_loop zero cmp q item prev current h = out_of_fuel
remove_loop (suc k) cmp q item prev current h =
    let rest = remove_loop k cmp q item (next_of current) (h.cell (next_of current)) h in
    if current == null
    then done null h
    else if cmp item current
    then done current (unlink q prev current h)
    else rest

unfoldable pub remove : ℕ → (Ptr → Ptr → Bool) → ℕ → Ptr → Heap → Found
unfolding remove_loop unlink
remove fuel cmp q item h = remove_loop fuel cmp q item (head_of q) (h.cell (head_of q)) h

unfoldable pub insert_first : ℕ → Ptr → Heap → Heap
insert_first q item h =
    let h1 = store (next_of item) (h.cell (head_of q)) h in
    let h2 = store (head_of q) item h1 in
    if slot_eq (h2.tail q) (head_of q) then set_tail q (next_of item) h2 else h2

unfoldable pub insert_after : ℕ → Ptr → Ptr → Heap → Heap
insert_after q old_item new_item h =
    let h1 = store (next_of new_item) (h.cell (next_of old_item)) h in
    let h2 = store (next_of old_item) new_item h1 in
    if h2.cell (h2.tail q) == new_item then set_tail q (next_of new_item) h2 else h2
