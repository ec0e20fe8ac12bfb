-- ===== src/Object/Queue/Chain.antt =====
-- What a queue of object/queue.h stands for: the list of its elements, first to last.
use mpstu_bs.Prelude.{
  has, Distinct, ne_of_has, ℕ, ◌≡◌, refl, sym, subst, ap₂, ◌∙◌, ◌≢◌, Bool, true, false, List, [],
  ◌∷◌, arith, inl, inr, ◌==◌, Bool-cases,
}
use mpstu_bs.Object.Queue.{Ptr, null, Slot, head_of, next_of, slot_eq, Heap}

-- Whether the slot is the link of one of the elements.
abbrev pub linked : Slot → List Ptr → Bool
linked (head_of q) xs = false
linked (next_of p) xs = has p xs

-- From the slot `s` the pointers lead through the objects `xs` to the null pointer.
abbrev pub Chain : (Slot → Ptr) → Slot → List Ptr → Type 0
Chain c s [] = c s ≡ null
Chain c s (x ∷ xs) = (c s ≡ x) × (x ≢ null) × Chain c (next_of x) xs

-- The last slot of a chain, which holds the null pointer.
abbrev pub end_slot : Slot → List Ptr → Slot
end_slot s [] = s
end_slot s (x ∷ xs) = end_slot (next_of x) xs

pub record IsQueue (h : Heap) (q : ℕ) (xs : List Ptr) : Type 0 where
  pub chain : Chain h.cell (head_of q) xs
  pub distinct : Distinct xs
  pub tail : h.tail q ≡ end_slot (head_of q) xs

pub slot_eq_iff_eq : (s t : Slot) → slot_eq s t ≡ true → s ≡ t
slot_eq_iff_eq (head_of q) (head_of r) h = ground arith
slot_eq_iff_eq (next_of q) (next_of r) h = ground arith
slot_eq_iff_eq (head_of q) (next_of r) h = ground arith
slot_eq_iff_eq (next_of q) (head_of r) h = ground arith

pub slot_eq_refl : (s : Slot) → slot_eq s s ≡ true
slot_eq_refl (head_of q) = ground arith
slot_eq_refl (next_of p) = ground arith

-- The end of a chain is its start or the link of an element.
pub end_slot-ne :
    (t s : Slot) (xs : List Ptr)
    → slot_eq s t ≡ false
    → linked t xs ≡ false
    → slot_eq (end_slot s xs) t ≡ false
end_slot-ne t s [] h l = h
end_slot-ne (head_of q) s (x ∷ xs) h l = end_slot-ne (head_of q) (next_of x) xs refl refl
end_slot-ne (next_of p) s (x ∷ xs) h l =
    end_slot-ne (next_of p) (next_of x) xs (ground arith) (ground arith)

-- A chain may start at another slot, and survives a change that spares its own links.
pub moved :
    (c d : Slot → Ptr) (s t : Slot) (xs : List Ptr)
    → Chain c s xs
    → d t ≡ c s
    → ((a : Ptr) → has a xs ≡ true → d (next_of a) ≡ c (next_of a))
    → Chain d t xs
moved c d s t [] h e same = ground arith
moved c d s t (x ∷ xs) h e same = (
  ground arith,
  h.1,
  moved c d (next_of x) (next_of x) xs h.2 (same x (ground arith)) (λ a i. same a (ground arith)),
)

pub frame :
    (c d : Slot → Ptr) (s : Slot) (xs : List Ptr)
    → Chain c s xs
    → d s ≡ c s
    → ((a : Ptr) → has a xs ≡ true → d (next_of a) ≡ c (next_of a))
    → Chain d s xs
frame c d s xs h e same = moved c d s s xs h e same

-- The chain ends in the null pointer.
pub cell-end_slot :
    (c : Slot → Ptr) (s : Slot) (xs : List Ptr) → Chain c s xs → c (end_slot s xs) ≡ null
cell-end_slot c s [] h = h
cell-end_slot c s (x ∷ xs) h = cell-end_slot c (next_of x) xs h.2

pub linked_head :
    (s : Slot) (x : Ptr) (xs : List Ptr) → linked s (x ∷ xs) ≡ false → slot_eq (next_of x) s ≡ false
linked_head (head_of q) x xs l = refl
linked_head (next_of p) x xs l = ground arith

pub linked_tail :
    (s : Slot) (x : Ptr) (xs : List Ptr) → linked s (x ∷ xs) ≡ false → linked s xs ≡ false
linked_tail (head_of q) x xs l = refl
linked_tail (next_of p) x xs l = ground arith

-- A slot outside a list of elements is none of their links.
pub slot_ne_of_has :
    (s : Slot) (a : Ptr) (zs : List Ptr)
    → linked s zs ≡ false
    → has a zs ≡ true
    → slot_eq s (next_of a) ≡ false
slot_ne_of_has (head_of q) a zs o i = refl
slot_ne_of_has (next_of b) a zs o i = ne_of_has b a zs o i

pub slot_eq_comm : (s t : Slot) → slot_eq s t ≡ slot_eq t s
slot_eq_comm (head_of q) (head_of r) = ground arith
slot_eq_comm (next_of q) (next_of r) = ground arith
slot_eq_comm (head_of q) (next_of r) = refl
slot_eq_comm (next_of q) (head_of r) = refl

Chain-ne_null :
    (c : Slot → Ptr) (s : Slot) (xs : List Ptr) (a : Ptr)
    → Chain c s xs
    → has a xs ≡ true
    → a ≢ null
Chain-ne_null c s [] a h i = ground arith
Chain-ne_null c s (x ∷ xs) a h i = elim (Bool-cases (x == a)) [
  | inl e ↦ ground (arith, h.1)
  | inr ne ↦ Chain-ne_null c (next_of x) xs a h.2 (ground arith)
]

-- No element of a queue is the null pointer.
pub has-ne_null :
    (h : Heap) (q : ℕ) (xs : List Ptr) (a : Ptr) → IsQueue h q xs → has a xs ≡ true → a ≢ null
has-ne_null h q xs a is i = Chain-ne_null h.cell (head_of q) xs a is.chain i

-- The pointers determine the list.
pub Chain-unique :
    (c : Slot → Ptr) (s : Slot) (xs ys : List Ptr) → Chain c s xs → Chain c s ys → xs ≡ ys
Chain-unique c s [] [] h k = refl
Chain-unique c s [] (y ∷ ys) h k = absurd (ground (arith, k.0, k.1))
Chain-unique c s (x ∷ xs) [] h k = absurd (ground (arith, h.0, h.1))
Chain-unique c s (x ∷ xs) (y ∷ ys) h k =
    let e : x ≡ y = sym h.0 ∙ k.0 in
    let rest : Chain c (next_of x) ys = subst (λ z. Chain c (next_of z) ys) (sym e) k.2 in
    ap₂ (λ z zs. z ∷ zs) e (Chain-unique c (next_of x) xs ys h.2 rest)
