-- ===== src/Guard/Inv.antt =====
-- The queues of the guard and the marks of the gates.
use mpstu_bs.Prelude.{
  ℕ, ◌<◌, ◌≡◌, refl, sym, ap, subst, ==_iff, ==_refl, ◌∙◌, ◌≢◌, inl, inr, true, false, List, [],
  ◌∷◌, ◌++◌, ◌==◌, if◌then◌else◌, has, Distinct, arith, Bool-cases,
}
use mpstu_bs.Object.Queue.{Ptr, null, enqueue, dequeue}
use mpstu_bs.Object.Queue.Chain.{IsQueue}
use mpstu_bs.Object.Queue.Enqueue.{enqueue-IsQueue, enqueue-frame}
use mpstu_bs.Object.Queue.Dequeue.{dequeue-IsQueue, dequeue-frame}
use mpstu_bs.Guard.{State, put}

-- `qs` are the queues of the four cores. A gate is marked when, and only when, it stands in one of
-- them, and it stands in one only.
pub record IsValid (s : State) (qs : ℕ → List Ptr) : Type 0 where
  pub queue : (c : ℕ) → c < 4 → IsQueue s.heap c (qs c)
  pub marked : (c : ℕ) (g : Ptr) → c < 4 → has g (qs c) ≡ true → s.queue_flag g ≡ true
  pub listed : (g : Ptr) → s.queue_flag g ≡ true → (c : ℕ) × (c < 4) × (has g (qs c) ≡ true)
  pub apart :
      (c d : ℕ) (g : Ptr) → c < 4 → d < 4 → c ≢ d → has g (qs c) ≡ true → has g (qs d) ≡ false

pub has_last : (g : Ptr) (xs : List Ptr) → has g (xs ++ g ∷ []) ≡ true
has_last g [] = ground arith
has_last g (x ∷ xs) = ground (arith, has_last g xs)

pub has_more : (a g : Ptr) (xs : List Ptr) → has a xs ≡ true → has a (xs ++ g ∷ []) ≡ true
has_more a g [] i = ground arith
has_more a g (x ∷ xs) i = ground (arith, has_more a g xs)

snoc-has : (a g : Ptr) (xs : List Ptr) → (g == a) ≡ false → has a (xs ++ g ∷ []) ≡ has a xs
snoc-has a g [] n = ground arith
snoc-has a g (x ∷ xs) n = rw (snoc-has a g xs n) refl

-- The queues after a gate went to the end of the one of `cpu`.
abbrev pub grown : ℕ → Ptr → (ℕ → List Ptr) → ℕ → List Ptr
grown cpu g qs = put cpu (qs cpu ++ g ∷ []) qs

grown-old :
    (cpu g a : ℕ) (qs : ℕ → List Ptr) (c : ℕ)
    → (g == a) ≡ false
    → has a (grown cpu g qs c) ≡ has a (qs c)
grown-old cpu g a qs c n = elim (Bool-cases (cpu == c)) [
  | inl k ↦ rw k (snoc-has a g (qs cpu) n ∙ ap (λ d. has a (qs d)) ((==_iff cpu c).0 k))
  | inr k ↦ rw k refl
]

grown-new :
    (cpu g : ℕ) (qs : ℕ → List Ptr) (c : ℕ)
    → has g (qs c) ≡ false
    → has g (grown cpu g qs c) ≡ (cpu == c)
grown-new cpu g qs c out = elim (Bool-cases (cpu == c)) [
  | inl k ↦ rw k (has_last g (qs cpu))
  | inr k ↦ rw k out
]

module _ (s : State) (qs : ℕ → List Ptr) (v : IsValid s qs) (cpu : ℕ) (at : cpu < 4) where
  unmarked : (g : Ptr) → s.queue_flag g ≡ false → (c : ℕ) → c < 4 → has g (qs c) ≡ false
  unmarked g free c l = ground (arith, Bool-cases (has g (qs c)), v.marked c g l)

  enqueued-IsQueue :
      (g : Ptr)
      → g ≢ null
      → s.queue_flag g ≡ false
      → (c : ℕ) → c < 4
      → IsQueue (enqueue cpu g s.heap) c (grown cpu g qs c)
  enqueued-IsQueue g live free c l = elim (Bool-cases (cpu == c)) [
    | inl k ↦ rw k (
        subst (λ d. IsQueue (enqueue cpu g s.heap) d (qs cpu ++ g ∷ [])) ((==_iff cpu c).0 k)
          (enqueue-IsQueue s.heap cpu (qs cpu) g (v.queue cpu at) live (unmarked g free cpu at)))
    | inr k ↦ rw k (
        enqueue-frame s.heap cpu c (qs cpu) (qs c) g (v.queue cpu at) (v.queue c l) (ground arith)
          (unmarked g free c l) (λ a i. v.apart c cpu a l at (ground arith) i))
  ]

  -- A gate that is not marked goes to the end of the queue of its core.
  pub enqueued-IsValid :
      (s' : State) (g : Ptr)
      → g ≢ null
      → s.queue_flag g ≡ false
      → s'.heap ≡ enqueue cpu g s.heap
      → s'.queue_flag ≡ put g true s.queue_flag
      → IsValid s' (grown cpu g qs)
  enqueued-IsValid s' g live free heap flags =
      let flag_of : (a : Ptr) → s'.queue_flag a ≡ (if g == a then true else s.queue_flag a) =
        λ a. ap (λ f. f a) flags in
      let new : (c : ℕ) → c < 4 → has g (grown cpu g qs c) ≡ (cpu == c) =
        λ c l. grown-new cpu g qs c (unmarked g free c l) in
      record {
        queue = λ c l. rw heap (enqueued-IsQueue g live free c l);
        marked = λ c a l i. elim (Bool-cases (g == a)) [
          | inl k ↦ flag_of a ∙ rw k refl
          | inr k ↦ flag_of a ∙ rw k (v.marked c a l (sym (grown-old cpu g a qs c k) ∙ i))
        ];
        listed = λ a i. elim (Bool-cases (g == a)) [
          | inl k ↦ (
            cpu,
            at,
            subst (λ b. has b (grown cpu g qs cpu) ≡ true) ((==_iff g a).0 k)
                (new cpu at ∙ ==_refl cpu),
          )
          | inr k ↦
              let (c, l, j) = v.listed a (ground (arith, flag_of a)) in
              (c, l, grown-old cpu g a qs c k ∙ j)
        ];
        apart = λ c d a lc ld n i. elim (Bool-cases (g == a)) [
          | inl k ↦
              let e : g ≡ a = (==_iff g a).0 k in
              let on : (cpu == c) ≡ true =
                sym (new c lc) ∙ subst (λ b. has b (grown cpu g qs c) ≡ true) (sym e) i in
              subst (λ b. has b (grown cpu g qs d) ≡ false) e (new d ld ∙ ground arith)
          | inr k ↦
              grown-old cpu g a qs d k ∙ v.apart c d a lc ld n (sym (grown-old cpu g a qs c k) ∙ i)
        ];
      }

  -- A gate leaves the front of the queue of its core, and its mark goes.
  dequeued-IsQueue :
      (g : Ptr) (gs : List Ptr)
      → qs cpu ≡ g ∷ gs
      → (c : ℕ) → c < 4
      → IsQueue (dequeue cpu s.heap).1 c (put cpu gs qs c)
  dequeued-IsQueue g gs e c l =
      let is : IsQueue s.heap cpu (g ∷ gs) = subst (IsQueue s.heap cpu) e (v.queue cpu at) in
      elim (Bool-cases (cpu == c)) [
        | inl k ↦ rw k (
            subst (λ d. IsQueue (dequeue cpu s.heap).1 d gs) ((==_iff cpu c).0 k)
              (dequeue-IsQueue s.heap cpu g gs is).1)
        | inr k ↦ rw k (
            dequeue-frame s.heap cpu c g gs (qs c) is (v.queue c l) (ground arith)
              (v.apart cpu c g at l (ground arith) (rw e (ground arith))))
      ]

  kept-has :
      (g a : Ptr) (gs : List Ptr)
      → qs cpu ≡ g ∷ gs
      → (g == a) ≡ false
      → (c : ℕ) → has a (put cpu gs qs c) ≡ has a (qs c)
  kept-has g a gs e n c = elim (Bool-cases (cpu == c)) [
    | inl k ↦ rw k (subst (λ d. has a gs ≡ has a (qs d)) ((==_iff cpu c).0 k) (rw e (ground arith)))
    | inr k ↦ rw k refl
  ]

  gone-has :
      (g : Ptr) (gs : List Ptr)
      → qs cpu ≡ g ∷ gs
      → (c : ℕ) → c < 4
      → has g (put cpu gs qs c) ≡ false
  gone-has g gs e c l = elim (Bool-cases (cpu == c)) [
    | inl k ↦ rw k (subst Distinct e (v.queue cpu at).distinct).0
    | inr k ↦ rw k (v.apart cpu c g at l (ground arith) (rw e (ground arith)))
  ]

  pub dequeued-IsValid :
      (s' : State) (g : Ptr) (gs : List Ptr)
      → qs cpu ≡ g ∷ gs
      → s'.heap ≡ (dequeue cpu s.heap).1
      → s'.queue_flag ≡ put g false s.queue_flag
      → IsValid s' (put cpu gs qs)
  dequeued-IsValid s' g gs e heap flags =
      let flag_of : (a : Ptr) → s'.queue_flag a ≡ (if g == a then false else s.queue_flag a) =
        λ a. ap (λ f. f a) flags in
      let never : (a : Ptr) (c : ℕ) → c < 4 → (g == a) ≡ true → has a (put cpu gs qs c) ≡ true → ⊥ =
        λ a c l k i. ground (arith, gone-has g gs e c l) in
      record {
        queue = λ c l. rw heap (dequeued-IsQueue g gs e c l);
        marked = λ c a l i. elim (Bool-cases (g == a)) [
          | inl k ↦ absurd (never a c l k i)
          | inr k ↦ flag_of a ∙ rw k (v.marked c a l (sym (kept-has g a gs e k c) ∙ i))
        ];
        listed = λ a i. elim (Bool-cases (g == a)) [
          | inl k ↦ absurd (ground (arith, flag_of a))
          | inr k ↦
              let (c, l, j) = v.listed a (ground (arith, flag_of a)) in
              (c, l, kept-has g a gs e k c ∙ j)
        ];
        apart = λ c d a lc ld n i. elim (Bool-cases (g == a)) [
          | inl k ↦ absurd (never a c lc k i)
          | inr k ↦ kept-has g a gs e k d ∙ v.apart c d a lc ld n (sym (kept-has g a gs e k c) ∙ i)
        ];
      }
