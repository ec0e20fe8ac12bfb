-- ===== src/Guard/Leave.antt =====
-- Guard::leave works the queue of its core off, whatever interrupts come in meanwhile.
use mpstu_bs.Prelude.{
  ℕ, suc, zero, ◌+◌, ◌<◌, ◌≤◌, ◌≡◌, refl, sym, ap, subst, ◌∙◌, ◌≢◌, inl, inr, ◌⊎◌, Bool, true,
  false, Option, none, some, List, [], ◌∷◌, ◌++◌, ◌==◌, has, length, length-append, append_assoc,
  ==_refl, arith, Bool-cases,
}
use mpstu_bs.Object.Queue.{Ptr, null, dequeue}
use mpstu_bs.Object.Queue.Chain.{IsQueue}
use mpstu_bs.Object.Queue.Dequeue.{dequeue-empty, dequeue-IsQueue}
use mpstu_bs.Guard.{State, put, set_dequeued, relay_all, leave, set_irq, epilogue}
use mpstu_bs.Guard.Inv.{IsValid, dequeued-IsValid}
use mpstu_bs.Guard.Relay.{Grown, relay_all-Grown}

abbrev pub total : List (List Ptr) → ℕ
total [] = 0
total (gs ∷ rest) = length gs + total rest

abbrev pub NoNull : List (List Ptr) → Type 0
NoNull [] = Unit
NoNull (gs ∷ rest) = ((a : Ptr) → has a gs ≡ true → a ≢ null) × NoNull rest

-- The core has left the critical section with its queue empty. The log got `now`, in which every
-- gate of the queue stands.
pub record Drained (cpu : ℕ) (s : State) (qs : ℕ → List Ptr) (o : Option State) : Type 0 where
  pub s' : State
  pub returns : o ≡ some s'
  pub qs' : ℕ → List Ptr
  pub valid : IsValid s' qs'
  pub empty : qs' cpu ≡ []
  pub others : (c : ℕ) → (cpu == c) ≡ false → qs' c ≡ qs c
  pub outside : s'.flag cpu ≡ false
  pub unlocked : s'.s_lock ≡ none
  pub now : List Ptr
  pub ran : s'.ran ≡ now ++ s.ran
  pub all : (g : Ptr) → has g (qs cpu) ≡ true → has g now ≡ true

has-append : (g : Ptr) (xs ys : List Ptr) → has g xs ≡ true → has g (xs ++ ys) ≡ true
has-append g [] ys i = absurd (ground arith)
has-append g (x ∷ xs) ys i = ground (arith, has-append g xs ys)

has-append-right : (g : Ptr) (xs ys : List Ptr) → has g ys ≡ true → has g (xs ++ ys) ≡ true
has-append-right g [] ys i = i
has-append-right g (x ∷ xs) ys i = ground (arith, has-append-right g xs ys)

append_snoc : (xs : List Ptr) (g : Ptr) (ys : List Ptr) → xs ++ (g ∷ ys) ≡ (xs ++ g ∷ []) ++ ys
append_snoc xs g ys = sym (append_assoc xs (g ∷ []) ys)

lt_of_le : (a b c n : ℕ) → a ≤ b → b + c < n → a + c < n
lt_of_le a b c n h k = omega arith

list_cases : (xs : List Ptr) → (xs ≡ []) ⊎ ((x : Ptr) × (ys : List Ptr) × (xs ≡ x ∷ ys))
list_cases [] = inl refl
list_cases (x ∷ xs) = inr (x, xs, refl)

pub le_of_few : (xs ys : List Ptr) (n : ℕ) → length ys ≤ n → length (xs ++ ys) ≤ length xs + n
le_of_few xs ys n h = rw (length-append xs ys) (omega arith)

module _ (prologue : Ptr → Bool) (cpu : ℕ) (at : cpu < 4) where
  -- The state after the epilogue of the gate `g` at the front of the queue was called.
  abbrev pub after : Ptr → State → State
  after g s = epilogue g (
      set_irq cpu true
        (set_dequeued g (record (set_irq cpu false s) { heap = (dequeue cpu s.heap).1 })))

  after-IsValid :
      (s : State) (qs : ℕ → List Ptr) (g : Ptr) (gs : List Ptr)
      → IsValid s qs
      → qs cpu ≡ g ∷ gs
      → IsValid (after g s) (put cpu gs qs)
  unfolding set_dequeued
  after-IsValid s qs g gs v e = dequeued-IsValid s qs v cpu at (after g s) g gs e refl refl

  -- The round with the interrupts `now`, from the result of the rounds after it.
  Drained-step :
      (s s2 : State) (qs : ℕ → List Ptr) (g : Ptr) (gs : List Ptr) (n : ℕ) (o : Option State)
      → qs cpu ≡ g ∷ gs
      → (r : Grown cpu (after g s) (put cpu gs qs) n s2) → Drained cpu s2 r.qs' o
      → Drained cpu s qs o
  unfolding set_dequeued
  Drained-step s s2 qs g gs n o e r d = record {
    s' = d.s';
    returns = d.returns;
    qs' = d.qs';
    valid = d.valid;
    empty = d.empty;
    others = λ c off. d.others c off ∙ r.others c off ∙ rw off refl;
    outside = d.outside;
    unlocked = d.unlocked;
    now = d.now ++ g ∷ [];
    ran = d.ran ∙ ap (λ l. d.now ++ l) r.ran ∙ append_snoc d.now g s.ran;
    all = λ a i. elim (Bool-cases (a == g)) [
      | inl k ↦ has-append-right a d.now (g ∷ []) (rw k refl)
      | inr k ↦
          let left : has a gs ≡ true = ground (arith, ap (λ l. has a l) e) in
          has-append a d.now (g ∷ [])
            (d.all a (ap (λ l. has a l) r.at_end ∙ rw (==_refl cpu) (has-append a gs r.more left)))
    ];
  }

  leave-last :
      (k : ℕ) (arrivals : List (List Ptr)) (s : State) (qs : ℕ → List Ptr)
      → IsValid s qs
      → qs cpu ≡ []
      → Drained cpu s qs (leave prologue (suc k) arrivals cpu s)
  unfolding leave
  leave-last k arrivals s qs v e =
      let none_left = dequeue-empty s.heap cpu (subst (IsQueue s.heap cpu) e (v.queue cpu at)) in
      rw (none_left, leave)
        record {
          s' = _;
          returns = refl;
          qs' = qs;
          valid = record { queue = v.queue; marked = v.marked; listed = v.listed; apart = v.apart };
          empty = e;
          others = λ c off. refl;
          outside = rw (==_refl cpu) refl;
          unlocked = refl;
          now = [];
          ran = refl;
          all = λ g i. absurd (ground (arith, ap (λ l. has g l) e));
        }

  -- What follows the epilogue of `g`.
  abbrev pub after_round : ℕ → List (List Ptr) → Ptr → State → Option State
  after_round k [] g s = leave prologue k [] cpu (after g s)
  after_round k (now ∷ later) g s =
      leave prologue k later cpu (relay_all prologue cpu now (after g s))

  pub leave-item :
      (k : ℕ) (arrivals : List (List Ptr)) (s : State)
      → ((dequeue cpu s.heap).0 == null) ≡ false
      → leave prologue (suc k) arrivals cpu s ≡ after_round k arrivals (dequeue cpu s.heap).0 s
  unfolding leave
  leave-item k [] s live = rw (live, leave) refl
  leave-item k (now ∷ later) s live = rw (live, leave) refl

  leave-round :
      (k : ℕ) (arrivals : List (List Ptr)) (s : State) (g : Ptr) (gs : List Ptr)
      → IsQueue s.heap cpu (g ∷ gs)
      → leave prologue (suc k) arrivals cpu s ≡ after_round k arrivals g s
  leave-round k arrivals s g gs is =
      let (out, left, clear) = dequeue-IsQueue s.heap cpu g gs is in
      let live : ((dequeue cpu s.heap).0 == null) ≡ false = ground (arith, is.chain) in
      leave-item k arrivals s live ∙ ap (λ i. after_round k arrivals i s) out

  Grown-length :
      (s s2 : State) (qs : ℕ → List Ptr) (g : Ptr) (gs : List Ptr) (n : ℕ)
      → (r : Grown cpu s (put cpu gs qs) n s2) → length (r.qs' cpu) ≤ length gs + n
  Grown-length s s2 qs g gs n r = rw r.at_end (rw (==_refl cpu) (le_of_few gs r.more n r.few))

  -- The statement of `leave-Drained` for less fuel.
  abbrev Drains : ℕ → Type 0
  Drains k =
      (arrivals : List (List Ptr)) (s : State) (qs : ℕ → List Ptr)
      → IsValid s qs
      → NoNull arrivals
      → length (qs cpu) + total arrivals < k
      → Drained cpu s qs (leave prologue k arrivals cpu s)

  round-Drained :
      (k : ℕ) (arrivals : List (List Ptr)) (s : State) (qs : ℕ → List Ptr) (g : Ptr) (gs : List Ptr)
      → Drains k
      → IsValid s qs
      → NoNull arrivals
      → qs cpu ≡ g ∷ gs
      → length gs + total arrivals < k
      → Drained cpu s qs (after_round k arrivals g s)
  unfolding relay_all
  round-Drained k [] s qs g gs ih v live e f =
      let v1 = after-IsValid s qs g gs v e in
      let (r, marked) =
        relay_all-Grown prologue cpu at (after g s) (put cpu gs qs) [] v1
          (λ a i. absurd (ground arith)) in
      Drained-step s _ qs g gs 0 _ e r (
        ih [] _ r.qs' r.valid tt
          (lt_of_le _ (length gs + 0) 0 k (Grown-length _ _ qs g gs 0 r) (omega arith)))
  round-Drained k (now ∷ later) s qs g gs ih v live e f =
      let v1 = after-IsValid s qs g gs v e in
      let (r, marked) = relay_all-Grown prologue cpu at (after g s) (put cpu gs qs) now v1 live.0 in
      Drained-step s _ qs g gs (length now) _ e r (
        ih later _ r.qs' r.valid live.1 (
          lt_of_le _ (length gs + length now) _ k (Grown-length _ _ qs g gs (length now) r)
            (omega arith)))

  pub leave-Drained :
      (k : ℕ) (arrivals : List (List Ptr)) (s : State) (qs : ℕ → List Ptr)
      → IsValid s qs
      → NoNull arrivals
      → length (qs cpu) + total arrivals < k
      → Drained cpu s qs (leave prologue k arrivals cpu s)
  leave-Drained zero arrivals s qs v live f = absurd (omega arith)
  leave-Drained (suc k) arrivals s qs v live f = elim (list_cases (qs cpu)) [
    | inl e ↦ leave-last k arrivals s qs v e
    | inr (g, gs, e) ↦
        let is : IsQueue s.heap cpu (g ∷ gs) = subst (IsQueue s.heap cpu) e (v.queue cpu at) in
        let more = subst (λ l. length l + total arrivals < suc k) e f in
        rw (leave-round k arrivals s g gs is)
          (round-Drained k arrivals s qs g gs (leave-Drained k) v live e (omega arith))
  ]
