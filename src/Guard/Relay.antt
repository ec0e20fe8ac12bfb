-- ===== src/Guard/Relay.antt =====
-- Guard::relay on a core that is in the critical section: epilogues wait, each once.
use mpstu_bs.Prelude.{
  ℕ, suc, ◌+◌, ◌<◌, ◌≤◌, ◌≡◌, refl, sym, ap, subst, ◌∙◌, ◌≢◌, inl, inr, Bool, true, false, List, [],
  ◌∷◌, ◌++◌, ◌==◌, has, length, length-append, append-nil, append_assoc, ==_refl, ==_iff, arith,
  Bool-cases, fun_ext,
}
use mpstu_bs.Object.Queue.{Ptr, null}
use mpstu_bs.Guard.{State, put, set_queued, defer, relay_busy, relay_all}
use mpstu_bs.Guard.Inv.{IsValid, grown, enqueued-IsValid}

-- What interrupts of one core leave: its queue grew at its end by at most `n` gates, the other
-- queues and the log are as they were, and what was marked still is.
pub record Grown (cpu : ℕ) (s : State) (qs : ℕ → List Ptr) (n : ℕ) (s' : State) : Type 0 where
  pub qs' : ℕ → List Ptr
  pub valid : IsValid s' qs'
  pub more : List Ptr
  pub at_end : qs' cpu ≡ qs cpu ++ more
  pub few : length more ≤ n
  pub others : (c : ℕ) → (cpu == c) ≡ false → qs' c ≡ qs c
  pub ran : s'.ran ≡ s.ran
  pub still : (a : Ptr) → s.queue_flag a ≡ true → s'.queue_flag a ≡ true

-- `IsValid` reads the queues and the marks only.
pub IsValid-same :
    (s s' : State) (qs : ℕ → List Ptr)
    → IsValid s qs
    → s'.heap ≡ s.heap
    → s'.queue_flag ≡ s.queue_flag
    → IsValid s' qs
IsValid-same s s' qs v h f = record {
  queue = rw h v.queue;
  marked = rw f v.marked;
  listed = rw f v.listed;
  apart = v.apart;
}

mark_again : (g a : Ptr) (f : Ptr → Bool) → f g ≡ true → put g true f a ≡ f a
mark_again g a f m = elim (Bool-cases (g == a)) [ inl k ↦ rw k (ground arith) | inr k ↦ rw k refl ]

marked_too : (g a : Ptr) (f : Ptr → Bool) → f a ≡ true → put g true f a ≡ true
marked_too g a f m = elim (Bool-cases (g == a)) [ inl k ↦ rw k refl | inr k ↦ rw k m ]

sum_le : {l a b n : ℕ} → l ≡ a + b → a ≤ 1 → b ≤ n → l ≤ suc n
sum_le e x y = omega arith

module _ (prologue : Ptr → Bool) (cpu : ℕ) (at : cpu < 4) where
  relay_busy-Grown :
      (s : State) (qs : ℕ → List Ptr) (g : Ptr)
      → IsValid s qs
      → g ≢ null
      → Grown cpu s qs 1 (relay_busy prologue cpu g s)
  unfolding relay_busy defer set_queued
  relay_busy-Grown s qs g v live = elim (Bool-cases (prologue g)) [
    | inl wants ↦ rw wants (elim (Bool-cases (s.queue_flag g)) [
      | inl queued ↦ rw queued record {
        qs' = qs;
        valid = IsValid-same s _ qs v refl (fun_ext λ a. mark_again g a s.queue_flag queued);
        more = [];
        at_end = sym (append-nil (qs cpu));
        few = omega arith;
        others = λ c n. refl;
        ran = refl;
        still = λ a m. mark_again g a s.queue_flag queued ∙ m;
      }
      | inr free ↦ rw free record {
        qs' = grown cpu g qs;
        valid = enqueued-IsValid s qs v cpu at _ g live free refl refl;
        more = g ∷ [];
        at_end = rw (==_refl cpu) refl;
        few = omega arith;
        others = λ c n. rw n refl;
        ran = refl;
        still = λ a m. marked_too g a s.queue_flag m;
      }
    ])
    | inr plain ↦ rw plain record {
      qs' = qs;
      valid = IsValid-same s _ qs v refl refl;
      more = [];
      at_end = sym (append-nil (qs cpu));
      few = omega arith;
      others = λ c n. refl;
      ran = refl;
      still = λ a m. m;
    }
  ]

  relay_busy-marked :
      (s : State) (g : Ptr) → prologue g ≡ true → (relay_busy prologue cpu g s).queue_flag g ≡ true
  unfolding relay_busy defer set_queued
  relay_busy-marked s g wants = elim (Bool-cases (s.queue_flag g)) [
    | inl queued ↦ rw (wants, queued) (rw (==_refl g) refl)
    | inr free ↦ rw (wants, free) (rw (==_refl g) refl)
  ]

  Grown-then :
      (s s1 s2 : State) (qs : ℕ → List Ptr) (n : ℕ)
      → (r : Grown cpu s qs 1 s1) → Grown cpu s1 r.qs' n s2
      → Grown cpu s qs (suc n) s2
  Grown-then s s1 s2 qs n r t = record {
    qs' = t.qs';
    valid = t.valid;
    more = r.more ++ t.more;
    at_end = t.at_end ∙ ap (λ xs. xs ++ t.more) r.at_end ∙ append_assoc (qs cpu) r.more t.more;
    few = sum_le (length-append r.more t.more) r.few t.few;
    others = λ c e. t.others c e ∙ r.others c e;
    ran = t.ran ∙ r.ran;
    still = λ a x. t.still a (r.still a x);
  }

  -- However many interrupts come in at a core in the critical section, each gate that wants its epilogue is marked then, and stands
  -- in exactly one of the queues, once.
  pub relay_all-Grown :
      (s : State) (qs : ℕ → List Ptr) (gs : List Ptr)
      → IsValid s qs
      → ((a : Ptr) → has a gs ≡ true → a ≢ null)
      → Grown cpu s qs (length gs) (relay_all prologue cpu gs s)
        × ((a : Ptr)
            → has a gs ≡ true
            → prologue a ≡ true
            → (relay_all prologue cpu gs s).queue_flag a ≡ true)
  unfolding relay_all
  relay_all-Grown s qs [] v live = (
    record {
      qs' = qs;
      valid = v;
      more = [];
      at_end = sym (append-nil (qs cpu));
      few = omega arith;
      others = λ c n. refl;
      ran = refl;
      still = λ a m. m;
    },
    λ a i w. absurd (ground arith),
  )
  relay_all-Grown s qs (g ∷ gs) v live =
      let r = relay_busy-Grown s qs g v (live g (ground arith)) in
      let s1 = relay_busy prologue cpu g s in
      let (t, all) = relay_all-Grown s1 r.qs' gs r.valid (λ a i. live a (ground arith)) in
      (
        Grown-then s s1 _ qs (length gs) r t,
        λ a i w. elim (Bool-cases (a == g)) [
          | inl k ↦ t.still a (
              rw ((==_iff a g).0 k)
                (relay_busy-marked s g (subst (λ b. prologue b ≡ true) ((==_iff a g).0 k) w)))
          | inr k ↦ all a (ground arith) w
        ],
      )
