-- ===== src/Tests/Guards.antt =====
-- guard/guard.cc at a concrete state.
use mpstu_bs.Prelude.{
  ℕ, none, ◌≡◌, refl, ◌≢◌, ◌<◌, true, false, Bool, some, List, [], ◌∷◌, has, arith,
}
use mpstu_bs.Object.Queue.{Ptr, null, Heap, head_of, enqueue}
use mpstu_bs.Guard.{State, put, relay_all}
use mpstu_bs.Guard.Inv.{IsValid, grown, enqueued-IsValid}
use mpstu_bs.Guard.Relay.{Grown, relay_all-Grown}

abbrev blank : Heap
blank = record { cell = λ s. null; tail = head_of }

-- No gate waits; the core 1 is in the critical section.
abbrev idle : State
idle = record {
  heap = blank;
  queue_flag = λ g. false;
  flag = put 1 true (λ c. false);
  s_lock = some 1;
  irq = λ c. true;
  acks = 0;
  ran = [];
}

abbrev pub no_gates : ℕ → List Ptr
no_gates c = []

pub ne : (n : ℕ) → 0 < n → n ≢ null
ne n h e = omega arith

idle-IsValid : IsValid idle no_gates
idle-IsValid = record {
  queue = λ c l. record { chain = refl; distinct = tt; tail = refl };
  marked = λ c g l i. ground arith;
  listed = λ g i. absurd (ground arith);
  apart = λ c d g lc ld n i. refl;
}

-- The gate 5 waits at the core 1.
abbrev busy : State
busy = record idle { heap = enqueue 1 5 blank; queue_flag = put 5 true idle.queue_flag }

busy-IsValid : IsValid busy (grown 1 5 no_gates)
busy-IsValid =
    enqueued-IsValid idle no_gates idle-IsValid 1 (omega arith) busy 5 (ne 5 (omega arith)) refl
      refl refl

abbrev pub always : Ptr → Bool
always g = true

relay_all-Grown_example :
    Grown 1 busy (grown 1 5 no_gates) 2 (relay_all always 1 (6 ∷ 6 ∷ []) busy)
    × ((a : Ptr)
        → has a (6 ∷ 6 ∷ []) ≡ true
        → true ≡ true
        → (relay_all always 1 (6 ∷ 6 ∷ []) busy).queue_flag a ≡ true)
relay_all-Grown_example =
    relay_all-Grown always 1 (omega arith) busy (grown 1 5 no_gates) (6 ∷ 6 ∷ []) busy-IsValid
      (λ a i. ground arith)

-- No core is in the critical section.
abbrev pub quiet : State
quiet = record idle { flag = λ c. false; s_lock = none }

pub quiet-IsValid : IsValid quiet no_gates
quiet-IsValid = record {
  queue = λ c l. record { chain = refl; distinct = tt; tail = refl };
  marked = λ c g l i. ground arith;
  listed = λ g i. absurd (ground arith);
  apart = λ c d g lc ld n i. refl;
}
