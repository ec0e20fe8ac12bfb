-- ===== src/Syscall/Handover.antt =====
-- Guarded_Scheduler::resume: the critical section goes over to the thread that runs next.
use mpstu_bs.Prelude.{
  ℕ, ◌+◌, ◌<◌, ◌≤◌, ◌≡◌, ◌≢◌, refl, ap, ◌∙◌, inl, inr, Bool, true, false, some, none, List, [], ◌∷◌,
  has, length, arith, Bool-cases,
}
use mpstu_bs.Object.Queue.{Ptr, null}
use mpstu_bs.Guard as Guard
use mpstu_bs.Guard.{relay_busy, relay_all, defer, set_queued, leave}
use mpstu_bs.Guard.Inv as Gates
use mpstu_bs.Guard.Relay.{IsValid-same, relay_all-Grown}
use mpstu_bs.Guard.Leave.{total, NoNull, le_of_few, leave-Drained}
use mpstu_bs.Guard.Serviced.{entered, enter-free}
use mpstu_bs.Thread.Dispatcher.{State, switched}
use mpstu_bs.Thread.Scheduler.{resume}
use mpstu_bs.Syscall.{Kernel, handed, finish, guarded_in, guarded, guarded_resume}

module _ (prologue : Ptr → Bool) (cpu : ℕ) where
  -- Interrupts leave the lock and the log of the epilogues alone.
  relay_busy-same :
      (g : Ptr) (s : Guard.State)
      → ((relay_busy prologue cpu g s).s_lock ≡ s.s_lock)
        × ((relay_busy prologue cpu g s).ran ≡ s.ran)
  unfolding relay_busy defer set_queued
  relay_busy-same g s = elim (Bool-cases (prologue g)) [
    | inl wants ↦ rw wants (elim (Bool-cases (s.queue_flag g)) [
      | inl q ↦ rw q (refl, refl)
      | inr q ↦ rw q (refl, refl)
    ])
    | inr not_wanted ↦ rw not_wanted (refl, refl)
  ]

  pub relay_all-same :
      (gs : List Ptr) (s : Guard.State)
      → ((relay_all prologue cpu gs s).s_lock ≡ s.s_lock)
        × ((relay_all prologue cpu gs s).ran ≡ s.ran)
  unfolding relay_all
  relay_all-same [] s = (refl, refl)
  relay_all-same (g ∷ gs) s =
      let (lock, ran) = relay_busy-same g s in
      let (locks, runs) = relay_all-same gs (relay_busy prologue cpu g s) in
      (locks ∙ lock, runs ∙ ran)

module _ (prologue : Ptr → Bool) (cpu : ℕ) (at : cpu < 4) where
  -- When the scheduler's `resume` switches, the guarded one hands the critical section over with the
  -- lock held by the core. The thread that runs next opens it: its `leave`, at the end of its own
  -- system call or in `kickoff`, returns whatever interrupts come in, with epilogues that return, and
  -- the core is outside then.
  pub guarded_resume-handed :
      (watch assassin : Ptr) (turns rounds : ℕ) (during : List Ptr) (arrivals : List (List Ptr))
      (fuel : ℕ) (old next : Ptr) (t : State) (k : Kernel) (qs : ℕ → List Ptr)
      → Gates.IsValid k.guard qs
      → k.guard.s_lock ≡ none
      → resume fuel cpu k.threads ≡ switched old next t
      → ((b : Ptr) → has b during ≡ true → b ≢ null)
      → NoNull arrivals
      → length (qs cpu) + length during + total arrivals < rounds
      → (g : Guard.State) × (guarded_resume prologue watch assassin turns rounds during arrivals cpu
            fuel k
          ≡ handed old next (record { guard = g; threads = t }))
        × (g.s_lock ≡ some cpu)
        × (g' : Guard.State) × (leave prologue rounds arrivals cpu g ≡ some g')
        × (g'.s_lock ≡ none)
        × (g'.flag cpu ≡ false)
  unfolding guarded_resume guarded
  guarded_resume-handed watch assassin turns rounds during arrivals fuel old next t k qs v free
        switches live lives enough =
      let s1 = entered cpu k.guard in
      let v1 : Gates.IsValid s1 qs = IsValid-same k.guard s1 qs v refl refl in
      let (r, marks) = relay_all-Grown prologue cpu at s1 qs during v1 live in
      let n : length (r.qs' cpu) ≤ length (qs cpu) + length during =
        rw r.at_end (le_of_few (qs cpu) r.more (length during) r.few) in
      let g = relay_all prologue cpu during s1 in
      let d = leave-Drained prologue cpu at rounds arrivals g r.qs' r.valid lives (omega arith) in
      (
        g,
        ap
              (λ o.
                guarded_in prologue watch assassin turns rounds during arrivals cpu o
                  (resume fuel cpu k.threads))
              (enter-free cpu k.guard free)
            ∙ ap (finish prologue watch assassin turns rounds during arrivals cpu g) switches,
        (relay_all-same prologue cpu during s1).0,
        d.s',
        d.returns,
        d.unlocked,
        d.outside,
      )
