-- ===== src/Guard/Serviced.antt =====
-- guard/guard.cc: no interrupt of the critical section is lost.
use mpstu_bs.Prelude.{
  ℕ, not, ◌&&◌, if◌then◌else◌, [], ◌+◌, ◌<◌, ◌≤◌, ◌≡◌, refl, sym, ap, subst, ◌∙◌, ◌≢◌, inl, inr,
  Bool, true, false, none, some, List, ◌∷◌, ◌++◌, ◌==◌, has, length, ==_iff, arith, Bool-cases,
}
use mpstu_bs.Object.Queue.{Ptr, null}
use mpstu_bs.Guard.{State, put, enter, leave, relay_all, first, later, set_irq}
use mpstu_bs.Guard.Inv.{IsValid}
use mpstu_bs.Guard.Relay.{relay_all-Grown}
use mpstu_bs.Guard.Leave.{total, NoNull, le_of_few, leave-Drained}

-- The state behind `enter` when the lock is open.
abbrev pub entered : ℕ → State → State
entered cpu s =
    let s1 = set_irq cpu false s in
    let s2 = record s1 { flag = put cpu true s1.flag } in
    record (set_irq cpu true s2) { s_lock = some cpu }

pub enter-free : (cpu : ℕ) (s : State) → s.s_lock ≡ none → enter cpu s ≡ some (entered cpu s)
unfolding enter
enter-free cpu s free = rw free refl

-- The gates of the list that want their epilogue and did not wait stand in `now`.
abbrev pub Served : (Ptr → Bool) → (Ptr → Bool) → List Ptr → List Ptr → Type 0
Served prologue waits now [] = Unit
Served prologue waits now (b ∷ bs) =
    ((if prologue b && not (waits b) then has b now else true) ≡ true)
    × Served prologue waits now bs

Served-all :
    (prologue waits : Ptr → Bool) (now during : List Ptr)
    → ((a : Ptr) → has a during ≡ true → prologue a ≡ true → waits a ≡ false → has a now ≡ true)
    → Served prologue waits now during
Served-all prologue waits now [] all = tt
Served-all prologue waits now (b ∷ bs) all = (
  elim (Bool-cases (prologue b && not (waits b))) [
    | inl both ↦ rw both (all b (ground arith) (ground arith) (ground arith))
    | inr other ↦ rw other refl
  ],
  Served-all prologue waits now bs (λ a i. all a (ground arith)),
)

pub total-split :
    (rounds : List (List Ptr)) → total rounds ≡ length (first rounds) + total (later rounds)
total-split [] = refl
total-split (now ∷ rounds) = refl

pub first-NoNull :
    (rounds : List (List Ptr)) → NoNull rounds → (a : Ptr) → has a (first rounds) ≡ true → a ≢ null
first-NoNull [] h a i = absurd (ground arith)
first-NoNull (now ∷ rounds) h a i = h.0 a i

pub later-NoNull : (rounds : List (List Ptr)) → NoNull rounds → NoNull (later rounds)
later-NoNull [] h = tt
later-NoNull (now ∷ rounds) h = h.1

module _ (prologue : Ptr → Bool) (cpu : ℕ) (at : cpu < 4) where
  -- Interrupts `during` some work in the critical section, and `leave` behind it.
  pub arrived-Drained :
      (k : ℕ) (during : List Ptr) (arrivals : List (List Ptr)) (s : State) (qs : ℕ → List Ptr)
      → IsValid s qs
      → ((b : Ptr) → has b during ≡ true → b ≢ null)
      → NoNull arrivals
      → length (qs cpu) + length during + total arrivals < k
      → (s' : State) × (leave prologue k arrivals cpu (relay_all prologue cpu during s) ≡ some s')
        × (s'.s_lock ≡ none)
        × (s'.flag cpu ≡ false)
        × (now : List Ptr) × (s'.ran ≡ now ++ s.ran)
        × Served prologue s.queue_flag now during
  arrived-Drained k during arrivals s qs v live lives enough =
      let (r, marks) = relay_all-Grown prologue cpu at s qs during v live in
      let n : length (r.qs' cpu) ≤ length (qs cpu) + length during =
        rw r.at_end (le_of_few (qs cpu) r.more (length during) r.few) in
      let d =
        leave-Drained prologue cpu at k arrivals (relay_all prologue cpu during s) r.qs' r.valid
          lives (omega arith) in
      (
        d.s',
        d.returns,
        d.unlocked,
        d.outside,
        d.now,
        d.ran ∙ ap (λ l. d.now ++ l) r.ran,
        Served-all prologue s.queue_flag d.now during (λ a came wants idle.
            let (c, lt, there) = r.valid.listed a (marks a came wants) in
            d.all a (elim (Bool-cases (cpu == c)) [
              | inl e ↦ subst (λ i. has a (r.qs' i) ≡ true) (sym ((==_iff cpu c).0 e)) there
              | inr off ↦
                  let before : has a (qs c) ≡ true =
                    ap (λ l. has a l) (sym (r.others c off)) ∙ there in
                  let marked = v.marked c a lt before in absurd (ground arith)
            ])),
      )
