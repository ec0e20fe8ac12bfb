-- ===== src/Thread/Context/Kickoff.antt =====
-- The first activation of a thread, and the return to a thread that was switched.
use mpstu_bs.Prelude.{
  ℕ, ◌+◌, ◌-◌, ◌≤◌, ◌≡◌, refl, ◌∙◌, Bool, true, false, ◌&&◌, ◌||◌, not, List, [], ◌∷◌, leb, ◌==◌,
  arith, ==_refl,
}
use mpstu_bs.Object.Queue.{Ptr}
use mpstu_bs.Thread.Context.{Context, toc_settle, thread, toc_go, toc_switch}

-- A thread, and the top of its stack.
pub record Born : Type 0 where
  pub this : Ptr
  pub tos : ℕ

module _ (kickoff enterpanic : ℕ) where
  -- The latest thread stands first.
  abbrev pub threads : List Born → Context → Context
  threads [] c = c
  threads (t ∷ ts) c = thread kickoff enterpanic t.this t.tos (threads ts c)

  -- A core that takes up the thread enters `kickoff` with the thread as its parameter, above the
  -- address that it must not return to.
  abbrev pub Enters : Context → Born → Type 0
  Enters c t =
      let r = toc_go t.this c in
      (r.eip ≡ kickoff)
      × (r.registers.ebp ≡ t.tos)
      × (r.registers.esp ≡ t.tos - 4)
      × (r.memory r.registers.esp ≡ enterpanic)
      × (r.memory (r.registers.esp + 4) ≡ t.this)

  abbrev pub AllEnter : Context → List Born → Type 0
  AllEnter c [] = Unit
  AllEnter c (t ∷ ts) = Enters c t × AllEnter c ts

  -- Two threads whose prepared words do not overlap.
  abbrev pub apart : Born → Born → Bool
  apart t u = not (t.this == u.this) && (leb (t.tos + 12) u.tos || leb (u.tos + 12) t.tos)

  abbrev pub Apart : Born → List Born → Type 0
  Apart t [] = Unit
  Apart t (u ∷ us) = (apart t u ≡ true) × Apart t us

  abbrev pub AllApart : List Born → Type 0
  AllApart [] = Unit
  AllApart (t ∷ ts) = (8 ≤ t.tos) × Apart t ts × AllApart ts

  Enters-self :
      (c : Context) (t : Born) → 8 ≤ t.tos → Enters (thread kickoff enterpanic t.this t.tos c) t
  unfolding toc_settle toc_go
  Enters-self c t h =
      rw (==_refl t.this) (ground arith, refl, omega arith, ground arith, ground arith)

  Enters-other :
      (c : Context) (t u : Born)
      → apart t u ≡ true
      → 8 ≤ t.tos
      → 8 ≤ u.tos
      → Enters c u
      → Enters (thread kickoff enterpanic t.this t.tos c) u
  unfolding toc_settle toc_go
  Enters-other c t u d h k e =
      let other : (u.this == t.this) ≡ false = ground arith in
      let (at, base, top, back, parameter) = e in
      let esp : (c.regs u.this).esp ≡ u.tos - 8 = omega arith in
      rw other (ground arith, base, top, ground arith, ground arith)

  AllEnter-after :
      (c : Context) (t : Born) (us : List Born)
      → 8 ≤ t.tos
      → Apart t us
      → AllApart us
      → AllEnter c us
      → AllEnter (thread kickoff enterpanic t.this t.tos c) us
  AllEnter-after c t [] h d a e = tt
  AllEnter-after c t (u ∷ us) h d a e =
      (Enters-other c t u d.0 h a.0 e.0, AllEnter-after c t us h d.1 a.2 e.1)

  -- Whatever order the threads are made in: when their objects differ and the three words at the top
  -- of their stacks do not overlap, a core that takes up any of them for the first time enters
  -- `kickoff` with that thread as its parameter, on its own stack, and `enterpanic` as the address to
  -- return to.
  pub threads-AllEnter : (ts : List Born) (c : Context) → AllApart ts → AllEnter (threads ts c) ts
  threads-AllEnter [] c a = tt
  threads-AllEnter (t ∷ ts) c a = (
    Enters-self (threads ts c) t a.0,
    AllEnter-after (threads ts c) t ts a.0 a.1 a.2 (threads-AllEnter ts c a.2),
  )

-- A thread that was switched goes on behind its call, with its registers, when another switches back
-- to it and meanwhile its `regs` and the word at the top of its stack were left alone; the registers
-- of the other are kept in turn.
pub toc_switch-back :
    (a b : Ptr) (c c' : Context)
    → (a == b) ≡ false
    → c'.regs a ≡ (toc_switch a b c).regs a
    → c'.memory c.registers.esp ≡ c.memory c.registers.esp
    → let r = toc_switch b a c' in
      (r.eip ≡ c.memory c.registers.esp)
      × (r.registers ≡ record (c.registers) { esp = c.registers.esp + 4 })
      × (r.regs b ≡ c'.registers)
unfolding toc_switch
toc_switch-back a b c c' d regs word =
    let saved : c'.regs a ≡ c.registers = regs ∙ rw (==_refl a) refl in
    rw (d, saved) (word, refl, rw (==_refl b) refl)
