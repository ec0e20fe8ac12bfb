-- ===== src/Machine/Ticketlock.antt =====
-- machine/ticketlock.h: the lock that hands out tickets, for any number of processors whose shared
-- accesses interleave in any order. Both counters are `unsigned int`.
pub mod Fifo
pub mod Access
pub mod Safety
use mpstu_bs.Prelude.{ℕ, ◌+◌, ◌%◌, ◌^◌, ◌<◌, ◌≡◌, ◌≢◌, Bool, true, false, ◌==◌, if◌then◌else◌}

pub record Lock : Type 0 where
  pub ticketnumber : ℕ
  pub turn : ℕ

-- The constructor.
unfoldable pub init : Lock
init = record { ticketnumber = 0; turn = 0 }

abbrev pub u32 : ℕ → ℕ
u32 n = n % 2 ^ 32

-- Where a processor stands: outside `lock` and `unlock`, in the loop of `lock` with its ticket,
-- in the section, or in `unlock` between the read and the write of `_turn++`.
pub data Pc : Type 0 where
  outside : Pc
  waiting : (current : ℕ) → Pc
  inside : Pc
  leaving : (turn : ℕ) → Pc

-- One shared access of one processor.
pub data Move (l : Lock) : Pc → Lock → Pc → Type 0 where
  take :
      Move l outside (record l { ticketnumber = u32 (l.ticketnumber + 1) }) (waiting l.ticketnumber)
  wait : {t : ℕ} → l.turn ≢ t → Move l (waiting t) l (waiting t)
  enter : {t : ℕ} → l.turn ≡ t → Move l (waiting t) l inside
  load : Move l inside l (leaving l.turn)
  store : {v : ℕ} → Move l (leaving v) (record l { turn = u32 (v + 1) }) outside

pub record System : Type 0 where
  pub lock : Lock
  pub pc : ℕ → Pc

abbrev pub update : (ℕ → Pc) → ℕ → Pc → ℕ → Pc
update f i p j = if i == j then p else f j

pub data Step (n : ℕ) (s : System) : System → Type 0 where
  pick :
      (i : ℕ) {l : Lock} {p : Pc}
      → i < n
      → Move s.lock (s.pc i) l p
      → Step n s (record { lock = l; pc = update s.pc i p })

abbrev pub start : System
start = record { lock = init; pc = λ _. outside }

pub data Reach (n : ℕ) : System → Type 0 where
  begin : Reach n start
  later : {s t : System} → Reach n s → Step n s t → Reach n t

-- Between the return of `lock` and the write of `unlock`.
abbrev pub critical : Pc → Bool
critical outside = false
critical (waiting _) = false
critical inside = true
critical (leaving _) = true
