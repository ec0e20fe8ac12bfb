-- ===== src/Machine/Plugbox.antt =====
-- machine/plugbox.h and machine/plugbox.cc: the table of the gates, over the addresses of gates.
pub mod Table
use mpstu_bs.Prelude.{ℕ, leb, ◌==◌, if◌then◌else◌}
use mpstu_bs.Object.Queue.{Ptr, null}

-- `gateobjs`, as a function of the index.
abbrev pub Gateobjs : Type 0
Gateobjs = ℕ → Ptr

-- The constructor; an index behind the array has the null pointer here, and nothing reads it.
unfoldable pub plugbox : Ptr → Gateobjs
plugbox panic i = if leb i 255 then panic else null

unfoldable pub assign : ℕ → Ptr → Gateobjs → Gateobjs
assign vector gate gateobjs =
    if leb vector 255 then (λ i. if i == vector then gate else gateobjs i) else gateobjs

unfoldable pub report : ℕ → Gateobjs → Ptr
report vector gateobjs = if leb vector 255 then gateobjs vector else null
