-- ===== src/Machine/Plugbox/Table.antt =====
-- The plugbox as a table: each vector reports the gate that was assigned to it last.
use mpstu_bs.Prelude.{
  ℕ, ◌≡◌, refl, inl, inr, true, false, List, [], ◌∷◌, leb, ◌==◌, if◌then◌else◌, arith, Bool-cases,
}
use mpstu_bs.Object.Queue.{Ptr, null}
use mpstu_bs.Machine.Plugbox.{Gateobjs, plugbox, assign, report}

-- The plugbox after some calls of `assign`, the latest first.
abbrev pub assign_all : Ptr → List (ℕ × Ptr) → Gateobjs
assign_all panic [] = plugbox panic
assign_all panic ((vector, gate) ∷ calls) = assign vector gate (assign_all panic calls)

-- The gate of the latest call for a vector, and `panic` where there was none.
abbrev pub latest : Ptr → List (ℕ × Ptr) → ℕ → Ptr
latest panic [] v = panic
latest panic ((vector, gate) ∷ calls) v = if v == vector then gate else latest panic calls v

report-inside :
    (panic : Ptr) (calls : List (ℕ × Ptr)) (v : ℕ)
    → leb v 255 ≡ true
    → assign_all panic calls v ≡ latest panic calls v
unfolding plugbox assign
report-inside panic [] v h = rw h refl
report-inside panic ((vector, gate) ∷ calls) v h = elim (Bool-cases (leb vector 255)) [
  | inl there ↦ rw there (elim (Bool-cases (v == vector)) [
    | inl e ↦ rw e refl
    | inr n ↦ rw n (report-inside panic calls v h)
  ])
  | inr behind ↦ rw behind (
      let differ : (v == vector) ≡ false = ground arith in
      rw differ (report-inside panic calls v h))
]

-- Whatever was assigned before, also to vectors behind the table, `report` gives the gate that was
-- assigned to a vector last and `panic` for the others, and the null pointer behind the table.
pub report-assign_all :
    (panic : Ptr) (calls : List (ℕ × Ptr)) (v : ℕ)
    → report v (assign_all panic calls) ≡ (if leb v 255 then latest panic calls v else null)
unfolding report
report-assign_all panic calls v = elim (Bool-cases (leb v 255)) [
  | inl there ↦ rw there (report-inside panic calls v there)
  | inr behind ↦ rw behind refl
]
