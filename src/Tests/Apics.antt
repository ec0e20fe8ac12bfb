-- ===== src/Tests/Apics.antt =====
-- machine/ioapic.cc and machine/lapic.cc at concrete inputs.
use mpstu_bs.Prelude.{
  ◌-◌, ◌*◌, ◌/◌, ◌%◌, ◌^◌, ◌≡◌, refl, some, List, [], ◌∷◌, ltb, ◌==◌, if◌then◌else◌, arith,
}
use mpstu_bs.Prelude.Fields.{get_field}
use mpstu_bs.Machine.Ioapic.{Ioapic, init, status}
use mpstu_bs.Machine.Ioapic.Table.{
  Call, redirect, unmask, remask, entry, call_all, meaning_all, status-call_all,
}
use mpstu_bs.Machine.Ioapic.Init.{reset_entry, init-entry}
use mpstu_bs.Machine.Lapic.{Lapic, timer_ticks}
use mpstu_bs.Machine.Lapic.Ipi.{timer_ticks_lem}

abbrev powered_on : Ioapic
powered_on = record { regs = λ i. 0x10000; ioregsel = 0 }

-- The keyboard at slot 1, allowed after its configuration, and slot 2, forbidden.
abbrev calls : List Call
calls = remask 2 ∷ unmask 1 ∷ redirect 1 33 ∷ []

status-call_all_example :
    (entry (call_all calls powered_on) 1
      ≡ record (entry powered_on 1) { low = meaning_all calls 1 (entry powered_on 1).low })
    × ((status 1 (call_all calls powered_on)).0
        ≡ ((meaning_all calls 1 (entry powered_on 1).low).mask == 0))
    × ((status 1 (call_all calls powered_on)).1.regs ≡ (call_all calls powered_on).regs)
status-call_all_example = status-call_all calls 1 powered_on

init-entry_example :
    (entry (init 5 4 powered_on) 3
      ≡ (if ltb 3 24 then reset_entry 4 (entry powered_on 3) else entry powered_on 3))
    × (get_field 24 4 ((init 5 4 powered_on).regs 0) ≡ 5 % 2 ^ 4)
init-entry_example = init-entry 5 4 3 powered_on (omega arith)

-- The counter falls by a million while the interval timer is read three times.
abbrev timed : Lapic
timed = record {
  regs = λ r. 0;
  commands = [];
  counts = 4000000000 ∷ 3999000000 ∷ [];
  gates = 0 ∷ 0x10 ∷ 0x20 ∷ [];
  written = [];
  sent = [];
}

timer_ticks_lem_example :
    (l' : Lapic) × (timer_ticks timed ≡ some ((4000000000 - 3999000000) * 1000000 / 54918330, l'))
    × (l'.counts ≡ [])
    × (l'.gates ≡ [])
timer_ticks_lem_example =
    timer_ticks_lem 4000000000 3999000000 0x20 (0 ∷ 0x10 ∷ []) [] [] timed refl refl
      (refl, (refl, tt)) refl (omega arith) (omega arith)
