-- ===== src/Machine/Lapic/Ipi.antt =====
-- Messages between processors, and the measured frequency.
use mpstu_bs.Prelude.{
  ℕ, ◌+◌, ◌-◌, ◌*◌, ◌/◌, ◌%◌, ◌^◌, ◌≤◌, ◌<◌, ◌≡◌, refl, ap, ◌∙◌, true, false, some, List, [], ◌∷◌,
  ◌++◌, ◌==◌, bit_and, arith,
}
use mpstu_bs.Prelude.Fields.{get_field}
use mpstu_bs.Utils.Math.{u64}
use mpstu_bs.Utils.Math.Division.{div64_lem}
use mpstu_bs.Machine.Lapic.{
  Lapic, icrl_reg, icrh_reg, lapicver_reg, write, idle, wait_delivered, send_ipi, wait_gate,
  measure, write_timer, timer_ticks,
}

abbrev pub AllPending : List ℕ → Type 0
AllPending [] = Unit
AllPending (v ∷ vs) = (idle v ≡ false) × AllPending vs

pub wait_delivered-AllPending :
    (pending : List ℕ) (v : ℕ) (rest : List ℕ)
    → AllPending pending
    → idle v ≡ true
    → wait_delivered (pending ++ v ∷ rest) ≡ some rest
unfolding wait_delivered
wait_delivered-AllPending [] v rest b f = rw (f, wait_delivered) refl
wait_delivered-AllPending (p ∷ ps) v rest b f =
    rw (b.0, wait_delivered) (wait_delivered-AllPending ps v rest b.1 f)

-- However long the last message is pending, `send_ipi` ends: it writes the destination, then the
-- command as it is, and nothing else, and the register keeps its other bits.
pub send_ipi_lem :
    (destination command v : ℕ) (pending rest : List ℕ) (l : Lapic)
    → l.commands ≡ pending ++ v ∷ rest
    → AllPending pending
    → idle v ≡ true
    → destination < 2 ^ 8
    → (l' : Lapic) × (send_ipi destination command l ≡ some l')
      × (get_field 24 8 (l'.regs icrh_reg) ≡ destination)
      × (l'.regs icrh_reg % 2 ^ 24 ≡ l.regs icrh_reg % 2 ^ 24)
      × (l'.regs lapicver_reg ≡ l.regs lapicver_reg)
      × (l'.regs icrl_reg ≡ command)
      × (l'.written ≡ (icrl_reg, command) ∷ (icrh_reg, l'.regs icrh_reg) ∷ l.written)
      × (l'.commands ≡ rest)
unfolding send_ipi write
send_ipi_lem destination command v pending rest l e b f small =
    let ended : wait_delivered l.commands ≡ some rest =
      ap wait_delivered e ∙ wait_delivered-AllPending pending v rest b f in
    rw (ended, send_ipi) (_, refl, omega arith, omega arith, refl, refl, refl, refl)

abbrev pub Waiting : List ℕ → Type 0
Waiting [] = Unit
Waiting (v ∷ vs) = (bit_and v 0x20 ≡ 0) × Waiting vs

wait_gate-Waiting :
    (waiting : List ℕ) (v : ℕ) (rest : List ℕ)
    → Waiting waiting
    → (bit_and v 0x20 == 0) ≡ false
    → wait_gate (waiting ++ v ∷ rest) ≡ some rest
unfolding wait_gate
wait_gate-Waiting [] v rest w f = rw (f, wait_gate) refl
wait_gate-Waiting (x ∷ xs) v rest w f =
    let still : (bit_and x 0x20 == 0) ≡ true = rw w.0 refl in
    rw (still, wait_gate) (wait_gate-Waiting xs v rest w.1 f)

-- However long the interval timer runs, `timer_ticks` ends: from a counter that falls from one
-- reading to the next it gives the ticks of a millisecond, the difference times `10 ^ 6` by the
-- 838 nanoseconds of each of the 65535 steps, without overflow.
pub timer_ticks_lem :
    (first second v : ℕ) (waiting gates counts : List ℕ) (l : Lapic)
    → l.counts ≡ first ∷ second ∷ counts
    → l.gates ≡ waiting ++ v ∷ gates
    → Waiting waiting
    → (bit_and v 0x20 == 0) ≡ false
    → second ≤ first
    → first < 2 ^ 32
    → (l' : Lapic) × (timer_ticks l ≡ some ((first - second) * 1000000 / 54918330, l'))
      × (l'.counts ≡ counts)
      × (l'.gates ≡ gates)
unfolding timer_ticks measure write_timer write
timer_ticks_lem first second v waiting gates counts l ec eg w f le lt =
    let ended : wait_gate l.gates ≡ some gates =
      ap wait_gate eg ∙ wait_gate-Waiting waiting v gates w f in
    let diff : (first + 2 ^ 32 - second) % 2 ^ 32 ≡ first - second = omega arith in
    let measured : measure l.counts l.gates ≡ some (first - second, counts, gates) =
      ap (λ cs. measure cs l.gates) ec ∙ rw (ended, measure, diff) refl in
    let num : u64 ((first - second) * 1000 * 1000) ≡ (first - second) * 1000000 = omega arith in
    let divided =
      div64_lem ((first - second) * 1000000) 54918330 (omega arith) (omega arith) (omega arith) in
    let fits : ((first - second) * 1000000 / 54918330) % 2 ^ 32
        ≡ (first - second) * 1000000 / 54918330 =
      omega arith in
    rw (measured, timer_ticks) (rw num (rw (divided, timer_ticks) (rw fits (_, refl, refl, refl))))
