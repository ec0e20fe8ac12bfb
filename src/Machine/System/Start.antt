-- ===== src/Machine/System/Start.antt =====
-- What bootCPU, setupThisProcessor and sendCustomIPI send and leave.
use mpstu_bs.Prelude.{
  ℕ, zero, suc, ◌+◌, ◌/◌, ◌%◌, ◌^◌, ◌<◌, ◌≡◌, ◌≢◌, refl, ap, ◌∙◌, Bool, true, false, Option, some,
  none, List, [], ◌∷◌, if◌then◌else◌, arith, ==_refl, ==_ne, ◌==◌, leb,
}
use mpstu_bs.Prelude.Fields.{get_field, set_field}
use mpstu_bs.Machine.SystemConfig.{put_at}
use mpstu_bs.Machine.System.{mp_apic}
use mpstu_bs.Machine.Lapic.{
  Lapic, lapicver_reg, ldr_reg, icrl_reg, icrh_reg, idle, write, init, set_logical_lapic_id,
  get_lapic_id, send_ipi, is_ipi_delivered, is_external_apic,
}
use mpstu_bs.Machine.Lapic.Ipi.{send_ipi_lem}
use mpstu_bs.Machine.Lapic.Setup.{init-Ready}
use mpstu_bs.Machine.System.Boot.{
  icr_word, Boot, startable, poll_delivered, startup_loop, wait_callin, boot_cpu, Processor,
  setup_this_processor, get_cpu_id, send_custom_ipi,
}

power : (c : ℕ) → c < 8 → 2 ^ c % 2 ^ 8 ≡ 2 ^ c
power zero h = refl
power (suc zero) h = refl
power (suc (suc zero)) h = refl
power (suc (suc (suc zero))) h = refl
power (suc (suc (suc (suc zero)))) h = refl
power (suc (suc (suc (suc (suc zero))))) h = refl
power (suc (suc (suc (suc (suc (suc zero)))))) h = refl
power (suc (suc (suc (suc (suc (suc (suc zero))))))) h = refl
power (suc (suc (suc (suc (suc (suc (suc (suc n)))))))) h = absurd (omega arith)

-- The identification of the local APIC is not written.
get_lapic_id-ready :
    (id : ℕ) (l : Lapic) → get_lapic_id (set_logical_lapic_id id (init l)) ≡ get_lapic_id l
unfolding get_lapic_id set_logical_lapic_id init write
get_lapic_id-ready id l = refl

put_at_ne : (i j x : ℕ) (f : ℕ → ℕ) → j ≢ i → put_at i x f j ≡ f j
put_at_ne i j x f ne = rw (==_ne j i ne) refl

put_at_self : (i x : ℕ) (f : ℕ → ℕ) → put_at i x f i ≡ x
put_at_self i x f = rw (==_refl i) refl

-- A processor that sets itself up, with a number below 8 and a local APIC whose identification is not
-- 255, writes inside the arrays. It is known by its number afterwards, under the identification of its
-- local APIC and under a logical one with the bit of its number, which its local APIC answers to;
-- what is known of the others stays, and the next processor may be called.
pub setup_this_processor_lem :
    (p : Processor) (other cpu : ℕ)
    → p.callout < 8
    → (get_lapic_id p.lapic == 255) ≡ false
    → other ≢ get_lapic_id p.lapic
    → cpu ≢ p.callout
    → (q : Processor) × (setup_this_processor p ≡ some q)
      × (get_cpu_id mp_apic q ≡ p.callout)
      × (q.logical_lapic_id p.callout ≡ 2 ^ p.callout)
      × (get_field 24 8 (q.lapic.regs ldr_reg) ≡ 2 ^ p.callout)
      × (q.cpu_id other ≡ p.cpu_id other)
      × (q.logical_lapic_id cpu ≡ p.logical_lapic_id cpu)
      × (q.callout ≡ 255)
unfolding setup_this_processor get_cpu_id
setup_this_processor_lem p other cpu small inside ne ne' =
    let id = 2 ^ p.callout % 2 ^ 8 in
    let byte : id ≡ 2 ^ p.callout = power p.callout small in
    let same : get_lapic_id (set_logical_lapic_id id (init p.lapic)) ≡ get_lapic_id p.lapic =
      get_lapic_id-ready id p.lapic in
    let (ready, kept) = init-Ready id 0 p.lapic (omega arith) refl in
    let fits : leb 8 p.callout ≡ false = ground arith in
    let known : (get_lapic_id (set_logical_lapic_id id (init p.lapic)) == 255) ≡ false =
      ap (λ n. n == 255) same ∙ inside in
    let l = set_logical_lapic_id id (init p.lapic) in
    (
      record {
        lapic = l;
        cpu_id = put_at (get_lapic_id l) p.callout p.cpu_id;
        logical_lapic_id = put_at p.callout id p.logical_lapic_id;
        callout = 255;
      },
      rw (fits, known) refl,
      put_at_self _ p.callout p.cpu_id,
      put_at_self p.callout id p.logical_lapic_id ∙ byte,
      ready.logical ∙ byte,
      put_at_ne _ other p.callout p.cpu_id (λ e. ne (e ∙ same)),
      put_at_ne p.callout cpu id p.logical_lapic_id ne',
      refl,
    )

-- A message between processors: whatever the unassigned members held, it goes to the logical
-- destination as an interrupt of the vector.
pub send_custom_ipi_lem :
    (destination vector garbage v : ℕ) (rest : List ℕ) (l : Lapic)
    → l.commands ≡ v ∷ rest
    → idle v ≡ true
    → destination < 2 ^ 8
    → vector < 2 ^ 8
    → (l' : Lapic) × (send_custom_ipi destination vector garbage l ≡ some l')
      × (get_field 24 8 (l'.regs icrh_reg) ≡ destination)
      × (get_field 0 8 (l'.regs icrl_reg) ≡ vector)
      × (get_field 8 3 (l'.regs icrl_reg) ≡ 0)
      × (get_field 11 1 (l'.regs icrl_reg) ≡ 1)
      × (l'.written ≡ (icrl_reg, l'.regs icrl_reg) ∷ (icrh_reg, l'.regs icrh_reg) ∷ l.written)
unfolding send_custom_ipi
send_custom_ipi_lem destination vector garbage v rest l e free small fits =
    let command =
      set_field 18 2 0
        (set_field 14 1 1 (set_field 11 1 1 (set_field 8 3 0 (set_field 0 8 vector garbage)))) in
    let (l', sent, high, kept, ver, low, log, left) =
      send_ipi_lem destination command v [] rest l e tt free small in
    let a : get_field 0 8 command ≡ vector = omega arith in
    let b : get_field 8 3 command ≡ 0 = omega arith in
    let c : get_field 11 1 command ≡ 1 = omega arith in
    (
      l',
      sent,
      high,
      ap (get_field 0 8) low ∙ a,
      ap (get_field 8 3) low ∙ b,
      ap (get_field 11 1) low ∙ c,
      rw low log,
    )

pub ver-external :
    (l l' : Lapic)
    → l'.regs lapicver_reg ≡ l.regs lapicver_reg
    → is_external_apic l' ≡ is_external_apic l
unfolding is_external_apic
ver-external l l' e = rw e refl

poll_now :
    (k v : ℕ) (rest : List ℕ) (l : Lapic)
    → l.commands ≡ v ∷ rest
    → idle v ≡ true
    → poll_delivered (suc k) l ≡ some (true, record l { commands = rest })
unfolding poll_delivered is_ipi_delivered
poll_now k v rest l e free =
    let read : is_ipi_delivered l ≡ some (true, record l { commands = rest }) =
      ap
        (λ (cs : List ℕ). elim cs as (λ x. Option (Bool × Lapic)) [
          | [] ↦ none
          | value ∷ left ↦ some (idle value, record l { commands = left })
        ])
        e
      ∙ rw free refl in
    rw (read, poll_delivered) refl

startup_now :
    (id command : ℕ) (l l1 l2 : Lapic)
    → send_ipi id command l ≡ some l1
    → poll_delivered 9 l1 ≡ some (true, l2)
    → startup_loop 2 id command l ≡ some (true, l2)
unfolding startup_loop
startup_now id command l l1 l2 s q = rw (s, startup_loop) (rw (q, startup_loop) refl)

-- The steps of `bootCPU`, put together.
boot_run :
    (cpu_id id start_eip g1 g2 : ℕ) (answers : List ℕ) (b : Boot) (l1 l2 l4 : Lapic)
    → startable start_eip ≡ true
    → send_ipi id (icr_word 5 0 1 1 0 g1) b.lapic ≡ some l1
    → send_ipi id (icr_word 5 0 0 1 0 g1) l1 ≡ some l2
    → is_external_apic l2 ≡ false
    → startup_loop 2 id (icr_word 6 0 0 0 (start_eip / 2 ^ 12) g2) l2 ≡ some (true, l4)
    → (b' : Boot) × (boot_cpu cpu_id id start_eip g1 g2 answers b
        ≡ some (wait_callin 500 answers, b'))
      × (b'.online ≡ (if wait_callin 500 answers then b.online + 1 else b.online))
      × (b'.lapic ≡ l4)
unfolding boot_cpu
boot_run cpu_id id start_eip g1 g2 answers b l1 l2 l4 ok s1 s2 inside s3 =
    rw ok
      (rw (s1, boot_cpu) (rw (s2, boot_cpu) (rw inside (rw (s3, boot_cpu) (_, refl, refl, refl)))))

-- For an address that a STARTUP message can name, a local APIC inside its processor, and messages
-- that are delivered at once, `bootCPU` sends INIT asserted, INIT deasserted and one STARTUP message
-- for the address; it reports and counts a processor exactly when that calls in within 500 rounds.
pub boot_cpu_lem :
    (cpu_id id start_eip g1 g2 v1 v2 v3 v4 : ℕ) (rest answers : List ℕ) (b : Boot)
    → startable start_eip ≡ true
    → is_external_apic b.lapic ≡ false
    → id < 2 ^ 8
    → b.lapic.commands ≡ v1 ∷ v2 ∷ v3 ∷ v4 ∷ rest
    → idle v1 ≡ true
    → idle v2 ≡ true
    → idle v3 ≡ true
    → idle v4 ≡ true
    → (b' : Boot) × (high1 : ℕ) × (high2 : ℕ) × (high3 : ℕ) × (boot_cpu cpu_id id start_eip g1 g2
          answers b
        ≡ some (wait_callin 500 answers, b'))
      × (b'.online ≡ (if wait_callin 500 answers then b.online + 1 else b.online))
      × (b'.lapic.written
          ≡ (icrl_reg, icr_word 6 0 0 0 (start_eip / 2 ^ 12) g2)
            ∷ (icrh_reg, high3)
            ∷ (icrl_reg, icr_word 5 0 0 1 0 g1)
            ∷ (icrh_reg, high2)
            ∷ (icrl_reg, icr_word 5 0 1 1 0 g1)
            ∷ (icrh_reg, high1)
            ∷ b.lapic.written)
      × (get_field 24 8 high1 ≡ id)
      × (get_field 24 8 high2 ≡ id)
      × (get_field 24 8 high3 ≡ id)
boot_cpu_lem cpu_id id start_eip g1 g2 v1 v2 v3 v4 rest answers b ok internal small e i1 i2 i3 i4 =
    let (l1, s1, d1, k1, ver1, low1, log1, c1) =
      send_ipi_lem id (icr_word 5 0 1 1 0 g1) v1 [] (v2 ∷ v3 ∷ v4 ∷ rest) b.lapic e tt i1 small in
    let (l2, s2, d2, k2, ver2, low2, log2, c2) =
      send_ipi_lem id (icr_word 5 0 0 1 0 g1) v2 [] (v3 ∷ v4 ∷ rest) l1 c1 tt i2 small in
    let (l3, s3, d3, k3, ver3, low3, log3, c3) =
      send_ipi_lem id (icr_word 6 0 0 0 (start_eip / 2 ^ 12) g2) v3 [] (v4 ∷ rest) l2 c2 tt i3
        small in
    let inside : is_external_apic l2 ≡ false = ver-external b.lapic l2 (ver2 ∙ ver1) ∙ internal in
    let (b', run, counted, left) =
      boot_run cpu_id id start_eip g1 g2 answers b l1 l2 (record l3 { commands = rest }) ok s1 s2
        inside
        (startup_now id (icr_word 6 0 0 0 (start_eip / 2 ^ 12) g2) l2 l3
          (record l3 { commands = rest }) s3 (poll_now 8 v4 rest l3 c3 i4)) in
    (
      b',
      l1.regs icrh_reg,
      l2.regs icrh_reg,
      l3.regs icrh_reg,
      run,
      counted,
      ap (λ (l : Lapic). l.written) left
          ∙ log3
          ∙ ap
              (λ w.
                (icrl_reg, icr_word 6 0 0 0 (start_eip / 2 ^ 12) g2)
                ∷ (icrh_reg, l3.regs icrh_reg)
                ∷ w)
              (log2
                ∙ ap (λ w. (icrl_reg, icr_word 5 0 0 1 0 g1) ∷ (icrh_reg, l2.regs icrh_reg) ∷ w)
                    log1),
      d1,
      d2,
      d3,
    )
