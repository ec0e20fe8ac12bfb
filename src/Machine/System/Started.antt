-- ===== src/Machine/System/Started.antt =====
-- What APICSystem::bootCPU sends, and its answer.
use mpstu_bs.Prelude.{
  ℕ, zero, suc, ◌+◌, ◌/◌, ◌%◌, ◌^◌, ◌<◌, ◌≡◌, refl, ap, ◌∙◌, inl, inr, Bool, true, false, some,
  List, [], ◌∷◌, ◌==◌, ◌&&◌, not, ltb, leb, has, take, if◌then◌else◌, arith, Bool-cases,
}
use mpstu_bs.Machine.Lapic.{send_ipi, Lapic, icrl_reg, icrh_reg, idle, is_external_apic}
use mpstu_bs.Machine.System.Boot.{icr_word, Boot, startable, wait_callin, boot_cpu}
use mpstu_bs.Machine.Lapic.Ipi.{send_ipi_lem}
use mpstu_bs.Machine.System.Start.{boot_cpu_lem, ver-external}
use mpstu_bs.Machine.System.Message.{
  Message, message, init_message, startup_message, init-message, startup-message,
}

-- The processor calls in exactly when one of the answers read in time is -1.
wait_callin-has : (k : ℕ) (answers : List ℕ) → wait_callin k answers ≡ has 255 (take k answers)
unfolding wait_callin
wait_callin-has zero answers = refl
wait_callin-has (suc k) [] = refl
wait_callin-has (suc k) (x ∷ xs) = elim (Bool-cases (x == 255)) [
  | inl h ↦ rw (h, wait_callin) (ground arith)
  | inr h ↦ rw (h, wait_callin) (wait_callin-has k xs ∙ ground arith)
]

-- The writes `after` are those `before` and the two words of each message, the latest first.
abbrev pub Sent : List Message → List (ℕ × ℕ) → List (ℕ × ℕ) → Type 0
Sent [] before after = after ≡ before
Sent (m ∷ ms) before after =
    (high : ℕ) × (low : ℕ) × (earlier : List (ℕ × ℕ)) × (after
      ≡ (icrl_reg, low) ∷ (icrh_reg, high) ∷ earlier)
    × (message high low ≡ m)
    × Sent ms before earlier

-- A page of the first megabyte that is not reserved.
abbrev pub nameable : ℕ → Bool
nameable start_eip =
    (start_eip % 0x1000 == 0)
    && ltb start_eip 0x100000
    && not (leb 0xa0000 start_eip && ltb start_eip 0xc0000)

startable-nameable : (start_eip : ℕ) → startable start_eip ≡ nameable start_eip
startable-nameable start_eip = ground arith

-- The messages to the processor, the latest first.
abbrev pub messages : Bool → Bool → ℕ → ℕ → List Message
messages named external id start_eip =
    if not named
    then []
    else if external
    then init_message id 0 ∷ init_message id 1 ∷ []
    else startup_message id start_eip ∷ init_message id 0 ∷ init_message id 1 ∷ []

boot_cpu-unnamed :
    (cpu_id id start_eip g1 g2 : ℕ) (answers : List ℕ) (b : Boot)
    → startable start_eip ≡ false
    → boot_cpu cpu_id id start_eip g1 g2 answers b ≡ some (false, b)
unfolding boot_cpu
boot_cpu-unnamed cpu_id id start_eip g1 g2 answers b bad = rw bad refl

boot_cpu-external :
    (cpu_id id start_eip g1 g2 : ℕ) (answers : List ℕ) (b : Boot) (l1 l2 : Lapic)
    → startable start_eip ≡ true
    → send_ipi id (icr_word 5 0 1 1 0 g1) b.lapic ≡ some l1
    → send_ipi id (icr_word 5 0 0 1 0 g1) l1 ≡ some l2
    → is_external_apic l2 ≡ true
    → (b' : Boot) × (boot_cpu cpu_id id start_eip g1 g2 answers b ≡ some (false, b'))
      × (b'.online ≡ b.online)
      × (b'.lapic ≡ l2)
unfolding boot_cpu
boot_cpu-external cpu_id id start_eip g1 g2 answers b l1 l2 ok s1 s2 outside =
    rw ok (rw (s1, boot_cpu) (rw (s2, boot_cpu) (rw (outside, boot_cpu) (_, refl, refl, refl))))

module _ (cpu_id id start_eip g1 g2 v1 v2 v3 v4 : ℕ) (rest answers : List ℕ) (b : Boot)
    (small : id < 2 ^ 8) (pending : b.lapic.commands ≡ v1 ∷ v2 ∷ v3 ∷ v4 ∷ rest)
    (i1 : idle v1 ≡ true) (i2 : idle v2 ≡ true) (i3 : idle v3 ≡ true) (i4 : idle v4 ≡ true) where
  -- How `bootCPU` ends, by whether the address can be named and the local APIC is external.
  abbrev pub Tried : Bool → Bool → Type 0
  Tried named external =
      let answer = named && not external && has 255 (take 500 answers) in
      (b' : Boot) × (boot_cpu cpu_id id start_eip g1 g2 answers b ≡ some (answer, b'))
      × (b'.online ≡ (if answer then b.online + 1 else b.online))
      × Sent (messages named external id start_eip) b.lapic.written b'.lapic.written

  tried :
      (named external : Bool)
      → startable start_eip ≡ named
      → is_external_apic b.lapic ≡ external
      → Tried named external
  tried false external n e = (b, boot_cpu-unnamed cpu_id id start_eip g1 g2 answers b n, refl, refl)
  tried true true n e =
      let (l1, s1, d1, k1, ver1, low1, log1, c1) =
        send_ipi_lem id (icr_word 5 0 1 1 0 g1) v1 [] (v2 ∷ v3 ∷ v4 ∷ rest) b.lapic pending tt i1
          small in
      let (l2, s2, d2, k2, ver2, low2, log2, c2) =
        send_ipi_lem id (icr_word 5 0 0 1 0 g1) v2 [] (v3 ∷ v4 ∷ rest) l1 c1 tt i2 small in
      let outside : is_external_apic l2 ≡ true = ver-external b.lapic l2 (ver2 ∙ ver1) ∙ e in
      let (b', run, counted, left) =
        boot_cpu-external cpu_id id start_eip g1 g2 answers b l1 l2 n s1 s2 outside in
      (
        b',
        run,
        counted,
        (
          l2.regs icrh_reg,
          icr_word 5 0 0 1 0 g1,
          l1.written,
          ap (λ (l : Lapic). l.written) left ∙ log2,
          init-message (l2.regs icrh_reg) id 0 g1 d2 (omega arith),
          (
            l1.regs icrh_reg,
            icr_word 5 0 1 1 0 g1,
            b.lapic.written,
            log1,
            init-message (l1.regs icrh_reg) id 1 g1 d1 (omega arith),
            refl,
          ),
        ),
      )
  tried true false n e =
      let (b', h1, h2, h3, run, counted, log, d1, d2, d3) =
        boot_cpu_lem cpu_id id start_eip g1 g2 v1 v2 v3 v4 rest answers b n e small pending i1 i2 i3
          i4 in
      let called = wait_callin-has 500 answers in
      (
        b',
        run ∙ ap (λ a. some (a, b')) called,
        counted ∙ ap (λ (a : Bool). if a then b.online + 1 else b.online) called,
        (
          h3,
          icr_word 6 0 0 0 (start_eip / 2 ^ 12) g2,
          _,
          log,
          startup-message h3 id start_eip g2 d3,
          (
            h2,
            icr_word 5 0 0 1 0 g1,
            _,
            refl,
            init-message h2 id 0 g1 d2 (omega arith),
            (h1, icr_word 5 0 1 1 0 g1, _, refl, init-message h1 id 1 g1 d1 (omega arith), refl),
          ),
        ),
      )

-- When each read finds no message pending, `bootCPU` with any start address: it sends nothing and
-- answers false when the address is not that of a page of the first megabyte outside the reserved
-- ones; otherwise, as a local APIC reads the words, INIT asserted and INIT deasserted to the
-- processor, and then, unless the local APIC is external, one STARTUP with the page. It answers true, and counts the
-- processor, exactly when STARTUP was sent and -1 is among the first 500 values read back.
pub boot_cpu-Tried :
    (cpu_id id start_eip g1 g2 v1 v2 v3 v4 : ℕ) (rest answers : List ℕ) (b : Boot)
    → id < 2 ^ 8
    → b.lapic.commands ≡ v1 ∷ v2 ∷ v3 ∷ v4 ∷ rest
    → idle v1 ≡ true
    → idle v2 ≡ true
    → idle v3 ≡ true
    → idle v4 ≡ true
    → let named = nameable start_eip in
      let external = is_external_apic b.lapic in
      let answer = named && not external && has 255 (take 500 answers) in
      (b' : Boot) × (boot_cpu cpu_id id start_eip g1 g2 answers b ≡ some (answer, b'))
      × (b'.online ≡ (if answer then b.online + 1 else b.online))
      × Sent (messages named external id start_eip) b.lapic.written b'.lapic.written
boot_cpu-Tried cpu_id id start_eip g1 g2 v1 v2 v3 v4 rest answers b small pending i1 i2 i3 i4 =
    tried cpu_id id start_eip g1 g2 v1 v2 v3 v4 rest answers b small pending i1 i2 i3 i4
      (nameable start_eip) (is_external_apic b.lapic) (startable-nameable start_eip) refl
