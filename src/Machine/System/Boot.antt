-- ===== src/Machine/System/Boot.antt =====
-- machine/apicsystem.cc: the start of the application processors, and messages between processors.
use mpstu_bs.Prelude.{
  ℕ, zero, suc, ◌+◌, ◌/◌, ◌%◌, ◌^◌, Bool, true, false, not, ◌&&◌, ◌||◌, Option, none, some, List,
  [], ◌∷◌, leb, ◌==◌, if◌then◌else◌,
}
use mpstu_bs.Prelude.Fields.{set_field}
use mpstu_bs.Machine.SystemConfig.{put_at}
use mpstu_bs.Machine.System.{SystemType, undetected}
use mpstu_bs.Machine.Lapic.{
  Lapic, init, set_logical_lapic_id, get_lapic_id, send_ipi, is_ipi_delivered, is_external_apic,
}

-- The members of `ICR_L`, assigned to a word that holds `garbage`.
abbrev pub icr_word : ℕ → ℕ → ℕ → ℕ → ℕ → ℕ → ℕ
icr_word delivery_mode destination_mode level trigger_mode vector garbage = set_field 18 2 0 (
    set_field 15 1 trigger_mode (
      set_field 14 1 level (
        set_field 12 1 0 (
          set_field 11 1 destination_mode
            (set_field 8 3 delivery_mode (set_field 0 8 vector garbage))))))

-- What a call of `bootCPU` changes: the local APIC, the number of processors that run, the writes to
-- ports and to the words of the BIOS, and `callout_cpu_number`, whose -1 is 255. The writes stand
-- with the latest first.
pub record Boot : Type 0 where
  pub lapic : Lapic
  pub online : ℕ
  pub ports : List (ℕ × ℕ)
  pub words : List (ℕ × ℕ)
  pub callout : ℕ

-- `start_eip` is an address that a STARTUP message can name.
abbrev pub startable : ℕ → Bool
startable start_eip =
    let vector = start_eip / 2 ^ 12 % 2 ^ 8 in
    (start_eip % 2 ^ 12 == 0)
    && (start_eip / 2 ^ 20 == 0)
    && not (leb 0xa0 vector && leb vector 0xbf)

-- The `do … while` that polls for the delivery, at most `k + 1` times.
unfoldable pub poll_delivered : ℕ → Lapic → Option (Bool × Lapic)
poll_delivered zero l = is_ipi_delivered l
poll_delivered (suc k) l = elim (is_ipi_delivered l) [
  | none ↦ none
  | some (true, l') ↦ some (true, l')
  | some (false, l') ↦ poll_delivered k l'
]

-- The loop that sends STARTUP messages, `k` at most.
unfoldable pub startup_loop : ℕ → ℕ → ℕ → Lapic → Option (Bool × Lapic)
startup_loop zero id command l = some (false, l)
startup_loop (suc k) id command l = elim (send_ipi id command l) [
  | none ↦ none
  | some l1 ↦ elim (poll_delivered 9 l1) [
    | none ↦ none
    | some (true, l2) ↦ some (true, l2)
    | some (false, l2) ↦ startup_loop k id command l2
  ]
]

-- The loop that waits for the callin: `answers` is what `callout_cpu_number` is read as, before it
-- stays.
unfoldable pub wait_callin : ℕ → List ℕ → Bool
wait_callin zero answers = false
wait_callin (suc k) [] = false
wait_callin (suc k) (answer ∷ answers) = elim (answer == 255) [
  | true ↦ true
  | false ↦ wait_callin k answers
]

-- `bootCPU`; `id` is the identification of the processor's local APIC, and the delays are no part of
-- the model. The result `none` is a message that is pending for ever.
unfoldable pub boot_cpu : ℕ → ℕ → ℕ → ℕ → ℕ → List ℕ → Boot → Option (Bool × Boot)
boot_cpu cpu_id id start_eip garbage garbage2 answers b =
    let b1 = record b {
      ports = (0x71, 0xa) ∷ (0x70, 0xf) ∷ b.ports;
      words = (0x467, start_eip % 2 ^ 4) ∷ (0x469, start_eip / 2 ^ 4 % 2 ^ 16) ∷ b.words;
      callout = 255;
    } in
    let assert = icr_word 5 0 1 1 0 garbage in
    let deassert = icr_word 5 0 0 1 0 garbage in
    let startup = icr_word 6 0 0 0 (start_eip / 2 ^ 12) garbage2 in
    let run : Option (Bool × Boot) = elim (send_ipi id assert b.lapic) [
      | none ↦ none
      | some l1 ↦ elim (send_ipi id deassert l1) [
        | none ↦ none
        | some l2 ↦
            elim (if is_external_apic l2 then some (false, l2) else startup_loop 2 id startup l2) [
              | none ↦ none
              | some (false, l3) ↦ some (false, record b1 { lapic = l3 })
              | some (true, l3) ↦ some (
                wait_callin 500 answers,
                record b1 {
                  lapic = l3;
                  online = if wait_callin 500 answers then b.online + 1 else b.online;
                  callout = if wait_callin 500 answers then 255 else cpu_id;
                },
              )
            ]
      ]
    ] in
    if startable start_eip then run else some (false, b)

-- The fields that `setupThisProcessor` writes, and the local APIC of the processor that runs it.
pub record Processor : Type 0 where
  pub lapic : Lapic
  pub cpu_id : ℕ → ℕ
  pub logical_lapic_id : ℕ → ℕ
  pub callout : ℕ

-- `setupThisProcessor`, once `callout_cpu_number` is not negative. The result `none` is a write behind
-- `logicalLAPICID`, which has eight entries, or behind `cpuID`, which has 255.
unfoldable pub setup_this_processor : Processor → Option Processor
setup_this_processor p =
    let id = 2 ^ p.callout % 2 ^ 8 in
    let l = set_logical_lapic_id id (init p.lapic) in
    if leb 8 p.callout || get_lapic_id l == 255
    then none
    else some (record {
      lapic = l;
      cpu_id = put_at (get_lapic_id l) p.callout p.cpu_id;
      logical_lapic_id = put_at p.callout id p.logical_lapic_id;
      callout = 255;
    })

-- `getCPUID`
unfoldable pub get_cpu_id : SystemType → Processor → ℕ
get_cpu_id undetected p = 0
get_cpu_id other p = p.cpu_id (get_lapic_id p.lapic)

-- `sendCustomIPI`; the trigger mode and the delivery status are not assigned.
unfoldable pub send_custom_ipi : ℕ → ℕ → ℕ → Lapic → Option Lapic
send_custom_ipi logical_destination vector garbage l =
    send_ipi logical_destination
      (set_field 18 2 0
        (set_field 14 1 1 (set_field 11 1 1 (set_field 8 3 0 (set_field 0 8 vector garbage)))))
      l
