-- ===== src/Machine/Acpi/Madt.antt =====
-- The loop of `queryACPI` over the structures of a MADT: which processors it registers.
use mpstu_bs.Prelude.{
  ℕ, zero, suc, ◌+◌, ◌%◌, ◌<◌, ◌≡◌, refl, ◌⊎◌, inl, inr, true, false, not, ◌&&◌, List, [], ◌∷◌,
  ◌++◌, ltb, ◌==◌, append_assoc, append-nil, arith, Bool-cases,
}
use mpstu_bs.Machine.SystemConfig.{Memory, u32_at, SystemConfig}
use mpstu_bs.Machine.Acpi.{Parse, overrun, parsed, parse_loop, parse_madt}
use mpstu_bs.Machine.Acpi.Register.{
  Walk, ids, any_behind, Registered, structure-Registered, over, no_length, next,
}

ids-cons : (m : Memory) (e : ℕ) (es : List ℕ) → ids m (e ∷ es) ≡ ids m (e ∷ []) ++ ids m es
ids-cons m e es = elim (Bool-cases ((m e == 0) && not (m (e + 4) % 2 == 0))) [
  | inl on ↦ rw on refl
  | inr off ↦ rw off refl
]

-- Every table has an end.
Walk-exists :
    (k : ℕ) (m : Memory) (entry end : ℕ) → end < entry + k → (es : List ℕ) × Walk m end entry es
Walk-exists zero m entry end f = ([], over (omega arith))
Walk-exists (suc k) m entry end f = elim (Bool-cases (ltb entry end)) [
  | inr past ↦ ([], over (ground arith))
  | inl more ↦ elim (Bool-cases (m (entry + 1) == 0)) [
    | inl none_left ↦ ([], no_length (ground arith) (ground arith))
    | inr length_given ↦
        let (es, w) = Walk-exists k m (entry + m (entry + 1)) end (ground arith) in
        (entry ∷ es, next (ground arith) (ground arith) w)
  ]
]

-- The loop, from the processors `xs` on.
parse_loop-Registered :
    (k : ℕ) (m : Memory) (entry end bsp : ℕ) (xs : List ℕ) (p : Parse)
    → end < entry + k
    → 0 < k
    → Registered bsp xs p
    → (es : List ℕ) × Walk m end entry es
      × (((parse_loop m k entry end p ≡ overrun) × (any_behind m es ≡ true))
          ⊎ ((p' : Parse) × (parse_loop m k entry end p ≡ parsed p')
              × (any_behind m es ≡ false)
              × Registered bsp (xs ++ ids m es) p'))
unfolding parse_loop
parse_loop-Registered zero m entry end bsp xs p f pos r = absurd (omega arith)
parse_loop-Registered (suc k) m entry end bsp xs p f pos r = elim (Bool-cases (ltb entry end)) [
  | inr past ↦ ([], over (ground arith), inr (p, rw past refl, refl, rw (append-nil xs) r))
  | inl more ↦ elim (Bool-cases (m (entry + 1) == 0)) [
    | inl none_left ↦ (
      [],
      no_length (ground arith) (ground arith),
      inr (p, rw (more, none_left) refl, refl, rw (append-nil xs) r),
    )
    | inr length_given ↦
        let more_lt : entry < end = ground arith in
        let given : 0 < m (entry + 1) = ground arith in
        elim (structure-Registered m entry bsp xs p r) [
          | inl (e, behind) ↦
              let (es, w) = Walk-exists k m (entry + m (entry + 1)) end (omega arith) in
              (
                entry ∷ es,
                next more_lt given w,
                inl (rw (more, length_given) (rw (e, parse_loop) refl), rw behind refl),
              )
          | inr (p', e, quiet, r') ↦
              let (es, w, out) =
                parse_loop-Registered k m (entry + m (entry + 1)) end bsp (xs ++ ids m (entry ∷ []))
                  p' (omega arith) (omega arith) r' in
              (
                entry ∷ es,
                next more_lt given w,
                elim out [
                  | inl (e', behind) ↦
                      inl (rw (more, length_given) (rw (e, parse_loop) e'), rw quiet behind)
                  | inr (q, e', calm, s) ↦ inr (
                    q,
                    rw (more, length_given) (rw (e, parse_loop) e'),
                    rw quiet calm,
                    rw (ids-cons m entry es, ← append_assoc xs (ids m (entry ∷ [])) (ids m es)) s,
                  )
                ],
              )
        ]
  ]
]

-- `parse_madt` ends. It meets the structures of the table in turn and registers, from a configuration
-- without processors, the first eight enabled local APICs in this order, the first as the boot
-- processor; it writes behind `ioapic_irqs` exactly when one of them redirects an interrupt of the
-- ISA bus to a number from 24 on.
pub parse_madt-Registered :
    (m : Memory) (madt : ℕ) (conf : SystemConfig)
    → conf.cpu_count ≡ 0
    → (es : List ℕ) × Walk m (madt + u32_at m (madt + 4)) (madt + 44) es
      × (((parse_madt m madt conf ≡ overrun) × (any_behind m es ≡ true))
          ⊎ ((p : Parse) × (parse_madt m madt conf ≡ parsed p)
              × (any_behind m es ≡ false)
              × Registered conf.bsp_id (ids m es) p))
unfolding parse_madt
parse_madt-Registered m madt conf none_yet =
    parse_loop-Registered (u32_at m (madt + 4) + 1) m (madt + 44) (madt + u32_at m (madt + 4))
      conf.bsp_id [] _ (omega arith) (omega arith)
      (elim (Bool-cases (m (madt + 40) % 2 == 1)) [
        | inl pics ↦ rw pics record { count = none_yet; stored = tt; boot = refl; known = refl }
        | inr no_pics ↦
            rw no_pics record { count = none_yet; stored = tt; boot = refl; known = refl }
      ])
