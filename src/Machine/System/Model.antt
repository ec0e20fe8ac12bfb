-- ===== src/Machine/System/Model.antt =====
-- APICSystem::getCPUModel: the name of a processor from its family and its model.
use Prim.Native.String.{String}
use mpstu_bs.Prelude.{
  ℕ, zero, suc, ◌<◌, ◌≡◌, refl, inl, inr, ◌&&◌, ◌||◌, Option, none, some, List, [], ◌∷◌, ltb, ◌==◌,
  if◌then◌else◌, length, arith, Bool-cases,
}
use mpstu_bs.Machine.MpTable.{Detection}

abbrev pub model_defs : List String
model_defs =
    "80486DX" ∷ "80486DX" ∷ "80486SX" ∷ "80486DX/2 or 80487" ∷ "80486SL" ∷ "Intel5X2(tm)"
    ∷ "Unknown" ∷ "Unknown" ∷ "80486DX/4" ∷ []

-- `model_defs[model]`; `none` is a read behind the table.
abbrev pub def_at : List String → ℕ → Option String
def_at [] model = none
def_at (x ∷ xs) zero = some x
def_at (x ∷ xs) (suc model) = def_at xs model

-- `case 0x6`
unfoldable pub p6_family : ℕ → String
p6_family model =
    if model == 0x01
    then "Pentium Pro"
    else if model == 0x03
    then "Pentium II (model 3)"
    else if model == 0x05
    then "Pentium II (model 5) or Celeron"
    else if model == 0x06
    then "Mobile Pentium II or Celeron"
    else if model == 0x07
    then "Pentium III (model 7)"
    else if model == 0x08
    then "Pentium III (model 8) or Celeron"
    else if (model == 0x15) || (model == 0x0d) || (model == 0x09)
    then "Pentium M"
    else if model == 0x0a
    then "Pentium III Xeon (model A)"
    else if model == 0x0b
    then "Mobile Pentium III or Celeron"
    else if model == 0x0e
    then "Core (Yonah)"
    else if (model == 0x16) || (model == 0x17) || (model == 0x0f) || (model == 0x1d)
    then "Core 2"
    else if (model == 0x1e) || (model == 0x1f) || (model == 0x1a) || (model == 0x2e)
    then "Core-i (Nehalm)"
    else if (model == 0x2a) || (model == 0x2d)
    then "Core-i (Sandy Bridge)"
    else if (model == 0x25) || (model == 0x2c) || (model == 0x2f)
    then "Core-i (Westmere)"
    else if (model == 0x3e) || (model == 0x3a)
    then "Core-i (Ivy Bridge)"
    else if (model == 0x3c) || (model == 0x3f) || (model == 0x45) || (model == 0x46)
    then "Core-i (Haswell)"
    else if model == 0x3d
    then "Core-i (Broadwell)"
    else if model == 0x4a
    then "Intel Edison"
    else if (model == 0x1c)
        || (model == 0x26)
        || (model == 0x27)
        || (model == 0x35)
        || (model == 0x5a)
        || (model == 0x5d)
        || (model == 0x36)
    then "Atom"
    else if (model == 0x37) || (model == 0x4d)
    then "Atom or Pentium or Celeron"
    else "P6 family"

-- `getCPUModel`
unfoldable pub get_cpu_model : ℕ → Detection → Option String
get_cpu_model cpu d =
    let family = d.cpu_family cpu in
    let model = d.cpu_model cpu in
    if (family == 0x04) && ltb model 9
    then def_at model_defs model
    else if family == 0x5
    then some (if (model == 4) || (model == 8) then "Pentium with MMX technology" else "Pentium")
    else if family == 0x6
    then some (p6_family model)
    else if family == 0x0f
    then some (
        if (model == 0x03) || (model == 0x04)
        then "Pentium 4/Xeon"
        else if model == 0x06
        then "Pentium 4"
        else if model == 0x0f
        then "Special controller"
        else "Unknown Intel CPU")
    else some "Unknown CPU"

def_at-some :
    (defs : List String) (model : ℕ)
    → model < length defs
    → (name : String) × (def_at defs model ≡ some name)
def_at-some [] model h = absurd (omega arith)
def_at-some (x ∷ xs) zero h = (x, refl)
def_at-some (x ∷ xs) (suc model) h = def_at-some xs model (omega arith)

-- Every processor has a name: the table is never read behind its end.
pub get_cpu_model-some :
    (cpu : ℕ) (d : Detection) → (name : String) × (get_cpu_model cpu d ≡ some name)
unfolding get_cpu_model
get_cpu_model-some cpu d =
    elim (Bool-cases ((d.cpu_family cpu == 0x04) && ltb (d.cpu_model cpu) 9)) [
      | inl old ↦
          let (name, e) = def_at-some model_defs (d.cpu_model cpu) (ground arith) in
          rw (old, e) (name, refl)
      | inr other ↦ rw other (elim (Bool-cases (d.cpu_family cpu == 0x5)) [
        | inl five ↦ rw five (_, refl)
        | inr not_five ↦ rw not_five (elim (Bool-cases (d.cpu_family cpu == 0x6)) [
          | inl six ↦ rw six (_, refl)
          | inr not_six ↦ rw not_six (elim (Bool-cases (d.cpu_family cpu == 0x0f)) [
            | inl last ↦ rw last (_, refl)
            | inr unknown ↦ rw unknown (_, refl)
          ])
        ])
      ])
    ]
