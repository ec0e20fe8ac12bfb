-- ===== src/Machine/MpTable/Search.antt =====
-- APICSystem::searchConfig: which structure of an area it uses.
use mpstu_bs.Prelude.{
  ℕ, zero, suc, ◌+◌, ◌*◌, ◌/◌, ◌<◌, ◌≡◌, refl, sym, ap, ◌∙◌, ◌⊎◌, inl, inr, Bool, true, false,
  Option, none, some, ltb, arith, Bool-cases, Option-cases,
}
use mpstu_bs.Machine.SystemConfig.{Memory}
use mpstu_bs.Machine.MpTable.{Detection, is_mpfps, use_mpfps, search_loop, search_config}

-- None of the first k places from bp on has a valid structure.
abbrev pub NoStructure : Memory → ℕ → ℕ → Type 0
NoStructure m zero bp = Unit {0}
NoStructure m (suc k) bp = (is_mpfps m bp ≡ false) × NoStructure m k (bp + 16)

-- What `searchConfig` returns when it used a structure.
pub outcome : Option Detection → Option (Bool × Detection)
outcome none = none
outcome (some d) = some (ltb 1 d.conf.cpu_count, d)

search_loop-hit :
    (m : Memory) (fuel k bp : ℕ) (d : Detection)
    → is_mpfps m bp ≡ true
    → search_loop m fuel (suc k) bp d ≡ outcome (use_mpfps m fuel bp d)
unfolding search_loop outcome
search_loop-hit m fuel k bp d hit = elim (Option-cases (use_mpfps m fuel bp d)) [
  | inl e ↦ rw (hit, search_loop, e) refl
  | inr (d', e) ↦ rw (hit, search_loop, e) refl
]

search_loop-miss :
    (m : Memory) (fuel k bp : ℕ) (d : Detection)
    → is_mpfps m bp ≡ false
    → search_loop m fuel (suc k) bp d ≡ search_loop m fuel k (bp + 16) d
unfolding search_loop
search_loop-miss m fuel k bp d miss = rw (miss, search_loop) refl

search_loop-none :
    (k : ℕ) (m : Memory) (fuel bp : ℕ) (d : Detection)
    → NoStructure m k bp
    → search_loop m fuel k bp d ≡ some (false, d)
unfolding search_loop
search_loop-none zero m fuel bp d n = refl
search_loop-none (suc k) m fuel bp d n =
    search_loop-miss m fuel k bp d n.0 ∙ search_loop-none k m fuel (bp + 16) d n.1

search_loop_lem :
    (k : ℕ) (m : Memory) (fuel bp : ℕ) (d : Detection)
    → ((j : ℕ) × (j < k)
        × NoStructure m j bp
        × (is_mpfps m (bp + j * 16) ≡ true)
        × (search_loop m fuel k bp d ≡ outcome (use_mpfps m fuel (bp + j * 16) d)))
      ⊎ (NoStructure m k bp × (search_loop m fuel k bp d ≡ some (false, d)))
unfolding search_loop
search_loop_lem zero m fuel bp d = inr (tt, refl)
search_loop_lem (suc k) m fuel bp d = elim (Bool-cases (is_mpfps m bp)) [
  | inl hit ↦
      let here : bp + 0 * 16 ≡ bp = omega arith in
      inl (0, omega arith, tt, rw here hit, rw here (search_loop-hit m fuel k bp d hit))
  | inr miss ↦ elim (search_loop_lem k m fuel (bp + 16) d) [
    | inl (j, lt, before, hit, e) ↦
        let there : bp + 16 + j * 16 ≡ bp + suc j * 16 = omega arith in
        inl (
          suc j,
          omega arith,
          (miss, before),
          ap (is_mpfps m) (sym there) ∙ hit,
          search_loop-miss m fuel k bp d miss ∙ e ∙ ap (λ a. outcome (use_mpfps m fuel a d)) there,
        )
    | inr (before, e) ↦ inr ((miss, before), search_loop-miss m fuel k bp d miss ∙ e)
  ]
]

-- `searchConfig` goes through the area in steps of 16 bytes, from the boundary at or below its start.
-- If a place has a valid structure, the first such structure alone is used, and the search succeeds
-- exactly if more than one processor is counted then; without one the search fails and changes nothing.
pub search_config-first :
    (m : Memory) (fuel base length : ℕ) (d : Detection)
    → let start = base / 16 * 16 in
      ((j : ℕ) × (j < length / 16)
        × NoStructure m j start
        × (is_mpfps m (start + j * 16) ≡ true)
        × (search_config m fuel base length d ≡ outcome (use_mpfps m fuel (start + j * 16) d)))
      ⊎ (NoStructure m (length / 16) start × (search_config m fuel base length d ≡ some (false, d)))
unfolding search_config
search_config-first m fuel base length d = search_loop_lem (length / 16) m fuel (base / 16 * 16) d

pub search_config-none :
    (m : Memory) (fuel base length : ℕ) (d : Detection)
    → NoStructure m (length / 16) (base / 16 * 16)
    → search_config m fuel base length d ≡ some (false, d)
unfolding search_config
search_config-none m fuel base length d n =
    search_loop-none (length / 16) m fuel (base / 16 * 16) d n
