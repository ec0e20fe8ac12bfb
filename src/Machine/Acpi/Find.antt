-- ===== src/Machine/Acpi/Find.antt =====
-- RSDP::find: the search ends at the first root pointer.
use mpstu_bs.Prelude.{
  ℕ, zero, suc, ◌+◌, ◌*◌, ◌/◌, ◌≤◌, ◌<◌, ◌≡◌, refl, subst, ◌⊎◌, inl, inr, true, false, ltb, arith,
  Bool-cases, ◌==◌,
}
use mpstu_bs.Machine.SystemConfig.{Memory, u32_at}
use mpstu_bs.Machine.Acpi.{is_rsdp, Found, lost, absent, found, find_loop, find_in, find}

-- There is no root pointer at the first `n` places, sixteen bytes apart.
abbrev pub NoneOf : Memory → ℕ → ℕ → Type 0
NoneOf m start zero = Unit
NoneOf m start (suc n) = NoneOf m start n × (is_rsdp m (start + 16 * n) ≡ false)

-- A search that ends: at the first root pointer below `end`, or with none up to `end`.
abbrev pub IsFirst : Memory → ℕ → ℕ → Found → Type 0
IsFirst m start end lost = ⊥
IsFirst m start end absent = (n : ℕ) × (end ≤ start + 16 * n) × NoneOf m start n
IsFirst m start end (found a) =
    (n : ℕ) × (a ≡ start + 16 * n) × (a < end) × (is_rsdp m a ≡ true) × NoneOf m start n

find_loop-IsFirst :
    (k n start end : ℕ) (m : Memory)
    → 0 < k
    → end + 16 ≤ start + 16 * n + 16 * k
    → NoneOf m start n
    → IsFirst m start end (find_loop m k (start + 16 * n) end)
unfolding find_loop
find_loop-IsFirst zero n start end m pos h none_yet = absurd (omega arith)
find_loop-IsFirst (suc k) n start end m pos h none_yet =
    elim (Bool-cases (ltb (start + 16 * n) end)) [
      | inr over ↦ rw over (n, ground arith, none_yet)
      | inl more ↦
          let below : start + 16 * n < end = ground arith in
          elim (Bool-cases (is_rsdp m (start + 16 * n))) [
            | inl hit ↦ rw (more, hit) (n, refl, ground arith, hit, none_yet)
            | inr miss ↦
                let next : start + 16 * suc n ≡ start + 16 * n + 16 = omega arith in
                rw (more, miss)
                  (subst (λ a. IsFirst m start end (find_loop m k a end)) next
                    (find_loop-IsFirst k (suc n) start end m (omega arith) (omega arith)
                      (none_yet, miss)))
          ]
    ]

find_in-IsFirst :
    (start len : ℕ) (m : Memory) → IsFirst m start (start + len / 4 * 4) (find_in m start len)
find_in-IsFirst start len m =
    subst
      (λ a. IsFirst m start (start + len / 4 * 4) (find_loop m (len + 1) a (start + len / 4 * 4)))
      (let e : start + 16 * 0 ≡ start = omega arith in e)
      (find_loop-IsFirst (len + 1) 0 start (start + len / 4 * 4) m (omega arith) (omega arith) tt)

-- `find` ends. It gives the first root pointer of the 1024 bytes that the word at 0x40e points to,
-- unless that is at the address 0; only when there is none there, or that one, the first of the
-- BIOS's memory, or none.
pub find-IsFirst :
    (m : Memory)
    → let ebda = u32_at m 0x40e in
      ((a : ℕ) × (find m ≡ found a) × ((a == 0) ≡ false) × IsFirst m ebda (ebda + 0x400) (found a))
      ⊎ ((IsFirst m ebda (ebda + 0x400) absent ⊎ IsFirst m ebda (ebda + 0x400) (found 0))
          × IsFirst m 0xe0000 0x100000 (find m))
unfolding find
find-IsFirst m =
    let ebda = u32_at m 0x40e in split (find_in m ebda 0x400) refl (find_in-IsFirst ebda 0x400 m)
  where
    bios : IsFirst m 0xe0000 0x100000 (find_in m 0xe0000 0x20000)
    bios = find_in-IsFirst 0xe0000 0x20000 m

    split :
        (r : Found)
        → find_in m (u32_at m 0x40e) 0x400 ≡ r
        → IsFirst m (u32_at m 0x40e) (u32_at m 0x40e + 0x400) r
        → ((a : ℕ) × (find m ≡ found a)
            × ((a == 0) ≡ false)
            × IsFirst m (u32_at m 0x40e) (u32_at m 0x40e + 0x400) (found a))
          ⊎ ((IsFirst m (u32_at m 0x40e) (u32_at m 0x40e + 0x400) absent
                ⊎ IsFirst m (u32_at m 0x40e) (u32_at m 0x40e + 0x400) (found 0))
              × IsFirst m 0xe0000 0x100000 (find m))
    split lost e h = absurd h
    split (found a) e h = elim (Bool-cases (a == 0)) [
      | inr live ↦ inl (a, rw (e, find, live) refl, live, h)
      | inl at_null ↦
          let zero_is : a ≡ 0 = ground arith in
          let first =
            subst (λ b. IsFirst m (u32_at m 0x40e) (u32_at m 0x40e + 0x400) (found b)) zero_is h in
          inr (inr first, rw (e, find, at_null) bios)
    ]
    split absent e h = inr (inl h, rw (e, find) bios)
