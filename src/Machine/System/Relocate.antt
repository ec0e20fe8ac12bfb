-- ===== src/Machine/System/Relocate.antt =====
-- APICSystem::copySetupAPtoLowMem: the code of the other processors is put where they start.
use mpstu_bs.Prelude.{
  ℕ, zero, suc, ◌+◌, ◌-◌, ◌≤◌, ◌≡◌, refl, sym, ap, ◌∙◌, ◌⊎◌, inl, inr, true, false, ◌&&◌, ltb, leb,
  ◌==◌, if◌then◌else◌, arith, Bool-cases,
}
use mpstu_bs.Machine.SystemConfig.{Memory, put_at}

-- The loop over `n` bytes.
unfoldable pub copy_loop : ℕ → ℕ → ℕ → Memory → Memory
copy_loop zero src dest m = m
copy_loop (suc n) src dest m = copy_loop n (src + 1) (dest + 1) (put_at dest (m src) m)

-- `copySetupAPtoLowMem`, for the code between two addresses: the memory and `relocatedSetupAP`.
unfoldable pub copy_setup_ap_to_low_mem : ℕ → ℕ → Memory → Memory × ℕ
copy_setup_ap_to_low_mem start end m = (copy_loop (end - start) start 0x40000 m, 0x40000)

copy_loop-at :
    (n src dest a : ℕ) (m : Memory)
    → (dest ≤ src) ⊎ (src + n ≤ dest)
    → copy_loop n src dest m a
      ≡ (if leb dest a && ltb a (dest + n) then m (src + (a - dest)) else m a)
unfolding copy_loop
copy_loop-at zero src dest a m d =
    let no_byte : (leb dest a && ltb a (dest + 0)) ≡ false = ground arith in rw no_byte refl
copy_loop-at (suc n) src dest a m d =
    let rest = copy_loop-at n (src + 1) (dest + 1) a (put_at dest (m src) m) (shift d) in
    rest ∙ elim (Bool-cases (a == dest)) [
      | inl here ↦
          let e : a ≡ dest = ground arith in
          let before : (leb (dest + 1) a && ltb a (dest + 1 + n)) ≡ false = ground arith in
          let at : (leb dest a && ltb a (dest + suc n)) ≡ true = ground arith in
          let same : src + (a - dest) ≡ src = omega arith in rw (before, at, here) (ap m (sym same))
      | inr off ↦ elim (Bool-cases (leb dest a && ltb a (dest + suc n))) [
        | inl there ↦
            let later : (leb (dest + 1) a && ltb a (dest + 1 + n)) ≡ true = ground arith in
            let index : src + 1 + (a - (dest + 1)) ≡ src + (a - dest) = ground arith in
            let kept : (src + (a - dest) == dest) ≡ false = untouched d there off in
            rw (later, there, index, kept) refl
        | inr outside ↦
            let later : (leb (dest + 1) a && ltb a (dest + 1 + n)) ≡ false = ground arith in
            rw (later, outside, off) refl
      ]
    ]
  where
    shift : (dest ≤ src) ⊎ (src + suc n ≤ dest) → (dest + 1 ≤ src + 1) ⊎ (src + 1 + n ≤ dest + 1)
    shift (inl h) = inl (omega arith)
    shift (inr h) = inr (omega arith)

    untouched :
        (dest ≤ src) ⊎ (src + suc n ≤ dest)
        → (leb dest a && ltb a (dest + suc n)) ≡ true
        → (a == dest) ≡ false
        → (src + (a - dest) == dest) ≡ false
    untouched (inl h) there off = ground arith
    untouched (inr h) there off = ground arith

-- After `copySetupAPtoLowMem` the bytes from 0x40000 on are those of the code as it was, and no other
-- byte has changed, when the code ends before that address or starts at or behind it.
pub copy_setup_ap-at :
    (start end a : ℕ) (m : Memory)
    → start ≤ end
    → (0x40000 ≤ start) ⊎ (end ≤ 0x40000)
    → (copy_setup_ap_to_low_mem start end m).0 a ≡ (
        if leb 0x40000 a && ltb a (0x40000 + (end - start)) then m (start + (a - 0x40000)) else m a)
unfolding copy_setup_ap_to_low_mem
copy_setup_ap-at start end a m h (inl above) =
    copy_loop-at (end - start) start 0x40000 a m (inl above)
copy_setup_ap-at start end a m h (inr below) =
    copy_loop-at (end - start) start 0x40000 a m (inr (omega arith))
