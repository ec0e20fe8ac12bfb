-- ===== src/Machine/SystemConfig/Stored.antt =====
-- The array `lapic_id` as the list of the processors that were met.
use mpstu_bs.Prelude.{ℕ, zero, suc, ◌+◌, ◌≤◌, ◌≡◌, false, List, [], ◌∷◌, ◌++◌, ◌==◌, length, arith}
use mpstu_bs.Machine.SystemConfig.{put_at}

-- The numbers stand in the array from `i` on, as far as there is room.
abbrev pub Stored : (ℕ → ℕ) → ℕ → ℕ → List ℕ → Type 0
Stored f i room [] = Unit
Stored f i zero (x ∷ xs) = Unit
Stored f i (suc room) (x ∷ xs) = (f i ≡ x) × Stored f (i + 1) room xs

pub Stored-full :
    (xs : List ℕ) (f : ℕ → ℕ) (i room x : ℕ)
    → room ≤ length xs
    → Stored f i room xs
    → Stored f i room (xs ++ x ∷ [])
Stored-full [] f i zero x h s = tt
Stored-full [] f i (suc room) x h s = absurd (omega arith)
Stored-full (y ∷ ys) f i zero x h s = tt
Stored-full (y ∷ ys) f i (suc room) x h s = (s.0, Stored-full ys f (i + 1) room x (omega arith) s.1)

pub Stored-snoc :
    (xs : List ℕ) (f : ℕ → ℕ) (i room j x : ℕ)
    → j ≡ i + length xs
    → Stored f i room xs
    → Stored (put_at j x f) i room (xs ++ x ∷ [])
Stored-snoc [] f i zero j x e s = tt
Stored-snoc [] f i (suc room) j x e s = (ground arith, tt)
Stored-snoc (y ∷ ys) f i zero j x e s = tt
Stored-snoc (y ∷ ys) f i (suc room) j x e s =
    let other : (i == j) ≡ false = ground arith in
    (rw other s.0, Stored-snoc ys f (i + 1) room j x (omega arith) s.1)
