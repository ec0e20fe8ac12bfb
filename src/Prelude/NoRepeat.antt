-- ===== src/Prelude/NoRepeat.antt =====
-- Lists of numbers without repetition.
use Prim.Native.Nat.{ℕ, zero, suc, ◌≤◌, ◌<◌}
use mathlib.Core.Path.{◌≡◌, refl}
use mathlib.Core.Bool.{Bool, true, false, ◌||◌}
use mathlib.Core.List.{List, [], ◌∷◌, ◌++◌}
use native.Mathlib.Omega.{arith}
use mpstu_bs.Prelude.Tests.{◌==◌, if◌then◌else◌}
use mpstu_bs.Prelude.Lists.{length}

abbrev pub has : ℕ → List ℕ → Bool
has a [] = false
has a (x ∷ xs) = (a == x) || has a xs

abbrev pub Distinct : List ℕ → Type 0
Distinct [] = Unit
Distinct (x ∷ xs) = (has x xs ≡ false) × Distinct xs

abbrev pub Below : ℕ → List ℕ → Type 0
Below n [] = Unit
Below n (x ∷ xs) = (x < n) × Below n xs

pub ne_of_has : (b a : ℕ) (zs : List ℕ) → has b zs ≡ false → has a zs ≡ true → (b == a) ≡ false
ne_of_has b a [] o i = ground arith
ne_of_has b a (z ∷ zs) o i = ground (arith, ne_of_has b a zs)

pub has-snoc :
    (a : ℕ) (xs : List ℕ) (b : ℕ)
    → has a xs ≡ false
    → (b == a) ≡ false
    → has a (xs ++ b ∷ []) ≡ false
has-snoc a [] b h e = ground arith
has-snoc a (x ∷ xs) b h e = ground (arith, has-snoc a xs b)

pub Distinct-snoc : (xs : List ℕ) (b : ℕ) → Distinct xs → has b xs ≡ false → Distinct (xs ++ b ∷ [])
Distinct-snoc [] b d o = (refl, tt)
Distinct-snoc (x ∷ xs) b d o =
    (has-snoc x xs b d.0 (ground arith), Distinct-snoc xs b d.1 (ground arith))

pub Below-snoc : (n : ℕ) (xs : List ℕ) (b : ℕ) → Below n xs → b < n → Below n (xs ++ b ∷ [])
Below-snoc n [] b h l = (l, tt)
Below-snoc n (x ∷ xs) b h l = (h.0, Below-snoc n xs b h.1 l)

without : ℕ → List ℕ → List ℕ
without a [] = []
without a (x ∷ xs) = if x == a then without a xs else x ∷ without a xs

has-without : (b a : ℕ) (xs : List ℕ) → has b xs ≡ false → has b (without a xs) ≡ false
unfolding without
has-without b a [] o = refl
has-without b a (x ∷ xs) o = ground (arith, has-without b a xs)

without-Distinct : (a : ℕ) (xs : List ℕ) → Distinct xs → Distinct (without a xs)
unfolding without
without-Distinct a [] d = tt
without-Distinct a (x ∷ xs) d = ground (arith, without-Distinct a xs d.1, has-without x a xs d.0)

without-Below : (n : ℕ) (xs : List ℕ) → Below (suc n) xs → Below n (without n xs)
unfolding without
without-Below n [] h = tt
without-Below n (x ∷ xs) h = ground (arith, without-Below n xs h.1)

without-same : (a : ℕ) (xs : List ℕ) → has a xs ≡ false → without a xs ≡ xs
unfolding without
without-same a [] o = refl
without-same a (x ∷ xs) o = ground (arith, without-same a xs)

length-without : (a : ℕ) (xs : List ℕ) → Distinct xs → length xs ≤ suc (length (without a xs))
unfolding without
length-without a [] d = omega arith
length-without a (x ∷ xs) d = ground (arith, without-same x xs d.0, length-without a xs d.1)

-- Distinct numbers below `n` are at most `n`.
pub length-le_of_Below : (n : ℕ) (xs : List ℕ) → Distinct xs → Below n xs → length xs ≤ n
length-le_of_Below zero [] d h = omega arith
length-le_of_Below zero (x ∷ xs) d h = absurd (omega arith)
length-le_of_Below (suc n) xs d h = omega (
  arith,
  length-without n xs d,
  length-le_of_Below n (without n xs) (without-Distinct n xs d) (without-Below n xs h),
)
