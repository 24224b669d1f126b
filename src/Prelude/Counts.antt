-- ===== src/Prelude/Counts.antt =====
-- How often a number stands in a list of numbers, and taking one of its places out.
use Prim.Native.Nat.{ℕ, ◌+◌, ◌-◌}
use mathlib.Core.Path.{◌≡◌}
use mathlib.Core.Bool.{Bool, true, false}
use mathlib.Core.List.{List, [], ◌∷◌, ◌++◌}
use native.Mathlib.Omega.{arith}
use zerosugar.Prelude.Tests.{◌==◌, if◌then◌else◌}

-- `find` and `erase`.
unfoldable pub erase : ℕ → List ℕ → List ℕ
erase id [] = []
erase id (x ∷ xs) = let rest : List ℕ = erase id xs in if x == id then xs else x ∷ rest

abbrev pub count : ℕ → List ℕ → ℕ
count id [] = 0
count id (x ∷ xs) = (if x == id then 1 else 0) + count id xs

abbrev pub contains : ℕ → List ℕ → Bool
contains id [] = false
contains id (x ∷ xs) = if x == id then true else contains id xs

pub count-append : (id : ℕ) (xs ys : List ℕ) → count id (xs ++ ys) ≡ count id xs + count id ys
count-append id [] ys = omega arith
count-append id (x ∷ xs) ys = omega (arith, count-append id xs ys)

pub count-erase :
    (id j : ℕ) (xs : List ℕ)
    → count j (erase id xs) ≡ (if j == id then count j xs - 1 else count j xs)
unfolding erase
count-erase id j [] = ground arith
count-erase id j (x ∷ xs) = ground (arith, count-erase id j xs)
