-- ===== src/Prelude/Text.antt =====
-- Texts as lists of characters: when two are the same.
use Prim.Native.Nat.{ℕ}
use mathlib.Core.Path.{◌≡◌, refl}
use mathlib.Core.Bool.{Bool, true, false, ◌&&◌}
use mathlib.Core.List.{List, [], ◌∷◌}
use native.Mathlib.Omega.{arith}
use zerosugar.Prelude.Tests.{◌==◌}

abbrev pub same_text : List ℕ → List ℕ → Bool
same_text [] [] = true
same_text (a ∷ t) (b ∷ u) = (a == b) && same_text t u
same_text [] (b ∷ u) = false
same_text (a ∷ t) [] = false

pub same_text_eq : (t u : List ℕ) → same_text t u ≡ true → t ≡ u
same_text_eq [] [] e = refl
same_text_eq [] (b ∷ u) e = cc
same_text_eq (a ∷ t) [] e = cc
same_text_eq (a ∷ t) (b ∷ u) e =
    let head : a ≡ b = ground (arith, e) in
    let tail : t ≡ u = same_text_eq t u (ground (arith, e)) in rw (head, tail) refl

pub same_text_self : (t : List ℕ) → same_text t t ≡ true
same_text_self [] = refl
same_text_self (a ∷ t) = ground (arith, same_text_self t)
