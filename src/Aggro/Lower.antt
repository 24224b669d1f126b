-- ===== src/Aggro/Lower.antt =====
-- `Add` of zerosugar/xr/server/game/instance/ai/aggro/aggro_container.cpp with a negative value.
use zerosugar.Prelude.{ℕ, ◌≡◌, refl, true, List, [], ◌∷◌, ◌++◌, arith, ap, ◌∙◌, All}
use zerosugar.Prelude.Int.{negsuc, ltb_ℤ}
use zerosugar.Aggro.{Aggro, find, sink, with_more, add}
use zerosugar.Aggro.Order.{Desc}

sink_to_back :
    (a : Aggro) (s : List Aggro)
    → All (λ b. ltb_ℤ b.value a.value ≡ true) s
    → sink a s ≡ s ++ (a ∷ [])
unfolding sink
sink_to_back a [] h = refl
sink_to_back a (b ∷ s) h = rw h.0 (ap (◌∷◌ b) (sink_to_back a s h.1))

not_sorted :
    (a : Aggro) (b : Aggro) (s : List Aggro)
    → All (λ c. ltb_ℤ c.value a.value ≡ true) (b ∷ s)
    → ¬ Desc ((b ∷ s) ++ (a ∷ []))
not_sorted a b [] h d = ground arith
not_sorted a b (c ∷ s) h d = not_sorted a c s h.1 d.1

add_first :
    (a b : Aggro) (s : List Aggro) (n : ℕ)
    → add (a ∷ b ∷ s) a.source_id (negsuc n) ≡ sink (with_more a (negsuc n)) (b ∷ s)
unfolding add find
add_first a b s n = ground arith

-- `Add` of a negative value to the first entry of several, where its value is still larger than every
-- other value afterwards, moves the entry to the end, and the container is out of order: the entry
-- with the largest value is the last.
pub add_lowers_misplaces :
    (a b : Aggro) (s : List Aggro) (n : ℕ)
    → All (λ c. ltb_ℤ c.value (with_more a (negsuc n)).value ≡ true) (b ∷ s)
    → let s' = add (a ∷ b ∷ s) a.source_id (negsuc n) in
      (s' ≡ (b ∷ s) ++ (with_more a (negsuc n) ∷ [])) × ¬ Desc s'
add_lowers_misplaces a b s n h =
    let e : add (a ∷ b ∷ s) a.source_id (negsuc n) ≡ (b ∷ s) ++ (with_more a (negsuc n) ∷ []) =
      add_first a b s n ∙ sink_to_back (with_more a (negsuc n)) (b ∷ s) h in
    (e, rw e (not_sorted (with_more a (negsuc n)) b s h))
