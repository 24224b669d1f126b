-- ===== src/Tests/Monster.antt =====
-- Runs of zerosugar/xr/server/game/instance/ai/aggro: a monster with two players against it.
use zerosugar.Prelude.{
  ℕ, ◌+◌, ◌<◌, ◌≡◌, refl, ◌++◌, Bool, true, Option, none, some, List, [], ◌∷◌, length, arith, ◌⊎◌,
  All, ◌==◌, if◌then◌else◌,
}
use zerosugar.Prelude.Int.{pos, negsuc, ◌≤ℤ◌, ltb_ℤ, ◌+ℤ◌}
use zerosugar.Aggro.{Aggro, add, remove, select_primary_target, with_more, max_aggro_manage_count}
use zerosugar.Aggro.Order.{IsValid, Desc, one, count, of_source}
use zerosugar.Aggro.Add.{Replaced, Inserted, add_positive_cases}
use zerosugar.Aggro.Remove.{remove_source_cases}
use zerosugar.Aggro.Lower.{add_lowers_misplaces}
use zerosugar.Aggro.Target.{Gone, select_primary_target_cases}

abbrev first : Aggro
first = record { source_id = 4; value = pos 9 }

abbrev second : Aggro
second = record { source_id = 6; value = pos 2 }

abbrev angry : List Aggro
angry = first ∷ second ∷ []

angry-IsValid : IsValid angry
angry-IsValid = record {
  sorted = (omega arith, (tt, tt));
  bounded = omega arith;
  distinct = λ id. ground arith;
}

add_positive_cases_example :
    let s' = add angry 6 (pos 8) in
    let new : Aggro = record { source_id = 6; value = pos 8 } in
    IsValid s'
    × (((a : Aggro) × (a.source_id ≡ 6) × Replaced angry s' a (with_more a (pos 8)))
        ⊎ ((count (of_source 6) angry ≡ 0)
            × (((length angry < max_aggro_manage_count) × Inserted angry s' new)
                ⊎ ((last : Aggro) × (length angry ≡ max_aggro_manage_count)
                    × All (λ b. last.value ≤ℤ b.value) angry
                    × Replaced angry s' last new))))
add_positive_cases_example = add_positive_cases angry 6 7 angry-IsValid

remove_source_cases_example :
    let s' = remove angry 4 in
    IsValid s'
    × (count (of_source 4) s' ≡ 0)
    × ((s' ≡ angry)
        ⊎ ((a : Aggro) × (a.source_id ≡ 4)
            × ((test : Aggro → Bool) → count test s' + one test a ≡ count test angry)))
remove_source_cases_example = remove_source_cases angry 4 angry-IsValid

lower : All (λ c. ltb_ℤ c.value (with_more first (negsuc 0)).value ≡ true) (second ∷ [])
unfolding ◌+ℤ◌
lower = (refl, tt)

add_lowers_misplaces_example :
    let s' = add angry 4 (negsuc 0) in
    (s' ≡ (second ∷ []) ++ (with_more first (negsuc 0) ∷ [])) × ¬ Desc s'
add_lowers_misplaces_example = add_lowers_misplaces first second [] 0 lower

-- Only the second player is still in the game.
abbrev present : ℕ → Option ℕ
present id = if id == 6 then some 60 else none

select_primary_target_cases_example :
    let (s', player) = select_primary_target present angry in
    (dropped : List Aggro) × (angry ≡ dropped ++ s')
    × Gone present dropped
    × (((s' ≡ []) × (player ≡ none))
        ⊎ ((a : Aggro) × (rest : List Aggro) × (p : ℕ) × (s' ≡ a ∷ rest)
            × (present a.source_id ≡ some p)
            × (player ≡ some p)
            × All (λ b. b.value ≤ℤ a.value) rest))
select_primary_target_cases_example = select_primary_target_cases present angry angry-IsValid.sorted
