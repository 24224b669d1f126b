-- ===== src/Aggro/Remove.antt =====
-- `Remove` of zerosugar/xr/server/game/instance/ai/aggro/aggro_container.cpp.
use zerosugar.Prelude.{ℕ, ◌+◌, ◌≡◌, refl, Bool, List, [], ◌∷◌, arith, ◌⊎◌, inl, inr}
use zerosugar.Aggro.{Aggro, rejoin, remove}
use zerosugar.Aggro.Order.{
  Desc, one, count, of_source, IsValid, count-rejoin, length-rejoin, Desc-erase, find_cases,
}

-- `Remove` on a well formed container: a source that is not there changes nothing; else its one entry
-- goes, all other entries stay, and the container is still well formed.
pub remove_source_cases :
    (s : List Aggro) (id : ℕ)
    → IsValid s
    → let s' = remove s id in
      IsValid s'
      × (count (of_source id) s' ≡ 0)
      × ((s' ≡ s)
          ⊎ ((a : Aggro) × (a.source_id ≡ id)
              × ((test : Aggro → Bool) → count test s' + one test a ≡ count test s)))
unfolding remove
remove_source_cases s id v = elim (find_cases id [] s) [
  | inl (e, absent) ↦ rw (e, remove) (v, absent, inl refl)
  | inr (before, a, after, e, same, whole) ↦
      let sorted : Desc (rejoin before (a ∷ after)) = rw whole at v.sorted in
      let counts : (test : Aggro → Bool)
          → count test (rejoin before after) + one test a ≡ count test s =
        λ test.
          rw whole
            (omega (arith, count-rejoin test before (a ∷ after), count-rejoin test before after)) in
      let here : one (of_source id) a ≡ 1 = ground arith in
      rw (e, remove)
        (
          record {
            sorted = Desc-erase before after a sorted;
            bounded = omega (
              arith,
              length-rejoin before after,
              rw whole at v.bounded,
              length-rejoin before (a ∷ after),
            );
            distinct = λ i. omega (arith, counts (of_source i), v.distinct i);
          },
          omega (arith, counts (of_source id), v.distinct id),
          inr (a, same, counts),
        )
]
