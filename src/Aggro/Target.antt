-- ===== src/Aggro/Target.antt =====
-- `SelectPrimaryTarget` of zerosugar/xr/server/game/instance/ai/aggro/aggro_container.cpp.
use zerosugar.Prelude.{
  ℕ, ◌≡◌, refl, Option, none, some, List, [], ◌∷◌, ◌++◌, ◌⊎◌, inl, inr, Option-cases, All, ap,
}
use zerosugar.Prelude.Int.{◌≤ℤ◌}
use zerosugar.Aggro.{Aggro, select_primary_target}
use zerosugar.Aggro.Order.{Below, Desc, Below-trans}

Desc-All : (a : Aggro) (s : List Aggro) → Below a s → Desc s → All (λ b. b.value ≤ℤ a.value) s
Desc-All a [] b h = tt
Desc-All a (c ∷ s) b h = (b, Desc-All a s (Below-trans a c s b h.0) h.1)

module _ {Player : Type 0} (find_player : ℕ → Option Player) where
  -- The sources of these entries have no player.
  abbrev pub Gone : List Aggro → Type 0
  Gone s = All (λ a. find_player a.source_id ≡ none) s

  -- `SelectPrimaryTarget` of a container that is in order drops the entries in front that have no
  -- player, and only them. It finds no player exactly if that leaves nothing; else its target is the
  -- player of the first entry that is left, and no entry that is left has a larger value.
  pub select_primary_target_cases :
      (s : List Aggro)
      → Desc s
      → let (s', player) = select_primary_target find_player s in
        (dropped : List Aggro) × (s ≡ dropped ++ s')
        × Gone dropped
        × (((s' ≡ []) × (player ≡ none))
            ⊎ ((a : Aggro) × (rest : List Aggro) × (p : Player) × (s' ≡ a ∷ rest)
                × (find_player a.source_id ≡ some p)
                × (player ≡ some p)
                × All (λ b. b.value ≤ℤ a.value) rest))
  unfolding select_primary_target
  select_primary_target_cases [] h = ([], refl, tt, inl (refl, refl))
  select_primary_target_cases (a ∷ s) h = elim (Option-cases (find_player a.source_id)) [
    | inr (p, e) ↦
        rw (e, select_primary_target)
          ([], refl, tt, inr (a, s, p, refl, e, refl, Desc-All a s h.0 h.1))
    | inl e ↦
        let (dropped, whole, gone, target) = select_primary_target_cases s h.1 in
        rw (e, select_primary_target) (a ∷ dropped, ap (◌∷◌ a) whole, (e, gone), target)
  ]
