-- ===== src/Aggro.antt =====
-- zerosugar/xr/server/game/instance/ai/aggro/aggro_container.cpp: whom a monster is angry at, the
-- angriest first. The sums of 64-bit values are taken not to overflow. An iterator into the vector is
-- the entries before it, nearest first, and those from it on.
pub mod Order
pub mod Add
pub mod Lower
pub mod Remove
pub mod Target
use zerosugar.Prelude.{
  ℕ, ◌==◌, Bool, true, false, Option, none, some, List, [], ◌∷◌, if◌then◌else◌, length,
}
use zerosugar.Prelude.Int.{ℤ, pos, negsuc, ltb_ℤ, ◌+ℤ◌}

pub record Aggro : Type 0 where
  pub source_id : ℕ
  pub value : ℤ

abbrev pub max_aggro_manage_count : ℕ
max_aggro_manage_count = 16

-- `CompareAggroValue`.
abbrev pub compare_aggro_value : Aggro → Aggro → Bool
compare_aggro_value lhs rhs = ltb_ℤ rhs.value lhs.value

-- The vector, from an iterator.
abbrev pub rejoin : List Aggro → List Aggro → List Aggro
rejoin [] after = after
rejoin (a ∷ before) after = rejoin before (a ∷ after)

-- `find_if` on the source: what is before the entry, the entry, and what is after it.
unfoldable pub find : ℕ → List Aggro → List Aggro → Option (List Aggro × Aggro × List Aggro)
find id before [] = none
find id before (a ∷ after) =
    let later : Option (List Aggro × Aggro × List Aggro) = find id (a ∷ before) after in
    if id == a.source_id then some (before, a, after) else later

-- The loop for an entry whose value grew.
unfoldable pub rise : Aggro → List Aggro → List Aggro → List Aggro
rise a [] after = a ∷ after
rise a (prev ∷ before) after =
    let higher : List Aggro = rise a before (prev ∷ after) in
    if compare_aggro_value a prev then higher else rejoin (prev ∷ before) (a ∷ after)

-- The loop for an entry whose value shrank.
unfoldable pub sink : Aggro → List Aggro → List Aggro
sink a [] = a ∷ []
sink a (next ∷ after) =
    let lower : List Aggro = sink a after in
    if compare_aggro_value a next then next ∷ lower else a ∷ next ∷ after

-- `lower_bound` and `insert`.
unfoldable pub insert : Aggro → List Aggro → List Aggro
insert a [] = a ∷ []
insert a (b ∷ after) =
    let later : List Aggro = insert a after in
    if compare_aggro_value b a then b ∷ later else a ∷ b ∷ after

unfoldable pub pop_back : List Aggro → List Aggro
pop_back [] = []
pop_back (a ∷ []) = []
pop_back (a ∷ b ∷ after) = a ∷ pop_back (b ∷ after)

abbrev pub is_zero : ℤ → Bool
is_zero (pos n) = n == 0
is_zero (negsuc n) = false

-- `Aggro::Add`.
abbrev pub with_more : Aggro → ℤ → Aggro
with_more a v = record a { value = a.value +ℤ v }

abbrev pub trimmed : List Aggro → List Aggro
trimmed s = if length s == max_aggro_manage_count then pop_back s else s

-- `Add(id, value)`.
unfoldable pub add : List Aggro → ℕ → ℤ → List Aggro
unfolding find rise sink insert pop_back
add s id v = if is_zero v then s else elim (find id [] s) [
  | none ↦ insert (record { source_id = id; value = v }) (trimmed s)
  | some (before, a, after) ↦
      if ltb_ℤ (pos 0) v
      then rise (with_more a v) before after
      else rejoin before (sink (with_more a v) after)
]

-- `Remove(id)`.
unfoldable pub remove : List Aggro → ℕ → List Aggro
unfolding find
remove s id = elim (find id [] s) [ none ↦ s | some (before, a, after) ↦ rejoin before after ]

-- `FindPlayer` of the snapshots of the game instance.
module _ {Player : Type 0} (find_player : ℕ → Option Player) where
  -- `Update`.
  unfoldable pub update_players : List Aggro → List Aggro
  update_players [] = []
  update_players (a ∷ s) =
      let rest : List Aggro = update_players s in
      elim (find_player a.source_id) [ none ↦ rest | some p ↦ a ∷ rest ]

  -- `GetPrimaryTarget`.
  abbrev pub get_primary_target : List Aggro → Option Player
  get_primary_target [] = none
  get_primary_target (a ∷ s) = find_player a.source_id

  -- `SelectPrimaryTarget`: the entries that are left, and the player.
  unfoldable pub select_primary_target : List Aggro → List Aggro × Option Player
  select_primary_target [] = ([], none)
  select_primary_target (a ∷ s) =
      let later : List Aggro × Option Player = select_primary_target s in
      elim (find_player a.source_id) [ none ↦ later | some p ↦ (a ∷ s, some p) ]
