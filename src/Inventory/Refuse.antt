-- ===== src/Inventory/Refuse.antt =====
-- `Equip` and `Unequip` of zerosugar/xr/server/game/instance/entity/component/inventory_component.cpp
-- on places that are invalid or leave the array.
use zerosugar.Prelude.{ℕ, ◌<◌, ◌≡◌, refl, false, some, none, ◌⊎◌, arith}
use zerosugar.Prelude.Int.{ℤ, pos, negsuc}
use zerosugar.Inventory.{Inventory, inventory_size, equip_position_count, equip, unequip}

-- A position outside the enumeration, or a slot outside the bag.
abbrev pub Outside : ℕ → ℤ → Type 0
Outside limit (pos n) = limit < n
Outside limit (negsuc n) = Unit {0}

-- `Equip` answers false and changes nothing when the position is below 0 or above `Count`, or the slot
-- is not in the bag.
pub equip_refuses :
    (s : Inventory) (dest src : ℤ)
    → Outside equip_position_count dest ⊎ Outside 29 src
    → equip s dest src ≡ some (false, s)
unfolding equip
equip_refuses s (pos dest) (pos src) h = ground arith
equip_refuses s (pos dest) (negsuc src) h = refl
equip_refuses s (negsuc dest) src h = refl

-- `EquipPosition::Count` is an element of the enumeration, so `IsValid` lets it pass, and the array
-- has no such place: for every bag with an item in the slot, `Equip` at `Count` reads outside
-- `_equipments`, and so does `Unequip` from `Count` into any slot of the bag.
pub count_leaves_array :
    (s : Inventory) (slot p : ℕ)
    → slot < inventory_size
    → s.inventory slot ≡ some p
    → (equip s (pos equip_position_count) (pos slot) ≡ none)
      × (unequip s (pos equip_position_count) (pos slot) ≡ none)
unfolding equip unequip
count_leaves_array s slot p h e = (ground arith, ground arith)
