-- ===== src/Inventory/Valid.antt =====
-- When the arrays and the items of
-- zerosugar/xr/server/game/instance/entity/component/inventory_component.cpp agree.
use zerosugar.Prelude.{ℕ, ◌<◌, ◌≡◌, none, some}
use zerosugar.Prelude.Int.{pos}
use zerosugar.Inventory.{
  Inventory, SlotType, in_inventory, in_equipment, inventory_size, equip_position_count,
}

-- The pointer `p` leads to an item, which knows its key and that it lies at `i` of the array.
abbrev pub Placed : Inventory → SlotType → ℕ → ℕ → Type 0
Placed s t i p = elim (s.items p) [
  | none ↦ ⊥
  | some a ↦ (a.item_id ≡ p) × (a.slot ≡ pos i) × (a.slot_type ≡ t)
]

pub record IsValid (s : Inventory) : Type 0 where
  pub bag : (i p : ℕ) → s.inventory i ≡ some p → (i < inventory_size) × Placed s in_inventory i p
  pub worn :
      (i p : ℕ) → s.equipments i ≡ some p → (i < equip_position_count) × Placed s in_equipment i p
