-- ===== src/Inventory.antt =====
-- A player's items: zerosugar/xr/server/game/instance/entity/component/inventory_component.cpp. The
-- map `_items` owns the items; the arrays `_inventory` and `_equipments` point into it, and a pointer
-- is the key of the item that it points to. `none` for the result of a call means that the source
-- goes through a pointer to no item, or leaves an array. A quantity is never negative.
pub mod Valid
pub mod Move
pub mod Refuse
pub mod Bag
pub mod Stack
pub mod Change
use zerosugar.Prelude.{
  ℕ, zero, suc, ◌+◌, ◌-◌, ◌≡◌, Bool, true, false, ◌&&◌, ◌||◌, not, Option, none, some, List, [],
  ◌∷◌, ◌++◌, ltb, leb, ◌==◌, if◌then◌else◌, min,
}
use zerosugar.Prelude.Int.{ℤ, pos, negsuc}

pub data SlotType : Type 0 where
  in_inventory in_equipment : SlotType

pub record Item : Type 0 where
  pub item_id : ℕ
  pub item_data_id : ℕ
  pub quantity : ℕ
  pub slot : ℤ
  pub slot_type : SlotType
  pub attack : Option ℤ
  pub defence : Option ℤ
  pub str : Option ℤ
  pub dex : Option ℤ
  pub intell : Option ℤ

-- `InventoryItem{}`; the id is `game_item_id_type::Default()`.
abbrev pub default_item : Item
default_item = record {
  item_id = 0;
  item_data_id = 0;
  quantity = 0;
  slot = pos 0;
  slot_type = in_inventory;
  attack = none;
  defence = none;
  str = none;
  dex = none;
  intell = none;
}

-- `inventory_change_log_type`, with the fields that are set.
pub data Log : Type 0 where
  equip_item : (character item position : ℕ) → Log
  unequip_item : (item slot : ℕ) → Log
  shift_item : (item slot : ℕ) → Log
  add_item_log : (item character data_id quantity slot : ℕ) → Log
  remove_item_log : (item : ℕ) → Log
  change_quantity : (item quantity : ℕ) → Log

pub record Inventory : Type 0 where
  pub character_id : ℕ
  pub items : ℕ → Option Item
  pub inventory : ℕ → Option ℕ
  pub equipments : ℕ → Option ℕ
  pub item_logs : List Log

-- `game_constant::inventory_size` and `stackable_item_max_quantity`; `EquipPosition::Count`.
abbrev pub inventory_size : ℕ
inventory_size = 30

abbrev pub stackable_item_max_quantity : ℕ
stackable_item_max_quantity = 30

abbrev pub equip_position_count : ℕ
equip_position_count = 4

abbrev pub update {ℓ} : {V : Type ℓ} → (ℕ → V) → ℕ → V → ℕ → V
update f k v j = if j == k then v else f j

abbrev pub is_valid_slot : ℕ → Bool
is_valid_slot slot = ltb slot inventory_size

-- `IsValid(EquipPosition)`, which ENUM_CLASS generates: true for each element of the enumeration,
-- and `Count` is one.
abbrev pub is_valid_position : ℕ → Bool
is_valid_position p = leb p equip_position_count

-- `_equipments[position]`; `none` outside the array.
abbrev pub equipment_at : Inventory → ℕ → Option (Option ℕ)
equipment_at s p = if ltb p equip_position_count then some (s.equipments p) else none

-- `std::swap(std::tie(a->slot, a->slotType), std::tie(b->slot, b->slotType))`.
abbrev pub swap_slots : (ℕ → Option Item) → ℕ → Item → ℕ → Item → ℕ → Option Item
swap_slots items p a q b =
    update (update items p (some (record a { slot = b.slot; slot_type = b.slot_type }))) q
      (some (record b { slot = a.slot; slot_type = a.slot_type }))

-- `Equip`, from the item on: to an empty place, or against the item that is there.
abbrev pub equip_put : Inventory → ℕ → ℕ → ℕ → Item → Inventory
equip_put s dest src p a = record s {
  items = update s.items p (some (record a { slot = pos dest; slot_type = in_equipment }));
  inventory = update s.inventory src none;
  equipments = update s.equipments dest (some p);
  item_logs = s.item_logs ++ (equip_item s.character_id a.item_id dest ∷ []);
}

abbrev pub equip_swap : Inventory → ℕ → ℕ → ℕ → Item → ℕ → Item → Inventory
equip_swap s dest src p a q b = record s {
  items = swap_slots s.items p a q b;
  inventory = update s.inventory src (some q);
  equipments = update s.equipments dest (some p);
  item_logs =
      s.item_logs ++ (equip_item s.character_id a.item_id dest ∷ unequip_item b.item_id src ∷ []);
}

equip_onto : Inventory → ℕ → ℕ → ℕ → Item → Option ℕ → Option (Bool × Inventory)
equip_onto s dest src p a none = some (true, equip_put s dest src p a)
equip_onto s dest src p a (some q) = elim (s.items q) [
  | none ↦ none
  | some b ↦ some (true, equip_swap s dest src p a q b)
]

equip_at : Inventory → ℕ → ℕ → Option (Bool × Inventory)
unfolding equip_onto
equip_at s dest src = elim (s.inventory src) [
  | none ↦ some (false, s)
  | some p ↦ elim (equipment_at s dest) [
    | none ↦ none
    | some there ↦ elim (s.items p) [ none ↦ none | some a ↦ equip_onto s dest src p a there ]
  ]
]

-- `Equip(destPosition, srcPosition)`.
pub equip : Inventory → ℤ → ℤ → Option (Bool × Inventory)
unfolding equip_at
equip s (pos dest) (pos src) =
    if not (is_valid_position dest) || not (is_valid_slot src)
    then some (false, s)
    else equip_at s dest src
equip s _ _ = some (false, s)

-- `Unequip`, from the item on, likewise.
abbrev pub unequip_put : Inventory → ℕ → ℕ → ℕ → Item → Inventory
unequip_put s src dest p a = record s {
  items = update s.items p (some (record a { slot = pos dest; slot_type = in_inventory }));
  equipments = update s.equipments src none;
  inventory = update s.inventory dest (some p);
  item_logs = s.item_logs ++ (unequip_item a.item_id dest ∷ []);
}

abbrev pub unequip_swap : Inventory → ℕ → ℕ → ℕ → Item → ℕ → Item → Inventory
unequip_swap s src dest p a q b = record s {
  items = swap_slots s.items q b p a;
  equipments = update s.equipments src (some q);
  inventory = update s.inventory dest (some p);
  item_logs =
      s.item_logs ++ (unequip_item a.item_id dest ∷ equip_item s.character_id b.item_id src ∷ []);
}

unequip_onto : Inventory → ℕ → ℕ → ℕ → Item → Option ℕ → Option (Bool × Inventory)
unequip_onto s src dest p a none = some (true, unequip_put s src dest p a)
unequip_onto s src dest p a (some q) = elim (s.items q) [
  | none ↦ none
  | some b ↦ some (true, unequip_swap s src dest p a q b)
]

unequip_at : Inventory → ℕ → ℕ → Option (Bool × Inventory)
unfolding unequip_onto
unequip_at s src dest = elim (equipment_at s src) [
  | none ↦ none
  | some here ↦ elim here [
    | none ↦ some (false, s)
    | some p ↦ elim (s.items p) [
      | none ↦ none
      | some a ↦ unequip_onto s src dest p a (s.inventory dest)
    ]
  ]
]

-- `Unequip(srcPosition, destPosition)`.
pub unequip : Inventory → ℤ → ℤ → Option (Bool × Inventory)
unfolding unequip_at
unequip s (pos src) (pos dest) =
    if not (is_valid_position src) || not (is_valid_slot dest)
    then some (false, s)
    else unequip_at s src dest
unequip s _ _ = some (false, s)

-- `ShiftItem`, from the item on, likewise.
abbrev pub shift_put : Inventory → ℕ → ℕ → ℕ → Item → Inventory
shift_put s src dest p a = record s {
  items = update s.items p (some (record a { slot = pos dest }));
  inventory = update (update s.inventory src none) dest (some p);
  item_logs = s.item_logs ++ (shift_item a.item_id dest ∷ []);
}

abbrev pub shift_swap : Inventory → ℕ → ℕ → ℕ → Item → ℕ → Item → Inventory
shift_swap s src dest p a q b = record s {
  items = swap_slots s.items q b p a;
  inventory = update (update s.inventory src (some q)) dest (some p);
  item_logs = s.item_logs ++ (shift_item a.item_id dest ∷ shift_item b.item_id src ∷ []);
}

pub shift_onto : Inventory → ℕ → ℕ → ℕ → Item → Option ℕ → Option (Bool × Inventory)
shift_onto s src dest p a none = some (true, shift_put s src dest p a)
shift_onto s src dest p a (some q) = elim (s.items q) [
  | none ↦ none
  | some b ↦ some (true, shift_swap s src dest p a q b)
]

shift_at : Inventory → ℕ → ℕ → Option (Bool × Inventory)
unfolding shift_onto
shift_at s src dest = elim (s.inventory src) [
  | none ↦ some (false, s)
  | some p ↦ elim (s.items p) [
    | none ↦ none
    | some a ↦ shift_onto s src dest p a (s.inventory dest)
  ]
]

-- `ShiftItem(srcPosition, destPosition)`.
pub shift : Inventory → ℤ → ℤ → Option (Bool × Inventory)
unfolding shift_at
shift s (pos src) (pos dest) =
    if not (is_valid_slot src) || not (is_valid_slot dest)
    then some (false, s)
    else shift_at s src dest
shift s _ _ = some (false, s)

-- `HasEquipItem`: the places of the body, from `i` on, `n` of them.
has_equip_from : Inventory → ℕ → ℕ → ℕ → Option Bool
has_equip_from s item zero i = some false
has_equip_from s item (suc n) i =
    let rest : Option Bool = has_equip_from s item n (i + 1) in
    elim (s.equipments i) [
      | none ↦ rest
      | some p ↦ elim (s.items p) [
        | none ↦ none
        | some a ↦ if a.item_id == item then some true else rest
      ]
    ]

unfoldable pub has_equip_item : Inventory → ℕ → Option Bool
unfolding has_equip_from
has_equip_item s item = has_equip_from s item equip_position_count 0

-- The first empty slot of the bag from `i` on, among `n`: the loop of `AddItem` and of
-- `HasEmptySlot`.
unfoldable pub first_empty : (ℕ → Option ℕ) → ℕ → ℕ → Option ℕ
first_empty inventory zero i = none
first_empty inventory (suc n) i =
    let rest : Option ℕ = first_empty inventory n (i + 1) in
    elim (inventory i) [ none ↦ some i | some p ↦ rest ]

unfoldable pub has_empty_slot : Inventory → Bool
has_empty_slot s = elim (first_empty s.inventory inventory_size 0) [ none ↦ false | some i ↦ true ]

-- `_items[id]`, which makes an item that is not there.
abbrev pub item_or_new : (ℕ → Option Item) → ℕ → Item
item_or_new items id = elim (items id) [ none ↦ default_item | some a ↦ a ]

-- What `AddItem` does with an empty slot.
abbrev pub placed_in : Inventory → ℕ → ℕ → ℕ → ℕ → Inventory
placed_in s id data_id quantity i = record s {
  items = update s.items id (
      some (record (item_or_new s.items id) {
        item_data_id = data_id;
        item_id = id;
        slot = pos i;
        quantity = quantity;
      }));
  inventory = update s.inventory i (some id);
  item_logs = s.item_logs ++ (add_item_log id s.character_id data_id quantity i ∷ []);
}

-- `AddItem(itemUid, itemId, quantity)`.
unfoldable pub add_item : Inventory → ℕ → ℕ → ℕ → Bool × Inventory
add_item s id data_id quantity = elim (first_empty s.inventory inventory_size 0) [
  | none ↦ (false, s)
  | some i ↦ (true, placed_in s id data_id quantity i)
]

-- `RemoveItem(slot)`.
unfoldable pub remove_item : Inventory → ℤ → Option (Bool × Inventory)
remove_item s (negsuc n) = some (false, s)
remove_item s (pos slot) =
    if not (is_valid_slot slot) then some (false, s) else elim (s.inventory slot) [
      | none ↦ some (false, s)
      | some p ↦ elim (s.items p) [
        | none ↦ none
        | some a ↦ some (
          true,
          record s {
            items = update s.items a.item_id none;
            inventory = update s.inventory slot none;
            item_logs = s.item_logs ++ (remove_item_log a.item_id ∷ []);
          },
        )
      ]
    ]

-- `AddInventory` and `AddEquipment`, with the pointer and the slot of the item.
unfoldable pub add_inventory : Inventory → ℕ → ℤ → Bool × Inventory
add_inventory s p (negsuc n) = (false, s)
add_inventory s p (pos slot) =
    if not (is_valid_slot slot) then (false, s) else elim (s.inventory slot) [
      | some q ↦ (false, s)
      | none ↦ (true, record s { inventory = update s.inventory slot (some p) })
    ]

unfoldable pub add_equipment : Inventory → ℕ → ℤ → Option (Bool × Inventory)
add_equipment s p (negsuc n) = some (false, s)
add_equipment s p (pos position) =
    if not (is_valid_position position) then some (false, s) else elim (equipment_at s position) [
      | none ↦ none
      | some there ↦ elim there [
        | some q ↦ some (false, s)
        | none ↦ some (true, record s { equipments = update s.equipments position (some p) })
      ]
    ]
