-- ===== src/Tests/Bag.antt =====
-- Runs of zerosugar/xr/server/game/instance/entity/component/inventory_component.cpp: a bag with one
-- potion in slot 3.
use zerosugar.Prelude.{
  ℕ, ◌<◌, ◌≤◌, ◌≡◌, ◌≢◌, refl, true, false, none, some, List, [], arith, ◌⊎◌, if◌then◌else◌, ◌==◌,
  ltb,
}
use zerosugar.Prelude.Int.{pos}
use zerosugar.Inventory.{
  in_equipment, Inventory, Item, equip, unequip, shift, add_item, has_empty_slot, first_empty,
  default_item, inventory_size, equip_position_count,
}
use zerosugar.Inventory.Valid.{IsValid}
use zerosugar.Inventory.Move.{Exchanged, equip_exchanges, unequip_exchanges, unequip-equip}
use zerosugar.Inventory.Refuse.{count_leaves_array}
use zerosugar.Inventory.Bag.{FullBelow, add_item_cases, shift_exchanges}
use zerosugar.Inventory.Stack.{stacks_from, stackable_size, can_stack_item, stack_item}
use zerosugar.Inventory.Stack.Laws.{added, Grows, stack_item-can_stack_item}
use zerosugar.Inventory.Stack.Writes.{Stacked, Separate, Written, Names}
use zerosugar.Inventory.Change.{spinning, item_add, item_add_spins, item_add_ends}

abbrev potion : Item
potion = record default_item { item_id = 9; item_data_id = 2000001; quantity = 28; slot = pos 3 }

abbrev bag : Inventory
bag = record {
  character_id = 1;
  items = λ k. if k == 9 then some potion else none;
  inventory = λ k. if k == 3 then some 9 else none;
  equipments = λ k. none;
  item_logs = [];
}

bag-IsValid : IsValid bag
bag-IsValid = record { bag = λ i p e. ground arith; worn = λ i p e. ground arith }

equip_exchanges_example :
    (s' : Inventory) × (equip bag (pos 1) (pos 3) ≡ some (true, s'))
    × IsValid s'
    × Exchanged bag s' 3 1
equip_exchanges_example = equip_exchanges bag 1 3 9 bag-IsValid (omega arith) refl

unequip-equip_example :
    (s' s'' : Inventory) × (equip bag (pos 1) (pos 3) ≡ some (true, s'))
    × (unequip s' (pos 1) (pos 3) ≡ some (true, s''))
    × IsValid s''
    × ((k : ℕ) → s''.inventory k ≡ bag.inventory k)
    × ((k : ℕ) → s''.equipments k ≡ bag.equipments k)
unequip-equip_example = unequip-equip bag 1 3 9 bag-IsValid (omega arith) refl

-- The potion in hand.
abbrev dressed : Inventory
dressed = record bag {
  items =
      λ k. if k == 9 then some (record potion { slot = pos 1; slot_type = in_equipment }) else none;
  inventory = λ k. none;
  equipments = λ k. if k == 1 then some 9 else none;
}

dressed-IsValid : IsValid dressed
dressed-IsValid = record { bag = λ i p e. ground arith; worn = λ i p e. ground arith }

unequip_exchanges_example :
    (s' : Inventory) × (unequip dressed (pos 1) (pos 3) ≡ some (true, s'))
    × IsValid s'
    × Exchanged dressed s' 3 1
unequip_exchanges_example = unequip_exchanges dressed 1 3 9 dressed-IsValid (omega arith) refl

count_leaves_array_example :
    (equip bag (pos equip_position_count) (pos 3) ≡ none)
    × (unequip bag (pos equip_position_count) (pos 3) ≡ none)
count_leaves_array_example = count_leaves_array bag 3 9 (omega arith) refl

add_item_cases_example :
    (FullBelow bag inventory_size
      × (has_empty_slot bag ≡ false)
      × (add_item bag 10 2000002 5 ≡ (false, bag)))
    ⊎ ((j : ℕ) × (s' : Inventory) × (j < inventory_size)
        × (bag.inventory j ≡ none)
        × FullBelow bag j
        × (has_empty_slot bag ≡ true)
        × (add_item bag 10 2000002 5 ≡ (true, s'))
        × IsValid s'
        × ((k : ℕ) → s'.inventory k ≡ (if k == j then some 10 else bag.inventory k)))
add_item_cases_example = add_item_cases bag 10 2000002 5 bag-IsValid refl

shift_exchanges_example :
    (s' : Inventory) × (shift bag (pos 3) (pos 5) ≡ some (true, s'))
    × IsValid s'
    × ((k : ℕ)
        → s'.inventory k ≡ (
            if k == 5
            then bag.inventory 3
            else if k == 3
            then bag.inventory 5
            else bag.inventory k))
    × ((k : ℕ) → s'.equipments k ≡ bag.equipments k)
shift_exchanges_example = shift_exchanges bag 3 5 9 bag-IsValid (omega arith) refl

two_fit : can_stack_item bag 2000001 5 ≡ some (true, 2)
unfolding can_stack_item stacks_from stackable_size
two_fit = refl

stack_item-can_stack_item_example :
    (0 < 2)
    × (2 ≤ 5)
    × (changes : List (Item × ℕ)) × (s' : Inventory) × (stack_item bag 2000001 2 ≡ some (true, s'))
    × Stacked bag 2000001 changes
    × Separate changes
    × Grows changes
    × (added changes ≡ 2)
    × Written s' changes
    × ((k : ℕ) → Names k changes ⊎ (s'.items k ≡ bag.items k))
    × (s'.inventory ≡ bag.inventory)
    × (s'.equipments ≡ bag.equipments)
stack_item-can_stack_item_example =
    stack_item-can_stack_item bag 2000001 5 2 bag-IsValid (omega arith) two_fit

abbrev full_bag : Inventory
full_bag = record bag {
  items =
      λ k. some (record default_item { item_id = k; item_data_id = 1; quantity = 1; slot = pos k });
  inventory = λ k. if ltb k inventory_size then some k else none;
}

no_room : has_empty_slot full_bag ≡ false
unfolding has_empty_slot first_empty
no_room = refl

no_stack : can_stack_item full_bag 1 5 ≡ some (false, 0)
unfolding can_stack_item
no_stack = refl

item_add_spins_example : item_add 1000 full_bag 50 1 5 ≡ spinning
item_add_spins_example = item_add_spins 1000 full_bag 50 1 5 0 (omega arith) no_stack no_room

some_room : has_empty_slot bag ≡ true
unfolding has_empty_slot first_empty
some_room = refl

item_add_ends_example : item_add 6 bag 50 2000001 5 ≢ spinning
item_add_ends_example = item_add_ends 6 bag 50 2000001 5 some_room (omega arith)
