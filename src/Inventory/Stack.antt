-- ===== src/Inventory/Stack.antt =====
-- Stacking in zerosugar/xr/server/game/instance/entity/component/inventory_component.cpp:
-- `CanStackItem` and `StackItem`.
pub mod Writes
pub mod Laws
use zerosugar.Prelude.{
  ℕ, zero, suc, ◌+◌, ◌-◌, Bool, true, false, ◌||◌, Option, none, some, List, [], ◌∷◌, ◌++◌, ltb,
  leb, ◌==◌, if◌then◌else◌, min,
}
use zerosugar.Inventory.{
  Inventory, Item, Log, change_quantity, inventory_size, stackable_item_max_quantity, update,
}

-- The item ids that may be stacked.
abbrev pub stackable : ℕ → Bool
stackable id = id == 2000001 || (id == 2000002 || id == 2000003)

-- The items of the bag from slot `i` on, `n` slots, that the filter of both calls lets pass; `none`
-- for a pointer to no item.
unfoldable pub stacks_from : Inventory → ℕ → ℕ → ℕ → Option (List Item)
stacks_from s id zero i = some []
stacks_from s id (suc n) i =
    let rest : Option (List Item) = stacks_from s id n (i + 1) in
    elim (s.inventory i) [
      | none ↦ rest
      | some p ↦ elim (s.items p) [
        | none ↦ none
        | some a ↦
            if a.item_data_id == id
            then elim rest [ none ↦ none | some as_ ↦ some (a ∷ as_) ]
            else rest
      ]
    ]

-- The room that an item leaves.
abbrev pub room : Item → ℕ
room a = stackable_item_max_quantity - a.quantity

-- The loop of `CanStackItem`: how much can be stacked, up to where it is enough.
unfoldable pub stackable_size : ℕ → ℕ → List Item → ℕ
stackable_size quantity sum [] = sum
stackable_size quantity sum (a ∷ rest) =
    let further : ℕ = stackable_size quantity (sum + room a) rest in
    if leb quantity (sum + room a) then sum + room a else further

-- `CanStackItem(itemId, quantity, resultQuantity)`: the answer and `resultQuantity`, which is 0
-- where it is not set.
unfoldable pub can_stack_item : Inventory → ℕ → ℕ → Option (Bool × ℕ)
can_stack_item s id quantity =
    if stackable id
    then elim (stacks_from s id inventory_size 0) [
      | none ↦ none
      | some stacks ↦
          let size = stackable_size quantity 0 stacks in some (ltb 0 size, min size quantity)
    ]
    else some (false, 0)

-- The first loop of `StackItem`: the changes, as an item and its new quantity, and what remains.
unfoldable pub plan : ℕ → List Item → List (Item × ℕ) × ℕ
plan remain [] = ([], remain)
plan remain (a ∷ rest) =
    let (changes, left) = plan (remain - min (room a) remain) rest in
    if leb remain 0
    then ([], remain)
    else if leb (room a) 0
    then (changes, left)
    else ((a, a.quantity + min (room a) remain) ∷ changes, left)

-- The second loop.
unfoldable pub apply_changes : Inventory → List (Item × ℕ) → Inventory
apply_changes s [] = s
apply_changes s ((a, quantity) ∷ rest) =
    apply_changes
      (record s {
        items = update s.items a.item_id (some (record a { quantity = quantity }));
        item_logs = s.item_logs ++ (change_quantity a.item_id quantity ∷ []);
      })
      rest

abbrev pub no_changes : List (Item × ℕ) → Bool
no_changes [] = true
no_changes (c ∷ cs) = false

-- `StackItem(itemId, quantity)`.
unfoldable pub stack_item : Inventory → ℕ → ℕ → Option (Bool × Inventory)
stack_item s id quantity = elim (stacks_from s id inventory_size 0) [
  | none ↦ none
  | some stacks ↦
      let (changes, remain) = plan quantity stacks in
      if no_changes changes || ltb 0 remain
      then some (false, s)
      else some (true, apply_changes s changes)
]
