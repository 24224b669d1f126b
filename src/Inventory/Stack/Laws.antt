-- ===== src/Inventory/Stack/Laws.antt =====
-- `CanStackItem` and `StackItem` of
-- zerosugar/xr/server/game/instance/entity/component/inventory_component.cpp together.
use zerosugar.Prelude.{
  ℕ, ◌+◌, ◌-◌, ◌≤◌, ◌<◌, ◌≡◌, true, false, some, List, [], ◌∷◌, arith, min, inl, inr, ◌⊎◌,
  Option-cases,
}
use zerosugar.Inventory.{Inventory, Item, inventory_size, stackable_item_max_quantity}
use zerosugar.Inventory.Stack.{
  stacks_from, room, stackable_size, can_stack_item, plan, apply_changes, no_changes, stack_item,
}
use zerosugar.Inventory.Valid.{IsValid}
use zerosugar.Inventory.Stack.Writes.{
  Stacked, Separate, Written, Names, stacks_from-InBag, plan-Separate, plan-Stacked,
  apply_changes-Written, apply_changes-Names, apply_changes-bag,
}

abbrev pub rooms : List Item → ℕ
rooms [] = 0
rooms (a ∷ rest) = room a + rooms rest

-- The loop of `CanStackItem` finds the room that there is, or enough.
stackable_size_lem :
    (quantity sum : ℕ) (stacks : List Item)
    → sum ≤ quantity
    → min (stackable_size quantity sum stacks) quantity ≡ min (sum + rooms stacks) quantity
unfolding stackable_size
stackable_size_lem quantity sum [] h = omega arith
stackable_size_lem quantity sum (a ∷ rest) h =
    ground (arith, stackable_size_lem quantity (sum + room a) rest)

-- The plan of `StackItem` leaves what does not fit.
plan_remain : (remain : ℕ) (stacks : List Item) → (plan remain stacks).1 ≡ remain - rooms stacks
unfolding plan
plan_remain remain [] = omega arith
plan_remain remain (a ∷ rest) = ground (arith, plan_remain (remain - min (room a) remain) rest)

plan_some :
    (remain : ℕ) (stacks : List Item)
    → 0 < remain
    → 0 < rooms stacks
    → no_changes (plan remain stacks).0 ≡ false
unfolding plan
plan_some remain [] r h = absurd (omega arith)
plan_some remain (a ∷ rest) r h = ground (arith, plan_some (remain - min (room a) remain) rest)

-- What the changes of a plan add up to, over the quantities of their items.
abbrev pub added : List (Item × ℕ) → ℕ
added [] = 0
added ((a, quantity) ∷ rest) = quantity - a.quantity + added rest

-- Each change makes a stack larger, and no larger than a stack may be.
abbrev pub Grows : List (Item × ℕ) → Type 0
Grows [] = Unit
Grows ((a, quantity) ∷ rest) =
    (a.quantity < quantity) × (quantity ≤ stackable_item_max_quantity) × Grows rest

plan-Grows : (remain : ℕ) (stacks : List Item) → Grows (plan remain stacks).0
unfolding plan
plan-Grows remain [] = tt
plan-Grows remain (a ∷ rest) = ground (arith, plan-Grows (remain - min (room a) remain) rest)

plan_changes :
    (remain : ℕ) (stacks : List Item)
    → added (plan remain stacks).0 + (plan remain stacks).1 ≡ remain
unfolding plan
plan_changes remain [] = omega arith
plan_changes remain (a ∷ rest) = ground (arith, plan_changes (remain - min (room a) remain) rest)

pub stack_item-plan :
    (s : Inventory) (id quantity result : ℕ)
    → 0 < quantity
    → can_stack_item s id quantity ≡ some (true, result)
    → (0 < result)
      × (result ≤ quantity)
      × (stacks : List Item) × (stacks_from s id inventory_size 0 ≡ some stacks)
      × (stack_item s id result ≡ some (true, apply_changes s (plan result stacks).0))
      × (added (plan result stacks).0 ≡ result)
unfolding can_stack_item stack_item
stack_item-plan s id quantity result q h = elim (Option-cases (stacks_from s id inventory_size 0)) [
  | inl e ↦ absurd (ground (arith, e))
  | inr (stacks, e) ↦
      let size : min (stackable_size quantity 0 stacks) quantity ≡ result = ground (arith, e) in
      let some_size : 0 < stackable_size quantity 0 stacks = ground (arith, e) in
      let fits : result ≤ rooms stacks =
        omega (arith, stackable_size_lem quantity 0 stacks (omega arith)) in
      let positive : 0 < result = omega arith in
      let done : (plan result stacks).1 ≡ 0 = omega (arith, plan_remain result stacks) in
      (
        positive,
        omega arith,
        stacks,
        e,
        ground (arith, e, done, plan_some result stacks positive (omega arith)),
        omega (arith, plan_changes result stacks),
      )
]

-- When `CanStackItem` of a bag that agrees with its items answers true with a quantity, that quantity is
-- positive and no more than asked for, and `StackItem` of it succeeds. It changes items that lie in
-- slots of the bag and have the data id asked for, each once, and each to a larger quantity within
-- the limit, and these add up to exactly the quantity. Afterwards each of them is there with its new
-- quantity and is else as before, every other item is as before, and so are the arrays.
pub stack_item-can_stack_item :
    (s : Inventory) (id quantity result : ℕ)
    → IsValid s
    → 0 < quantity
    → can_stack_item s id quantity ≡ some (true, result)
    → (0 < result)
      × (result ≤ quantity)
      × (changes : List (Item × ℕ)) × (s' : Inventory) × (stack_item s id result ≡ some (true, s'))
      × Stacked s id changes
      × Separate changes
      × Grows changes
      × (added changes ≡ result)
      × Written s' changes
      × ((k : ℕ) → Names k changes ⊎ (s'.items k ≡ s.items k))
      × (s'.inventory ≡ s.inventory)
      × (s'.equipments ≡ s.equipments)
stack_item-can_stack_item s id quantity result v q h =
    let (positive, bounded, stacks, e, ok, sum) = stack_item-plan s id quantity result q h in
    let (here, apart) = stacks_from-InBag s id inventory_size 0 stacks v e in
    let changes : List (Item × ℕ) = (plan result stacks).0 in
    let separate : Separate changes = plan-Separate result stacks apart in
    let (bag, worn) = apply_changes-bag changes s in
    (
      positive,
      bounded,
      changes,
      apply_changes s changes,
      ok,
      plan-Stacked s id result stacks here,
      separate,
      plan-Grows result stacks,
      sum,
      apply_changes-Written changes s separate,
      apply_changes-Names changes s,
      bag,
      worn,
    )
