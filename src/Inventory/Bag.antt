-- ===== src/Inventory/Bag.antt =====
-- `AddItem`, `RemoveItem` and `ShiftItem` of
-- zerosugar/xr/server/game/instance/entity/component/inventory_component.cpp.
use native.Mathlib.Decide.{dec_lt}
use zerosugar.Prelude.{
  [], ◌∷◌, ◌++◌, ℕ, zero, suc, ◌+◌, ◌<◌, ◌≤◌, ◌≡◌, ◌≢◌, refl, true, false, Option, some, none, ◌⊎◌,
  inl, inr, arith, Option-cases, if◌then◌else◌, ◌==◌,
}
use zerosugar.Prelude.Int.{pos}
use zerosugar.Inventory.{
  Inventory, Item, inventory_size, in_inventory, first_empty, has_empty_slot, add_item, placed_in,
  remove_item_log, remove_item, shift, shift_onto, update,
}
use zerosugar.Inventory.Valid.{IsValid}
use zerosugar.Inventory.Move.{Placed-item, shift_onto-IsValid}

-- A slot is this one, which is taken, or a later one.
full_from :
    (inventory : ℕ → Option ℕ) (i p k : ℕ)
    → inventory i ≡ some p
    → i ≤ k
    → (i + 1 ≤ k → inventory k ≢ none)
    → inventory k ≢ none
full_from inventory i p k e lo later = elim (dec_lt i k) [
  | yes more ↦ later (omega arith)
  | no same ↦ let here : k ≡ i = omega arith in rw here (λ h. cc)
]

first_empty_cases :
    (inventory : ℕ → Option ℕ) (n i : ℕ)
    → ((first_empty inventory n i ≡ none) × ((k : ℕ) → i ≤ k → k < i + n → inventory k ≢ none))
      ⊎ ((j : ℕ) × (first_empty inventory n i ≡ some j)
          × (i ≤ j)
          × (j < i + n)
          × (inventory j ≡ none)
          × ((k : ℕ) → i ≤ k → k < j → inventory k ≢ none))
unfolding first_empty
first_empty_cases inventory zero i = inl (refl, λ k p q. absurd (omega arith))
first_empty_cases inventory (suc n) i = elim (Option-cases (inventory i)) [
  | inl e ↦ inr (i, ground arith, omega arith, omega arith, e, λ k p q. absurd (omega arith))
  | inr (p, e) ↦ elim (first_empty_cases inventory n (i + 1)) [
    | inl (none_left, all) ↦ inl (
      ground (arith, none_left),
      λ k lo hi. full_from inventory i p k e lo (λ lo'. all k lo' (omega arith)),
    )
    | inr (j, found, lo, hi, free, before) ↦ inr (
      j,
      ground (arith, found),
      omega arith,
      omega arith,
      free,
      λ k lo' hi'. full_from inventory i p k e lo' (λ after. before k after hi'),
    )
  ]
]

-- The slots of the bag that hold nothing, and those before a slot that hold something.
abbrev pub FullBelow : Inventory → ℕ → Type 0
FullBelow s j = (k : ℕ) → k < j → s.inventory k ≢ none

-- `AddItem` of a new id, when the arrays and the items agree: with a full bag it answers false and changes nothing; else the item goes to
-- the first empty slot, every other slot stays, and the arrays and the items agree again.
pub add_item_cases :
    (s : Inventory) (id data_id quantity : ℕ)
    → IsValid s
    → s.items id ≡ none
    → (FullBelow s inventory_size
        × (has_empty_slot s ≡ false)
        × (add_item s id data_id quantity ≡ (false, s)))
      ⊎ ((j : ℕ) × (s' : Inventory) × (j < inventory_size)
          × (s.inventory j ≡ none)
          × FullBelow s j
          × (has_empty_slot s ≡ true)
          × (add_item s id data_id quantity ≡ (true, s'))
          × IsValid s'
          × ((k : ℕ) → s'.inventory k ≡ (if k == j then some id else s.inventory k)))
unfolding add_item has_empty_slot
add_item_cases s id data_id quantity v new = elim (first_empty_cases s.inventory inventory_size 0) [
  | inl (e, all) ↦
      inl ((λ k p. all k (omega arith) (omega arith)), ground (arith, e), ground (arith, e))
  | inr (j, e, _, hi, free, before) ↦ inr (
    j,
    placed_in s id data_id quantity j,
    hi,
    free,
    (λ k p. before k (omega arith) p),
    ground (arith, e),
    ground (arith, e),
    record { bag = λ k r q. ground (arith, v.bag k r); worn = λ k r q. ground (arith, v.worn k r) },
    λ k. refl,
  )
]

-- When the arrays and the items agree, `RemoveItem` of a slot that holds an item succeeds, takes the
-- item away and empties the slot; nothing else changes place, and the agreement is kept.
pub remove_item_lem :
    (s : Inventory) (slot p : ℕ)
    → IsValid s
    → s.inventory slot ≡ some p
    → (s' : Inventory) × (remove_item s (pos slot) ≡ some (true, s'))
      × IsValid s'
      × (s'.items p ≡ none)
      × ((k : ℕ) → s'.inventory k ≡ (if k == slot then none else s.inventory k))
      × ((k : ℕ) → s'.equipments k ≡ s.equipments k)
unfolding remove_item
remove_item_lem s slot p v i =
    let (r, placed) = v.bag slot p i in
    let (a, e, id, _, _) = Placed-item s in_inventory slot p placed in
    (
      record s {
        items = update s.items a.item_id none;
        inventory = update s.inventory slot none;
        item_logs = s.item_logs ++ (remove_item_log a.item_id ∷ []);
      },
      ground arith,
      record {
        bag = λ k q h. ground (arith, v.bag k q, v.bag slot p);
        worn = λ k q h. ground (arith, v.worn k q, v.bag slot p);
      },
      ground arith,
      (λ k. refl),
      λ k. refl,
    )

shift_step :
    (s : Inventory) (src dest p : ℕ) (a : Item) (s' : Inventory)
    → src < inventory_size
    → dest < inventory_size
    → s.inventory src ≡ some p
    → s.items p ≡ some a
    → shift_onto s src dest p a (s.inventory dest) ≡ some (true, s')
    → shift s (pos src) (pos dest) ≡ some (true, s')
unfolding shift
shift_step s src dest p a s' r d i e h = ground arith

shift_onto-swaps :
    (s s' : Inventory) (src dest p : ℕ) (a : Item) (there : Option ℕ)
    → s.inventory src ≡ some p
    → s.inventory dest ≡ there
    → shift_onto s src dest p a there ≡ some (true, s')
    → ((k : ℕ)
        → s'.inventory k ≡ (
            if k == dest
            then s.inventory src
            else if k == src
            then s.inventory dest
            else s.inventory k))
      × ((k : ℕ) → s'.equipments k ≡ s.equipments k)
unfolding shift_onto
shift_onto-swaps s s' src dest p a none i n h = (λ k. ground arith, λ k. ground arith)
shift_onto-swaps s s' src dest p a (some o) i n h = (λ k. ground arith, λ k. ground arith)

-- When the arrays and the items agree, `ShiftItem` of a slot that holds an item succeeds, exchanges
-- the two slots, leaves every other place as it is, and keeps the agreement.
pub shift_exchanges :
    (s : Inventory) (src dest p : ℕ)
    → IsValid s
    → dest < inventory_size
    → s.inventory src ≡ some p
    → (s' : Inventory) × (shift s (pos src) (pos dest) ≡ some (true, s'))
      × IsValid s'
      × ((k : ℕ)
          → s'.inventory k ≡ (
              if k == dest
              then s.inventory src
              else if k == src
              then s.inventory dest
              else s.inventory k))
      × ((k : ℕ) → s'.equipments k ≡ s.equipments k)
shift_exchanges s src dest p v d i =
    let (r, placed) = v.bag src p i in
    let (a, e, _, _, _) = Placed-item s in_inventory src p placed in
    let (s', h, v') = shift_onto-IsValid s src dest p a (s.inventory dest) v d i e refl in
    let (x, y) = shift_onto-swaps s s' src dest p a (s.inventory dest) i refl h in
    (s', shift_step s src dest p a s' r d i e h, v', x, y)
