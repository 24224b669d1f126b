-- ===== src/Inventory/Change.antt =====
-- The loop of zerosugar/xr/server/game/instance/task/impl/player_item_change.cpp that gives a player a
-- number of items: `PlayerItemChange`, its case `ItemAdd`.
use zerosugar.Prelude.{
  ℕ, zero, suc, ◌-◌, ◌<◌, ◌≡◌, ◌≢◌, refl, true, false, none, some, List, [], ◌∷◌, ltb,
  if◌then◌else◌, arith, Option-cases, inl, inr, Bool-cases,
}
use zerosugar.Inventory.{Inventory, Item, has_empty_slot, add_item}
use zerosugar.Inventory.Stack.{can_stack_item, stack_item, apply_changes, plan}
use zerosugar.Inventory.Stack.Laws.{stack_item-plan}

-- `lost` where a pointer leads to no item; `spinning` where the fuel is used up.
pub data Outcome : Type 0 where
  finished : Inventory → Outcome
  lost : Outcome
  spinning : Outcome

-- A turn that cannot stack: an empty slot takes all that remains.
abbrev pub add_rest : Inventory → ℕ → ℕ → ℕ → Outcome → Outcome
add_rest s uid id remain again =
    if has_empty_slot s then finished (add_item s uid id remain).1 else again

-- `while (remain > 0)`, on fuel; `uid` is what `PublishItemUniqueId` gives.
unfoldable pub item_add : ℕ → Inventory → ℕ → ℕ → ℕ → Outcome
item_add zero s uid id remain = if ltb 0 remain then spinning else finished s
item_add (suc n) s uid id remain =
    let again : Outcome = item_add n s uid id remain in
    let turn : Outcome = elim (can_stack_item s id remain) [
      | none ↦ lost
      | some (can, result) ↦
          let stacked : Outcome = elim (stack_item s id result) [
            | none ↦ lost
            | some (added, s') ↦ item_add n s' uid id (remain - result)
          ] in
          if can then stacked else add_rest s uid id remain again
    ] in
    if ltb 0 remain then turn else finished s

has_empty_slot-apply_changes :
    (changes : List (Item × ℕ)) (s : Inventory)
    → has_empty_slot (apply_changes s changes) ≡ has_empty_slot s
unfolding apply_changes has_empty_slot
has_empty_slot-apply_changes [] s = refl
has_empty_slot-apply_changes ((a, q) ∷ rest) s = has_empty_slot-apply_changes rest _

-- Where there is something to give, nothing can be stacked and the bag is full, the loop does not end,
-- however many turns it is given.
pub item_add_spins :
    (n : ℕ) (s : Inventory) (uid id remain result : ℕ)
    → 0 < remain
    → can_stack_item s id remain ≡ some (false, result)
    → has_empty_slot s ≡ false
    → item_add n s uid id remain ≡ spinning
unfolding item_add
item_add_spins zero s uid id remain result p c e = ground arith
item_add_spins (suc n) s uid id remain result p c e =
    ground (arith, c, item_add_spins n s uid id remain result p c e)

item_add_stacked :
    (n : ℕ) (s : Inventory) (uid id remain result : ℕ)
    → 0 < remain
    → can_stack_item s id remain ≡ some (true, result)
    → (s' : Inventory) → stack_item s id result ≡ some (true, s')
    → item_add (suc n) s uid id remain ≡ item_add n s' uid id (remain - result)
unfolding item_add
item_add_stacked n s uid id remain result p c s' e = ground arith

-- With an empty slot in the bag the loop ends: more turns than there are items to give are enough.
pub item_add_ends :
    (n : ℕ) (s : Inventory) (uid id remain : ℕ)
    → has_empty_slot s ≡ true
    → remain < n
    → item_add n s uid id remain ≢ spinning
item_add_ends zero s uid id remain e h = absurd (omega arith)
item_add_ends (suc n) s uid id remain e h = elim (Bool-cases (ltb 0 remain)) [
  | inr none_left ↦ unfold item_add in λ q. ground arith
  | inl more ↦
      let some_left : 0 < remain = ground arith in
      elim (Option-cases (can_stack_item s id remain)) [
        | inl c ↦ unfold item_add in λ q. ground arith
        | inr ((false, result), c) ↦ unfold item_add in λ q. ground arith
        | inr ((true, result), c) ↦
            let (positive, within, stacks, _, done, _) =
              stack_item-plan s id remain result some_left c in
            let changes : List (Item × ℕ) = (plan result stacks).0 in
            rw (item_add_stacked n s uid id remain result some_left c _ done) (
              item_add_ends n (apply_changes s changes) uid id (remain - result)
                (rw (has_empty_slot-apply_changes changes s) e) (omega arith))
      ]
]
