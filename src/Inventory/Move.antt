-- ===== src/Inventory/Move.antt =====
-- `Equip` and `Unequip` of zerosugar/xr/server/game/instance/entity/component/inventory_component.cpp.
use zerosugar.Prelude.{
  ℕ, ◌==◌, if◌then◌else◌, ◌<◌, ◌≡◌, refl, true, Option, none, some, arith, Option-cases, inl, inr,
}
use zerosugar.Prelude.Int.{pos}
use zerosugar.Inventory.{
  Inventory, Item, SlotType, in_inventory, in_equipment, inventory_size, equip_position_count,
  equip, equip_onto, equip_put, equip_swap, unequip_put, unequip_swap, shift_put, shift_swap,
  unequip, unequip_onto, shift_onto,
}
use zerosugar.Inventory.Valid.{IsValid, Placed}

-- An item that is pointed to is there.
pub Placed-item :
    (s : Inventory) (t : SlotType) (i p : ℕ)
    → Placed s t i p
    → (a : Item) × (s.items p ≡ some a) × (a.item_id ≡ p) × (a.slot ≡ pos i) × (a.slot_type ≡ t)
Placed-item s t i p h = elim (Option-cases (s.items p)) [
  | inl e ↦ absurd (rw (e, Placed) at h)
  | inr (a, e) ↦ let (x, y, z) = rw (e, Placed) at h in (a, e, x, y, z)
]

equip_onto-IsValid :
    (s : Inventory) (dest src p : ℕ) (a : Item) (there : Option ℕ)
    → IsValid s
    → dest < equip_position_count
    → s.inventory src ≡ some p
    → s.items p ≡ some a
    → s.equipments dest ≡ there
    → (s' : Inventory) × (equip_onto s dest src p a there ≡ some (true, s')) × IsValid s'
unfolding equip_onto
equip_onto-IsValid s dest src p a none v d i e n = (
  equip_put s dest src p a,
  refl,
  record {
    bag = λ k r q. ground (arith, v.bag k r, v.bag src p);
    worn = λ k r q. ground (arith, v.worn k r, v.bag src p);
  },
)
equip_onto-IsValid s dest src p a (some o) v d i e n =
    let (b, f, _, _, _) = Placed-item s in_equipment dest o (v.worn dest o n).1 in
    (
      equip_swap s dest src p a o b,
      rw (f, equip_onto) refl,
      record {
        bag = λ k r q. ground (arith, v.bag k r, v.bag src p, v.worn dest o);
        worn = λ k r q. ground (arith, v.worn k r, v.bag src p, v.worn dest o);
      },
    )

unequip_onto-IsValid :
    (s : Inventory) (src dest p : ℕ) (a : Item) (there : Option ℕ)
    → IsValid s
    → dest < inventory_size
    → s.equipments src ≡ some p
    → s.items p ≡ some a
    → s.inventory dest ≡ there
    → (s' : Inventory) × (unequip_onto s src dest p a there ≡ some (true, s')) × IsValid s'
unfolding unequip_onto
unequip_onto-IsValid s src dest p a none v d i e n = (
  unequip_put s src dest p a,
  refl,
  record {
    bag = λ k r q. ground (arith, v.bag k r, v.worn src p);
    worn = λ k r q. ground (arith, v.worn k r, v.worn src p);
  },
)
unequip_onto-IsValid s src dest p a (some o) v d i e n =
    let (b, f, _, _, _) = Placed-item s in_inventory dest o (v.bag dest o n).1 in
    (
      unequip_swap s src dest p a o b,
      rw (f, unequip_onto) refl,
      record {
        bag = λ k r q. ground (arith, v.bag k r, v.worn src p, v.bag dest o);
        worn = λ k r q. ground (arith, v.worn k r, v.worn src p, v.bag dest o);
      },
    )

pub shift_onto-IsValid :
    (s : Inventory) (src dest p : ℕ) (a : Item) (there : Option ℕ)
    → IsValid s
    → dest < inventory_size
    → s.inventory src ≡ some p
    → s.items p ≡ some a
    → s.inventory dest ≡ there
    → (s' : Inventory) × (shift_onto s src dest p a there ≡ some (true, s')) × IsValid s'
unfolding shift_onto
shift_onto-IsValid s src dest p a none v d i e n = (
  shift_put s src dest p a,
  refl,
  record {
    bag = λ k r q. ground (arith, v.bag k r, v.bag src p);
    worn = λ k r q. ground (arith, v.worn k r, v.bag src p);
  },
)
shift_onto-IsValid s src dest p a (some o) v d i e n =
    let (b, f, _, _, _) = Placed-item s in_inventory dest o (v.bag dest o n).1 in
    (
      shift_swap s src dest p a o b,
      rw (f, shift_onto) refl,
      record {
        bag = λ k r q. ground (arith, v.bag k r, v.bag src p, v.bag dest o);
        worn = λ k r q. ground (arith, v.worn k r, v.bag src p, v.bag dest o);
      },
    )

-- Two places have exchanged what they hold, and all others are as they were.
abbrev pub Exchanged : Inventory → Inventory → ℕ → ℕ → Type 0
Exchanged s s' slot position =
    ((k : ℕ) → s'.inventory k ≡ (if k == slot then s.equipments position else s.inventory k))
    × ((k : ℕ) → s'.equipments k ≡ (if k == position then s.inventory slot else s.equipments k))

equip_step :
    (s : Inventory) (dest src p : ℕ) (a : Item) (s' : Inventory)
    → dest < equip_position_count
    → src < inventory_size
    → s.inventory src ≡ some p
    → s.items p ≡ some a
    → equip_onto s dest src p a (s.equipments dest) ≡ some (true, s')
    → equip s (pos dest) (pos src) ≡ some (true, s')
unfolding equip
equip_step s dest src p a s' d r i e h = ground arith

equip_onto-Exchanged :
    (s s' : Inventory) (dest src p : ℕ) (a : Item) (there : Option ℕ)
    → s.inventory src ≡ some p
    → s.equipments dest ≡ there
    → equip_onto s dest src p a there ≡ some (true, s')
    → Exchanged s s' src dest
unfolding equip_onto
equip_onto-Exchanged s s' dest src p a none i n h = (λ k. ground arith, λ k. ground arith)
equip_onto-Exchanged s s' dest src p a (some o) i n h = (λ k. ground arith, λ k. ground arith)

-- When the arrays and the items agree, `Equip` of an item in the bag at a position of the body
-- succeeds, exchanges the two places, and keeps the agreement.
pub equip_exchanges :
    (s : Inventory) (dest src p : ℕ)
    → IsValid s
    → dest < equip_position_count
    → s.inventory src ≡ some p
    → (s' : Inventory) × (equip s (pos dest) (pos src) ≡ some (true, s'))
      × IsValid s'
      × Exchanged s s' src dest
equip_exchanges s dest src p v d i =
    let (r, placed) = v.bag src p i in
    let (a, e, _, _, _) = Placed-item s in_inventory src p placed in
    let (s', h, v') = equip_onto-IsValid s dest src p a (s.equipments dest) v d i e refl in
    (
      s',
      equip_step s dest src p a s' d r i e h,
      v',
      equip_onto-Exchanged s s' dest src p a (s.equipments dest) i refl h,
    )

unequip_step :
    (s : Inventory) (src dest p : ℕ) (a : Item) (s' : Inventory)
    → src < equip_position_count
    → dest < inventory_size
    → s.equipments src ≡ some p
    → s.items p ≡ some a
    → unequip_onto s src dest p a (s.inventory dest) ≡ some (true, s')
    → unequip s (pos src) (pos dest) ≡ some (true, s')
unfolding unequip
unequip_step s src dest p a s' d r i e h = ground arith

unequip_onto-Exchanged :
    (s s' : Inventory) (src dest p : ℕ) (a : Item) (there : Option ℕ)
    → s.equipments src ≡ some p
    → s.inventory dest ≡ there
    → unequip_onto s src dest p a there ≡ some (true, s')
    → Exchanged s s' dest src
unfolding unequip_onto
unequip_onto-Exchanged s s' src dest p a none i n h = (λ k. ground arith, λ k. ground arith)
unequip_onto-Exchanged s s' src dest p a (some o) i n h = (λ k. ground arith, λ k. ground arith)

-- When the arrays and the items agree, `Unequip` of an item on the body into a slot of the bag
-- succeeds, exchanges the two places, and keeps the agreement.
pub unequip_exchanges :
    (s : Inventory) (src dest p : ℕ)
    → IsValid s
    → dest < inventory_size
    → s.equipments src ≡ some p
    → (s' : Inventory) × (unequip s (pos src) (pos dest) ≡ some (true, s'))
      × IsValid s'
      × Exchanged s s' dest src
unequip_exchanges s src dest p v d i =
    let (r, placed) = v.worn src p i in
    let (a, e, _, _, _) = Placed-item s in_equipment src p placed in
    let (s', h, v') = unequip_onto-IsValid s src dest p a (s.inventory dest) v d i e refl in
    (
      s',
      unequip_step s src dest p a s' r d i e h,
      v',
      unequip_onto-Exchanged s s' src dest p a (s.inventory dest) i refl h,
    )

-- `Equip` of an item in the bag, then `Unequip` of the same position into the same slot: both succeed,
-- every place of the bag and of the body holds what it held before, and the arrays and the items
-- still agree.
pub unequip-equip :
    (s : Inventory) (dest src p : ℕ)
    → IsValid s
    → dest < equip_position_count
    → s.inventory src ≡ some p
    → (s' s'' : Inventory) × (equip s (pos dest) (pos src) ≡ some (true, s'))
      × (unequip s' (pos dest) (pos src) ≡ some (true, s''))
      × IsValid s''
      × ((k : ℕ) → s''.inventory k ≡ s.inventory k)
      × ((k : ℕ) → s''.equipments k ≡ s.equipments k)
unequip-equip s dest src p v d i =
    let (s', h, v', (x, y)) = equip_exchanges s dest src p v d i in
    let (r, _) = v.bag src p i in
    let (s'', h', v'', (x', y')) = unequip_exchanges s' dest src p v' r (ground (arith, y dest)) in
    (
      s',
      s'',
      h,
      h',
      v'',
      λ k. ground (arith, x k, y dest, x' k),
      λ k. ground (arith, y k, x src, y' k),
    )
