-- ===== src/Inventory/Stack/Writes.antt =====
-- Which items the loops of `CanStackItem` and `StackItem` in
-- zerosugar/xr/server/game/instance/entity/component/inventory_component.cpp go over, and what `StackItem`
-- writes to them.
use zerosugar.Prelude.{
  ℕ, zero, suc, ◌+◌, ◌-◌, ◌≤◌, ◌<◌, ◌≡◌, ◌≢◌, ◌==◌, refl, sym, ap, ◌∙◌, ◌++◌, some, List, [], ◌∷◌,
  arith, All, All-imp, min, inl, inr, ◌⊎◌, Option-cases, Bool-cases, leb,
}
use zerosugar.Prelude.Int.{pos}
use zerosugar.Inventory.{Inventory, Item, in_inventory, inventory_size, change_quantity, update}
use zerosugar.Inventory.Valid.{IsValid, Placed}
use zerosugar.Inventory.Stack.{stacks_from, room, plan, apply_changes}

-- An item of the bag, in a slot from `i` on, of the kind `id`.
pub record InBag (s : Inventory) (id i : ℕ) (a : Item) : Type 0 where
  pub place : ℕ
  pub after : i ≤ place
  pub within : place < inventory_size
  pub pointer : s.inventory place ≡ some a.item_id
  pub item : s.items a.item_id ≡ some a
  pub slot : a.slot ≡ pos place
  pub kind : a.item_data_id ≡ id

InBag-later : (s : Inventory) (id i : ℕ) (a : Item) → InBag s id (i + 1) a → InBag s id i a
InBag-later s id i a b = record {
  place = b.place;
  after = omega (arith, b.after);
  within = b.within;
  pointer = b.pointer;
  item = b.item;
  slot = b.slot;
  kind = b.kind;
}

-- Items of different slots are different.
InBag-apart :
    (s : Inventory) (id i : ℕ) (a b : Item)
    → s.items a.item_id ≡ some a
    → a.slot ≡ pos i
    → InBag s id (i + 1) b
    → b.item_id ≢ a.item_id
InBag-apart s id i a b there slot h same =
    let later : i + 1 ≤ h.place = h.after in
    let one : b ≡ a = some_inj (sym h.item ∙ (ap s.items same ∙ there)) in
    let places : pos h.place ≡ pos i = sym h.slot ∙ (ap (λ (x : Item). x.slot) one ∙ slot) in
    ground arith
  where
    some_inj : {x y : Item} → some x ≡ some y → x ≡ y
    some_inj e = cc

-- No two items have one id.
abbrev pub Apart : List Item → Type 0
Apart [] = Unit
Apart (a ∷ rest) = All (λ b. b.item_id ≢ a.item_id) rest × Apart rest

placed_lem :
    (s : Inventory) (i p : ℕ) (a : Item)
    → Placed s in_inventory i p
    → s.items p ≡ some a
    → (a.item_id ≡ p) × (a.slot ≡ pos i)
placed_lem s i p a h e = let (x, y, z) = rw (e, Placed) at h in (x, y)

pub stacks_from-InBag :
    (s : Inventory) (id n i : ℕ) (stacks : List Item)
    → IsValid s
    → stacks_from s id n i ≡ some stacks
    → All (InBag s id i) stacks × Apart stacks
unfolding stacks_from
stacks_from-InBag s id zero i stacks v e =
    let q : [] ≡ stacks = ground (arith, e) in rw (sym q) (tt, tt)
stacks_from-InBag s id (suc n) i stacks v e = elim (Option-cases (s.inventory i)) [
  | inl empty_ ↦
      let (here, apart) = stacks_from-InBag s id n (i + 1) stacks v (ground (arith, e, empty_)) in
      (All-imp stacks (InBag-later s id i) here, apart)
  | inr (p, there) ↦ elim (Option-cases (s.items p)) [
    | inl lost ↦ absurd (ground (arith, e, there, lost))
    | inr (a, found) ↦ elim (Bool-cases (a.item_data_id == id)) [
      | inr other ↦
          let (here, apart) =
            stacks_from-InBag s id n (i + 1) stacks v (ground (arith, e, there, found, other)) in
          (All-imp stacks (InBag-later s id i) here, apart)
      | inl it ↦ elim (Option-cases (stacks_from s id n (i + 1))) [
        | inl out ↦ absurd (ground (arith, e, there, found, it, out))
        | inr (rest, more) ↦
            let (here, apart) = stacks_from-InBag s id n (i + 1) rest v more in
            let whole : stacks ≡ a ∷ rest = ground (arith, e, there, found, it, more) in
            let (bound, placed) = v.bag i p there in
            let (key, slot) = placed_lem s i p a placed found in
            let item : s.items a.item_id ≡ some a = ap s.items key ∙ found in
            let first : InBag s id i a = record {
              place = i;
              after = omega arith;
              within = bound;
              pointer = there ∙ ap some (sym key);
              item = item;
              slot = slot;
              kind = ground (arith, it);
            } in
            rw whole (
              (first, All-imp rest (InBag-later s id i) here),
              (All-imp rest (λ b. InBag-apart s id i a b item slot) here, apart),
            )
      ]
    ]
  ]
]

-- What `apply_changes` leaves alone.
abbrev pub Misses : ℕ → List (Item × ℕ) → Type 0
Misses k [] = Unit
Misses k ((a, quantity) ∷ rest) = (a.item_id ≢ k) × Misses k rest

abbrev pub Separate : List (Item × ℕ) → Type 0
Separate [] = Unit
Separate ((a, quantity) ∷ rest) = Misses a.item_id rest × Separate rest

-- Each item of the changes is there with its new quantity, and is else as it was.
abbrev pub Written : Inventory → List (Item × ℕ) → Type 0
Written s [] = Unit
Written s ((a, quantity) ∷ rest) =
    (s.items a.item_id ≡ some (record a { quantity = quantity })) × Written s rest

plan-Misses :
    (k remain : ℕ) (stacks : List Item)
    → All (λ b. b.item_id ≢ k) stacks
    → Misses k (plan remain stacks).0
unfolding plan
plan-Misses k remain [] h = tt
plan-Misses k remain (a ∷ rest) h =
    ground (arith, h.0, plan-Misses k (remain - min (room a) remain) rest h.1)

pub plan-Separate :
    (remain : ℕ) (stacks : List Item) → Apart stacks → Separate (plan remain stacks).0
unfolding plan
plan-Separate remain [] h = tt
plan-Separate remain (a ∷ rest) h = ground (
  arith,
  plan-Separate (remain - min (room a) remain) rest h.1,
  plan-Misses a.item_id (remain - min (room a) remain) rest h.0,
)

-- The changes are to items of the bag.
abbrev pub Stacked : Inventory → ℕ → List (Item × ℕ) → Type 0
Stacked s id [] = Unit
Stacked s id ((a, quantity) ∷ rest) = InBag s id 0 a × Stacked s id rest

pub plan-Stacked :
    (s : Inventory) (id remain : ℕ) (stacks : List Item)
    → All (InBag s id 0) stacks
    → Stacked s id (plan remain stacks).0
unfolding plan
plan-Stacked s id remain [] h = tt
plan-Stacked s id remain (a ∷ rest) h =
    let further = plan-Stacked s id (remain - min (room a) remain) rest h.1 in
    elim (Bool-cases (leb remain 0)) [
      | inl done ↦ rw done tt
      | inr more ↦ elim (Bool-cases (leb (room a) 0)) [
        | inl full ↦ rw (more, full) further
        | inr fits ↦ rw (more, fits) (h.0, further)
      ]
    ]

abbrev written : Inventory → Item → ℕ → Inventory
written s a quantity = record s {
  items = update s.items a.item_id (some (record a { quantity = quantity }));
  item_logs = s.item_logs ++ (change_quantity a.item_id quantity ∷ []);
}

apply_changes-Misses :
    (s : Inventory) (k : ℕ) (changes : List (Item × ℕ))
    → Misses k changes
    → (apply_changes s changes).items k ≡ s.items k
unfolding apply_changes
apply_changes-Misses s k [] h = refl
apply_changes-Misses s k ((a, quantity) ∷ rest) h =
    apply_changes-Misses (written s a quantity) k rest h.1 ∙ ground (arith, h.0)

pub apply_changes-Written :
    (changes : List (Item × ℕ)) (s : Inventory)
    → Separate changes
    → Written (apply_changes s changes) changes
unfolding apply_changes
apply_changes-Written [] s h = tt
apply_changes-Written ((a, quantity) ∷ rest) s h = (
  apply_changes-Misses (written s a quantity) a.item_id rest h.0 ∙ ground arith,
  apply_changes-Written rest (written s a quantity) h.1,
)

-- A key that the changes do not name has its item as before, and no place of the arrays changes.
abbrev pub Names : ℕ → List (Item × ℕ) → Type 0
Names k [] = ⊥
Names k ((a, quantity) ∷ rest) = (a.item_id ≡ k) ⊎ Names k rest

pub apply_changes-Names :
    (changes : List (Item × ℕ)) (s : Inventory) (k : ℕ)
    → Names k changes ⊎ ((apply_changes s changes).items k ≡ s.items k)
unfolding apply_changes
apply_changes-Names [] s k = inr refl
apply_changes-Names ((a, quantity) ∷ rest) s k = elim (Bool-cases (k == a.item_id)) [
  | inl it ↦ inl (inl (ground (arith, it)))
  | inr other ↦ elim (apply_changes-Names rest (written s a quantity) k) [
    | inl later ↦ inl (inr later)
    | inr same ↦ inr (same ∙ ground (arith, other))
  ]
]

pub apply_changes-bag :
    (changes : List (Item × ℕ)) (s : Inventory)
    → ((apply_changes s changes).inventory ≡ s.inventory)
      × ((apply_changes s changes).equipments ≡ s.equipments)
unfolding apply_changes
apply_changes-bag [] s = (refl, refl)
apply_changes-bag ((a, quantity) ∷ rest) s = apply_changes-bag rest (written s a quantity)
