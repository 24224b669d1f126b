-- ===== src/Coordination/LoadBalancer/Members.antt =====
-- `Add`, `Update` and `Remove` of
-- zerosugar/xr/service/coordination/load_balance/load_balancer.cpp.
use zerosugar.Prelude.{
  count, count-append, count-erase, ℕ, ◌+◌, ◌≡◌, ◌≢◌, ◌⊎◌, refl, ◌==◌, Bool, true, false, Option,
  none, some, [], ◌∷◌, if◌then◌else◌, arith, Option-cases, Bool-cases, inl, inr, ◌-◌,
}
use zerosugar.Coordination.LoadBalancer.{
  StatusCategory, healthy, moderate, busy, invalid, same_category, ServerStatus, LoadBalancer,
  get_category, default_status, add, update, remove, moved, add_to, remove_from,
}

same_category_eq : (c d : StatusCategory) → same_category c d ≡ true → c ≡ d
same_category_eq healthy healthy h = refl
same_category_eq moderate moderate h = refl
same_category_eq busy busy h = refl
same_category_eq invalid invalid h = refl
same_category_eq healthy moderate h = cc
same_category_eq healthy busy h = cc
same_category_eq healthy invalid h = cc
same_category_eq moderate healthy h = cc
same_category_eq moderate busy h = cc
same_category_eq moderate invalid h = cc
same_category_eq busy healthy h = cc
same_category_eq busy moderate h = cc
same_category_eq busy invalid h = cc
same_category_eq invalid healthy h = cc
same_category_eq invalid moderate h = cc
same_category_eq invalid busy h = cc

count-add_to :
    {Memory : Type 0} (s : LoadBalancer Memory) (c d : StatusCategory) (id j : ℕ)
    → count j ((add_to s c id).members d)
      ≡ count j (s.members d) + (if same_category d c then (if id == j then 1 else 0) else 0)
count-add_to s c d id j = elim (Bool-cases (same_category d c)) [
  | inl same ↦
      let e : d ≡ c = same_category_eq d c same in
      rw same (rw e (omega (arith, count-append j (s.members c) (id ∷ []))))
  | inr other ↦ rw other (omega arith)
]

count-remove_from :
    {Memory : Type 0} (s : LoadBalancer Memory) (c d : StatusCategory) (id j : ℕ)
    → count j ((remove_from s c id).members d) ≡ (
        if same_category d c
        then (if j == id then count j (s.members d) - 1 else count j (s.members d))
        else count j (s.members d))
count-remove_from s c d id j = elim (Bool-cases (same_category d c)) [
  | inl same ↦
      let e : d ≡ c = same_category_eq d c same in rw same (rw e (count-erase id j (s.members c)))
  | inr other ↦ rw other refl
]

module _ {Memory : Type 0} (is_negative : Memory → Bool) where
  -- How often a server is to stand in a category.
  abbrev pub expected : Option (ServerStatus Memory) → StatusCategory → ℕ
  expected none c = 0
  expected (some status) c = if same_category c (get_category is_negative status) then 1 else 0

  -- A server with a status stands in the category of its status, once; else it stands nowhere.
  abbrev pub IsValid : LoadBalancer Memory → Type 0
  IsValid s = (c : StatusCategory) (id : ℕ) → count id (s.members c) ≡ expected (s.statuses id) c

  -- `Remove` of a server that is there answers true, and takes away its status and its membership, and
  -- nobody else's; of one that is not there, it answers false and changes nothing. It keeps every
  -- server in the category of its status, once.
  pub remove_server_cases :
      (s : LoadBalancer Memory) (id : ℕ)
      → IsValid s
      → let (done, s') = remove is_negative s id in
        IsValid s'
        × (s'.statuses id ≡ none)
        × ((j : ℕ) → j ≢ id → s'.statuses j ≡ s.statuses j)
        × (((s.statuses id ≡ none) × (done ≡ false) × (s' ≡ s))
            ⊎ ((status : ServerStatus Memory) × (s.statuses id ≡ some status) × (done ≡ true)))
  unfolding remove
  remove_server_cases s id v = elim (Option-cases (s.statuses id)) [
    | inl e ↦ rw (e, remove) (v, e, (λ j ne. refl), inl (refl, refl, refl))
    | inr (status, e) ↦
        rw (e, remove)
          (
            (λ c j.
                ground
                  (arith, e, count-remove_from s (get_category is_negative status) c id j, v c j)),
            ground arith,
            (λ j ne. ground arith),
            inr (status, refl, refl),
          )
  ]

  -- `Update` of a server that is there gives it the new status and moves it to the category of this
  -- status; of one that is not there, it answers false and changes nothing. Nobody else's status
  -- changes, and every server stays in the category of its status, once.
  pub update_server_cases :
      (s : LoadBalancer Memory) (id : ℕ) (status : ServerStatus Memory)
      → IsValid s
      → let (done, s') = update is_negative s id status in
        IsValid s'
        × ((j : ℕ) → j ≢ id → s'.statuses j ≡ s.statuses j)
        × (((s.statuses id ≡ none) × (done ≡ false) × (s' ≡ s))
            ⊎ ((old : ServerStatus Memory) × (s.statuses id ≡ some old)
                × (done ≡ true)
                × (s'.statuses id ≡ some status)))
  unfolding update
  update_server_cases s id status v = elim (Option-cases (s.statuses id)) [
    | inl e ↦ rw (e, update) (v, (λ j ne. refl), inl (refl, refl, refl))
    | inr (old, e) ↦
        rw (e, update)
          ((λ c j. moves old e c j), (λ j ne. ground arith), inr (old, refl, refl, ground arith))
  ]
    where
      moves :
          (old : ServerStatus Memory)
          → s.statuses id ≡ some old
          → (c : StatusCategory) (j : ℕ)
          → let s' : LoadBalancer Memory =
              moved is_negative s
                (get_category is_negative old)
                (get_category is_negative status)
                id in
            count j (s'.members c) ≡ expected (if j == id then some status else s.statuses j) c
      moves old e c j =
          let a = get_category is_negative old in
          let b = get_category is_negative status in
          elim (Bool-cases (same_category a b)) [
            | inl same ↦
                let q : a ≡ b = same_category_eq a b same in rw same (ground (arith, e, v c j, q))
            | inr other ↦ rw other (
                ground (
                  arith,
                  e,
                  v c j,
                  count-remove_from s a c id j,
                  count-add_to (remove_from s a id) b c id j,
                ))
          ]

module _ {Memory : Type 0} (is_negative : Memory → Bool) (default_memory : Memory) where
  -- `Add` of a server that is not there makes it a member of the category of the default status; of one
  -- that is there, it answers false and changes nothing. Nobody else's status changes, and every
  -- server stands in the category of its status, once.
  pub add_server_cases :
      (s : LoadBalancer Memory) (id : ℕ)
      → IsValid is_negative s
      → let (done, s') = add is_negative default_memory s id in
        IsValid is_negative s'
        × ((j : ℕ) → j ≢ id → s'.statuses j ≡ s.statuses j)
        × (((s.statuses id ≡ none)
              × (done ≡ true)
              × (s'.statuses id ≡ some (default_status is_negative default_memory)))
            ⊎ ((status : ServerStatus Memory) × (s.statuses id ≡ some status)
                × (done ≡ false)
                × (s' ≡ s)))
  unfolding add
  add_server_cases s id v = elim (Option-cases (s.statuses id)) [
    | inr (status, e) ↦ rw (e, add) (v, (λ j ne. refl), inr (status, refl, refl, refl))
    | inl e ↦
        let c = get_category is_negative (default_status is_negative default_memory) in
        rw (e, add)
          (
            (λ d j. ground (arith, e, v d j, count-add_to s c d id j)),
            (λ j ne. ground arith),
            inl (refl, refl, ground arith),
          )
  ]
