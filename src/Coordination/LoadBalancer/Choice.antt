-- ===== src/Coordination/LoadBalancer/Choice.antt =====
-- `Select` of zerosugar/xr/service/coordination/load_balance/load_balancer.cpp.
use native.Mathlib.Nat.{mod-lt}
use zerosugar.Prelude.{
  ℕ, zero, suc, ◌%◌, ◌≡◌, ◌<◌, refl, Option, none, some, List, [], ◌∷◌, ◌++◌, arith, ◌⊎◌, inl, inr,
  length, get_elem?, All, ap, ◌∙◌,
}
use zerosugar.Coordination.LoadBalancer.{
  StatusCategory, healthy, moderate, busy, invalid, LoadBalancer, choose, select_from, select,
  update_at,
}

get_elem?-some : (xs : List ℕ) (i : ℕ) → i < length xs → (x : ℕ) × (get_elem? xs i ≡ some x)
get_elem?-some [] i h = absurd (omega arith)
get_elem?-some (x ∷ xs) zero h = (x, refl)
get_elem?-some (x ∷ xs) (suc i) h = get_elem?-some xs i (omega arith)

List-cases : (xs : List ℕ) → (xs ≡ []) ⊎ ((x : ℕ) × (ys : List ℕ) × (xs ≡ x ∷ ys))
List-cases [] = inl refl
List-cases (x ∷ xs) = inr (x, xs, refl)

module _ {Memory : Type 0} (s : LoadBalancer Memory) where
  abbrev pub Nobody : List StatusCategory → Type 0
  Nobody cs = All (λ c. s.members c ≡ []) cs

  -- The categories before `c`, in the order in which they are asked.
  abbrev pub Chosen : List StatusCategory → LoadBalancer Memory × Option ℕ → Type 0
  Chosen cs (s', answer) =
      (before : List StatusCategory) × (c : StatusCategory) × (after : List StatusCategory)
      × (id : ℕ) × (cs ≡ before ++ (c ∷ after))
      × Nobody before
      × (get_elem? (s.members c) (s.rr_count c % length (s.members c)) ≡ some id)
      × (answer ≡ some id)
      × (s' ≡ record s { rr_count = update_at s.rr_count c (suc (s.rr_count c)) })

  select_from_cases :
      (cs : List StatusCategory)
      → (Nobody cs × (select_from s cs ≡ (s, none))) ⊎ Chosen cs (select_from s cs)
  unfolding select_from
  select_from_cases [] = inl (tt, refl)
  select_from_cases (c ∷ cs) = elim (List-cases (s.members c)) [
    | inr (x, xs, e) ↦
        let some_members : 0 < length (s.members c) = rw e (omega arith) in
        let (id, found) =
          get_elem?-some (s.members c) (s.rr_count c % length (s.members c))
            (mod-lt (s.rr_count c) some_members) in
        let chosen : select_from s (c ∷ cs) ≡ choose s c = ground (arith, e) in
        inr (rw chosen ([], c, cs, id, refl, tt, found, found, refl))
    | inl e ↦
        let later : select_from s (c ∷ cs) ≡ select_from s cs = rw (e, select_from) refl in
        elim (select_from_cases cs) [
          | inl (nobody, same) ↦ inl ((e, nobody), later ∙ same)
          | inr (before, d, after, id, split, nobody, found, answer, next) ↦ inr (
              rw later
                (c ∷ before, d, after, id, ap (◌∷◌ c) split, (e, nobody), found, answer, next))
        ]
  ]

  -- `Select` gives no server, and changes nothing, when no category has one. Else it gives the member
  -- of the first category that has one (healthy, then moderate, busy, invalid) at the place that the
  -- category's counter has, modulo its number of members, and moves this counter on by one.
  pub select_server_cases :
      let categories = healthy ∷ moderate ∷ busy ∷ invalid ∷ [] in
      (Nobody categories × (select s ≡ (s, none))) ⊎ Chosen categories (select s)
  unfolding select
  select_server_cases = select_from_cases (healthy ∷ moderate ∷ busy ∷ invalid ∷ [])
