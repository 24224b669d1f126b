-- ===== src/Scheduler/Targets.antt =====
-- The loops over the targets of a task, in
-- zerosugar/xr/server/game/instance/task/game_task_scheduler.cpp.
use zerosugar.Prelude.{
  ◌∷◌, [], subst, ℕ, ◌≡◌, refl, sym, ◌==◌, true, false, Option, none, some, List, arith, contains,
  Bool-cases, inl, inr, Option-cases,
}
use zerosugar.Scheduler.Process.{Resource, update}
use zerosugar.Scheduler.Resources.{for_targets, can_acquire, all_acquire}

-- One turn of the loop over the targets.
abbrev changed : (Resource → Resource) → ℕ → (ℕ → Option Resource) → ℕ → Option Resource
changed change id resources = elim (resources id) [
  | none ↦ resources
  | some r ↦ update resources id (some (change r))
]

changed-other :
    (change : Resource → Resource) (id j : ℕ) (resources : ℕ → Option Resource)
    → (id == j) ≡ false
    → changed change id resources j ≡ resources j
changed-other change id j resources ne = elim (Option-cases (resources id)) [
  | inl e ↦ rw (e, changed) refl
  | inr (r, e) ↦ rw (e, changed) (ground arith)
]

changed-same :
    (change : Resource → Resource) (id : ℕ) (resources : ℕ → Option Resource) (r : Resource)
    → changed change id resources id ≡ some r
    → (r0 : Resource) × (resources id ≡ some r0) × (r ≡ change r0)
changed-same change id resources r = elim (Option-cases (resources id)) [
  | inl e ↦ rw (e, changed) (λ h. cc)
  | inr (r0, e) ↦ rw (e, changed) (λ h. (r0, refl, ground arith))
]

pub for_targets-outside :
    (change : Resource → Resource) (ids : List ℕ) (resources : ℕ → Option Resource) (j : ℕ)
    → contains j ids ≡ false
    → for_targets change ids resources j ≡ resources j
unfolding for_targets
for_targets-outside change [] resources j out = refl
for_targets-outside change (id ∷ ids) resources j out = elim (Bool-cases (id == j)) [
  | inl same ↦ ground (arith, same, out)
  | inr other ↦
      rw
        (for_targets-outside change ids (changed change id resources) j
          (ground (arith, other, out)))
        (changed-other change id j resources other)
]

-- Something that each change of an entity keeps.
pub for_targets-keeps :
    (P : Resource → Type 0) (change : Resource → Resource) (ids : List ℕ)
    (resources : ℕ → Option Resource) (j : ℕ)
    → ((r : Resource) → P r → P (change r))
    → ((r : Resource) → resources j ≡ some r → P r)
    → (r : Resource) → for_targets change ids resources j ≡ some r
    → P r
unfolding for_targets
for_targets-keeps P change [] resources j keeps before r e = before r e
for_targets-keeps P change (id ∷ ids) resources j keeps before r e =
    for_targets-keeps P change ids (changed change id resources) j keeps before' r e
  where
    before' : (r' : Resource) → changed change id resources j ≡ some r' → P r'
    before' r' e' = elim (Bool-cases (id == j)) [
      | inl same ↦
          let at : id ≡ j = ground (arith, same) in
          let (r0, there, e0) =
            changed-same change id resources r'
              (subst (λ x. changed change id resources x ≡ some r') (sym at) e') in
          subst P (sym e0) (keeps r0 (before r0 (rw (sym at) there)))
      | inr other ↦ before r' (rw (sym (changed-other change id j resources other)) e')
    ]

-- Something that the change of an entity brings.
pub for_targets-inside :
    (P : Resource → Type 0) (change : Resource → Resource) (ids : List ℕ)
    (resources : ℕ → Option Resource) (j : ℕ)
    → ((r : Resource) → P (change r))
    → contains j ids ≡ true
    → (r : Resource) → for_targets change ids resources j ≡ some r
    → P r
unfolding for_targets
for_targets-inside P change [] resources j brings inside r e = cc
for_targets-inside P change (id ∷ ids) resources j brings inside r e = elim (Bool-cases (id == j)) [
  | inl same ↦
      for_targets-keeps P change ids (changed change id resources) j (λ r' h. brings r')
        (λ r' e'.
          let at : id ≡ j = ground (arith, same) in
          let (r0, there, e0) =
            changed-same change id resources r'
              (subst (λ x. changed change id resources x ≡ some r') (sym at) e') in
          subst P (sym e0) (brings r0))
        r e
  | inr other ↦
      for_targets-inside P change ids (changed change id resources) j brings
        (ground (arith, inside, other)) r e
]

-- What `CanStart` has checked of each target.
pub all_acquire-at :
    (resources : ℕ → Option Resource) (p : ℕ) (ids : List ℕ) (j : ℕ)
    → all_acquire resources p ids ≡ true
    → contains j ids ≡ true
    → can_acquire p (resources j) ≡ true
unfolding all_acquire
all_acquire-at resources p [] j all inside = cc
all_acquire-at resources p (id ∷ ids) j all inside = elim (Bool-cases (id == j)) [
  | inl same ↦ ground (arith, all, same)
  | inr other ↦
      all_acquire-at resources p ids j (ground (arith, all)) (ground (arith, inside, other))
]
