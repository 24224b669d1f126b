-- ===== src/Machine/Laws.antt =====
-- `Has`, `Find` and `Transition` of zerosugar/shared/state_machine/state_machine.h.
use mathlib.Core.List.{Mem, mem-cons_self, mem-cons_of_mem, not-mem-nil, mem-cons}
use mathlib.Core.HLevel.{⊥_prop}
use mathlib.Core.Logic.Or
use zerosugar.Prelude.{
  true, false, some, List, [], ◌∷◌, ◌≡◌, refl, arith, Bool-cases, inl, inr, ◌⊎◌, ◌≢◌, sym,
}
use zerosugar.Machine.{
  Eq, Machine, on_exit, on_enter, has, transition_of, transition, enter, in_force,
}

module _ {E : Type 0} ⦃e : Eq E⦄ where
  has-Mem : (ts : List E) (s : E) → has ts s ≡ true → Mem s ts
  unfolding has
  has-Mem [] s h = absurd (ground arith)
  has-Mem (t ∷ ts) s h = elim (Bool-cases (e.beq t s)) [
    | inl same ↦ rw ((e.beq_iff t s).0 same) mem-cons_self
    | inr other ↦ mem-cons_of_mem t (has-Mem ts s (ground (arith, other)))
  ]

  Mem-has : (ts : List E) (s : E) → Mem s ts → has ts s ≢ false
  unfolding has
  Mem-has [] s m h = absurd (not-mem-nil m)
  Mem-has (t ∷ ts) s m h = elim (Bool-cases (e.beq t s)) [
    | inl same ↦ ground (arith, same)
    | inr other ↦
        Or.elim ⊥_prop (mem-cons.0 m) (λ q. ground (arith, other, (e.beq_iff t s).1 (sym q)))
          (λ r. Mem-has ts s r (ground (arith, other)))
  ]

  -- The pointers are at one state, and every state has its list of changes.
  pub record IsValid (m : Machine E) : Type 0 where
    pub same : m.current_transition ≡ m.current_state
    pub listed :
        (s : E) → Mem s m.states → (to : List E) × (transition_of m.transitions s ≡ some to)
    pub current : (s : E) → m.current_state ≡ some s → Mem s m.states

  module _ (s now : E) (m : Machine E) (v : IsValid m) (at : m.current_state ≡ some now) where
    now_in_force :
        (to : List E) × (transition_of m.transitions now ≡ some to) × (in_force m ≡ some to)
    now_in_force =
        let (to, e) = v.listed now (v.current now at) in
        let pointer : m.current_transition ≡ some now = cc in (to, e, rw (pointer, in_force) e)

    enter_lem :
        Mem s m.states
        → (enter s m ≡ record m { current_state = some s; current_transition = some s })
    enter_lem there = let (to, e) = v.listed s there in rw (e, enter) refl

    entered-IsValid :
        Mem s m.states → IsValid (record m { current_state = some s; current_transition = some s })
    entered-IsValid there = record {
      same = refl;
      listed = v.listed;
      current = λ u e. let q : s ≡ u = ground arith in rw (sym q) there;
    }

    pub transition_lem :
        (to : List E) × (transition_of m.transitions now ≡ some to)
        × ((Mem s to
              × Mem s m.states
              × (m' : Machine E) × (transition s m ≡ some (true, m', on_exit now ∷ on_enter s ∷ []))
              × (m'.current_state ≡ some s)
              × (m'.states ≡ m.states)
              × (m'.transitions ≡ m.transitions)
              × IsValid m')
            ⊎ (((¬ Mem s to) ⊎ (¬ Mem s m.states)) × (transition s m ≡ some (false, m, []))))
    unfolding transition
    transition_lem =
        let (to, e, force) = now_in_force in
        elim (Bool-cases (has to s)) [
          | inr no_ ↦ (to, e, inr (inl (λ q. Mem-has to s q no_), rw (force, transition, no_) refl))
          | inl yes_ ↦ elim (Bool-cases (has m.states s)) [
            | inr gone ↦ (
              to,
              e,
              inr (inr (λ q. Mem-has m.states s q gone), rw (force, transition, yes_, gone) refl),
            )
            | inl there ↦
                let known : Mem s m.states = has-Mem m.states s there in
                (
                  to,
                  e,
                  inl (
                    has-Mem to s yes_,
                    known,
                    record m { current_state = some s; current_transition = some s },
                    rw (force, transition, yes_, there, at, enter_lem known) refl,
                    refl,
                    refl,
                    refl,
                    entered-IsValid known,
                  ),
                )
          ]
        ]
