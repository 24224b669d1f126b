-- ===== src/Machine.antt =====
-- zerosugar/shared/state_machine/state_machine.h: a machine of state objects, each with the states
-- that it may change to. A state object is known by its `GetState()`; `_currentState` and
-- `_currentTransition` point at the object and at the list of one state.
pub mod Laws
pub mod Built
use zerosugar.Prelude.{
  Bool, true, false, not, Option, none, some, List, [], ◌∷◌, ◌++◌, if◌then◌else◌, ◌≡◌, ◌↔◌,
}

-- The comparison of a scoped enumeration.
pub record Eq (E : Type 0) : Type 0 where
  pub beq : E → E → Bool
  pub beq_iff : (a b : E) → (beq a b ≡ true) ↔ (a ≡ b)

pub record Machine (E : Type 0) : Type 0 where
  pub current_state : Option E
  pub current_transition : Option E
  pub states : List E
  pub transitions : List (E × List E)

-- The calls of `OnExit` and `OnEnter`.
pub data Hook (E : Type 0) : Type 0 where
  on_exit : E → Hook E
  on_enter : E → Hook E

module _ {E : Type 0} ⦃e : Eq E⦄ where
  -- `std::ranges::find`, on the states of a `StateTransition` and of the machine.
  unfoldable pub has : List E → E → Bool
  has [] s = false
  has (t ∷ ts) s = if e.beq t s then true else has ts s

  -- `_transitions.find`.
  unfoldable pub transition_of : List (E × List E) → E → Option (List E)
  transition_of [] s = none
  transition_of ((t, to) ∷ ts) s = if e.beq t s then some to else transition_of ts s

  unfoldable pub add_to : List (E × List E) → E → E → List (E × List E)
  add_to [] from s = []
  add_to ((t, to) ∷ ts) from s =
      if e.beq t from then (t, to ++ (s ∷ [])) ∷ ts else (t, to) ∷ add_to ts from s

abbrev pub fresh : {E : Type 0} → Machine E
fresh = record { current_state = none; current_transition = none; states = []; transitions = [] }

module _ {E : Type 0} ⦃e : Eq E⦄ where
  -- `AddState`: `try_emplace` keeps a list that is there.
  unfoldable pub add_state : Bool → E → Machine E → Machine E
  unfolding transition_of
  add_state set_current s m =
      let transitions : List (E × List E) = elim (transition_of m.transitions s) [
        | none ↦ m.transitions ++ ((s, []) ∷ [])
        | some to ↦ m.transitions
      ] in
      if set_current
      then record {
        current_state = some s;
        current_transition = some s;
        states = m.states ++ (s ∷ []);
        transitions = transitions;
      }
      else record m { states = m.states ++ (s ∷ []); transitions = transitions }

  -- `StateTransition::Add`, on the list that `AddState` returned.
  unfoldable pub add_transition : E → E → Machine E → Machine E
  unfolding add_to
  add_transition from to m = record m { transitions = add_to m.transitions from to }

  -- What `_currentTransition` points to.
  abbrev pub in_force : Machine E → Option (List E)
  in_force m = elim m.current_transition [ none ↦ none | some c ↦ transition_of m.transitions c ]

  -- `_currentState` and `_currentTransition` are set to what `Find` answers.
  abbrev pub enter : E → Machine E → Machine E
  enter s m = record m {
    current_state = some s;
    current_transition = elim (transition_of m.transitions s) [ none ↦ none | some to ↦ some s ];
  }

  -- `Transition`: the answer, the machine, and the hooks in the order in which they run. `none` stands
  -- for a call through a null pointer: both pointers are null until a state is added as the current one,
  -- and a null `_currentTransition` is asserted and then dereferenced.
  unfoldable pub transition : E → Machine E → Option (Bool × Machine E × List (Hook E))
  unfolding has transition_of
  transition s m = elim (in_force m) [
    | none ↦ none
    | some to ↦
        if not (has to s)
        then some (false, m, [])
        else if not (has m.states s)
        then some (false, m, [])
        else elim m.current_state [
          | none ↦ none
          | some old ↦ some (true, enter s m, on_exit old ∷ on_enter s ∷ [])
        ]
  ]
