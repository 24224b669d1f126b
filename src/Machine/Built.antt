-- ===== src/Machine/Built.antt =====
-- The machines that calls of `AddState`, `StateTransition::Add` and `Transition` of
-- zerosugar/shared/state_machine/state_machine.h make out of a new one.
use mathlib.Core.List.{
  Mem, mem-append, mem-append_left, mem-append_right, not-mem-nil, mem-cons, mem-cons_self,
}
use mathlib.Core.Logic.Or
use mathlib.Core.HLevel.{⊥_prop}
use zerosugar.Prelude.{
  Bool, true, false, none, some, Option-cases, List, [], ◌∷◌, ◌++◌, ◌≡◌, refl, arith, inl, inr, ◌⊎◌,
  sym, ◌∙◌,
}
use zerosugar.Machine.{
  Eq, Machine, Hook, on_exit, on_enter, fresh, add_state, add_transition, add_to, transition_of,
  transition,
}
use zerosugar.Machine.Laws.{IsValid, transition_lem}

module _ {E : Type 0} ⦃e : Eq E⦄ where
  -- One call: a state that is new or not, a change that is allowed, a `Transition` that answers.
  pub data Built : Machine E → Type 0 where
    start : Built fresh
    with_state :
        {m : Machine E} (set_current : Bool) (s : E) → Built m → Built (add_state set_current s m)
    with_transition : {m : Machine E} (from to : E) → Built m → Built (add_transition from to m)
    changed :
        {m m' : Machine E} {answer : Bool} {hooks : List (Hook E)} (s : E)
        → Built m
        → transition s m ≡ some (answer, m', hooks)
        → Built m'

  transition_of-add_to :
      (ts : List (E × List E)) (from to u : E)
      → transition_of (add_to ts from to) u ≡ none
      → transition_of ts u ≡ none
  unfolding transition_of add_to
  transition_of-add_to [] from to u h = refl
  transition_of-add_to ((t, l) ∷ ts) from to u h =
      ground (arith, h, transition_of-add_to ts from to u)

  transition_of-append :
      (ts us : List (E × List E)) (u : E)
      → transition_of (ts ++ us) u ≡ none
      → (transition_of ts u ≡ none) × (transition_of us u ≡ none)
  unfolding transition_of
  transition_of-append [] us u h = (refl, h)
  transition_of-append ((t, l) ∷ ts) us u h = ground (arith, h, transition_of-append ts us u)

  add_transition-IsValid :
      (from to : E) (m : Machine E) → IsValid m → IsValid (add_transition from to m)
  unfolding add_transition
  add_transition-IsValid from to m v = record {
    same = v.same;
    listed = λ u h. elim (Option-cases (transition_of (add_to m.transitions from to) u)) [
      | inr there ↦ there
      | inl gone ↦
          let (l, known) = v.listed u h in
          absurd (ground (arith, known, transition_of-add_to m.transitions from to u gone))
    ];
    current = v.current;
  }

  -- The lists of changes after `AddState`.
  abbrev extended : E → Machine E → List (E × List E)
  extended s m = elim (transition_of m.transitions s) [
    | none ↦ m.transitions ++ ((s, []) ∷ [])
    | some to ↦ m.transitions
  ]

  extended_new :
      (s : E) (m : Machine E)
      → transition_of m.transitions s ≡ none
      → extended s m ≡ m.transitions ++ ((s, []) ∷ [])
  extended_new s m h = rw (h, extended) refl

  extended_old :
      (s : E) (to : List E) (m : Machine E)
      → transition_of m.transitions s ≡ some to
      → extended s m ≡ m.transitions
  extended_old s to m h = rw (h, extended) refl

  extended-none :
      (s u : E) (m : Machine E)
      → IsValid m
      → Mem u (m.states ++ (s ∷ []))
      → transition_of (extended s m) u ≡ none
      → ⊥
  unfolding transition_of
  extended-none s u m v h gone =
      Or.elim ⊥_prop (mem-append.0 h) (λ old. let (l, known) = v.listed u old in known_none l known)
        (λ new.
          Or.elim ⊥_prop (mem-cons.0 new) (λ q. itself (rw q at gone)) (λ no_. not-mem-nil no_))
    where
      known_none : (l : List E) → transition_of m.transitions u ≡ some l → ⊥
      known_none l known = elim (Option-cases (transition_of m.transitions s)) [
        | inl new ↦
            let (out, _) =
              transition_of-append m.transitions ((s, []) ∷ []) u
                (rw (extended_new s m new) at gone) in
            ground (arith, known, out)
        | inr (to, old) ↦
            let out : transition_of m.transitions u ≡ none = rw (extended_old s to m old) at gone in
            ground (arith, known, out)
      ]

      itself : transition_of (extended s m) s ≡ none → ⊥
      itself g = elim (Option-cases (transition_of m.transitions s)) [
        | inl new ↦
            let (_, out) =
              transition_of-append m.transitions ((s, []) ∷ []) s
                (rw (extended_new s m new) at g) in
            ground (arith, (e.beq_iff s s).1 refl, out)
        | inr (to, old) ↦
            let out : transition_of m.transitions s ≡ none = rw (extended_old s to m old) at g in
            ground (arith, old, out)
      ]

  add_state-IsValid :
      (set_current : Bool) (s : E) (m : Machine E) → IsValid m → IsValid (add_state set_current s m)
  unfolding add_state
  add_state-IsValid true s m v = record {
    same = refl;
    listed = λ u h. elim (Option-cases (transition_of (extended s m) u)) [
      | inr there ↦ there
      | inl gone ↦ absurd (extended-none s u m v h gone)
    ];
    current = λ u q.
        let same : s ≡ u = ground arith in rw (sym same) (mem-append_right m.states mem-cons_self);
  }
  add_state-IsValid false s m v = record {
    same = v.same;
    listed = λ u h. elim (Option-cases (transition_of (extended s m) u)) [
      | inr there ↦ there
      | inl gone ↦ absurd (extended-none s u m v h gone)
    ];
    current = λ u q. mem-append_left (s ∷ []) (v.current u q);
  }

  transition-none :
      (s : E) (m : Machine E) → IsValid m → m.current_state ≡ none → transition s m ≡ none
  unfolding transition
  transition-none s m v h =
      let pointer : m.current_transition ≡ none = v.same ∙ h in rw (pointer, transition) refl

  changed-IsValid :
      (s : E) (m m' : Machine E) (answer : Bool) (hooks : List (Hook E))
      → IsValid m
      → transition s m ≡ some (answer, m', hooks)
      → IsValid m'
  changed-IsValid s m m' answer hooks v h = elim (Option-cases m.current_state) [
    | inl none_ ↦ absurd (ground (arith, h, transition-none s m v none_))
    | inr (now, at) ↦ elim ((transition_lem s now m v at).2) [
      | inl (_, _, k, done, _, _, _, valid) ↦
          let same : k ≡ m' = ground (arith, h, done) in rw (sym same) valid
      | inr (_, refused) ↦ let same : m ≡ m' = ground (arith, h, refused) in rw (sym same) v
    ]
  ]

  pub Built-IsValid : {m : Machine E} → Built m → IsValid m
  Built-IsValid start = record {
    same = refl;
    listed = λ u h. absurd (not-mem-nil h);
    current = λ u q. cc;
  }
  Built-IsValid (with_state set_current s b) = add_state-IsValid set_current s _ (Built-IsValid b)
  Built-IsValid (with_transition from to b) = add_transition-IsValid from to _ (Built-IsValid b)
  Built-IsValid (changed s b h) = changed-IsValid s _ _ _ _ (Built-IsValid b) h

  -- Let a machine be made from a new one by any calls of `AddState`, `StateTransition::Add` and
  -- `Transition`, and have a current state. Then `Transition` never goes through a null pointer. It
  -- answers true exactly when the new state is among the changes of the current one and among the
  -- machine's states: then the current state is left before the new one is entered, the new one is
  -- current with its own changes in force, and the states and the changes stay. Else it answers
  -- false, nothing changes and no hook runs.
  pub transition_cases :
      (s now : E) (m : Machine E)
      → Built m
      → m.current_state ≡ some now
      → (to : List E) × (transition_of m.transitions now ≡ some to)
        × ((Mem s to
              × Mem s m.states
              × (m' : Machine E) × (transition s m ≡ some (true, m', on_exit now ∷ on_enter s ∷ []))
              × (m'.current_state ≡ some s)
              × (m'.current_transition ≡ some s)
              × (m'.states ≡ m.states)
              × (m'.transitions ≡ m.transitions)
              × Built m')
            ⊎ (((¬ Mem s to) ⊎ (¬ Mem s m.states)) × (transition s m ≡ some (false, m, []))))
  transition_cases s now m b at =
      let (to, listed, cases) = transition_lem s now m (Built-IsValid b) at in
      elim cases [
        | inl (there, known, k, done, current, states, transitions, valid) ↦ (
          to,
          listed,
          inl (
            there,
            known,
            k,
            done,
            current,
            valid.same ∙ current,
            states,
            transitions,
            changed s b done,
          ),
        )
        | inr refused ↦ (to, listed, inr refused)
      ]
