-- ===== src/Scheduler/Fifo/Settle.antt =====
-- What `OnComplete` does with the process, for the queue of the controller, in
-- zerosugar/xr/server/game/instance/task/game_task_scheduler.cpp.
use zerosugar.Prelude.{
  ◌≢◌, sym, subst, true, false, ℕ, ◌≡◌, refl, Option, none, some, List, [], ◌∷◌, arith, Bool-cases,
  Option-cases, inl, inr, ◌⊎◌,
}
use zerosugar.Scheduler.Process.{
  controller, temporary, ProcessId, Task, ready, waiting, Scheduler, change_state, update_id,
  exit_process,
}
use zerosugar.Scheduler.Run.{settled, queue_of, queue_id}
use zerosugar.Scheduler.Place.{IsStanding, change_state-Place}
use zerosugar.Scheduler.Valid.{IsKnown, Owns}
use zerosugar.Scheduler.Exits.{own, same_id_self}
use zerosugar.Scheduler.Held.{IsSafe}
use zerosugar.Scheduler.Fifo.{
  moved_task, emptied_task, pending_at, pending, IsIdle, Frame, Frame-trans, kept_maps, other-Frame,
}
use zerosugar.Scheduler.Fifo.Take.{
  apart_id, some_same, exit_process-Frame, exit_process_gone, none-pending, none-IsIdle,
}

-- The process takes its next task, if there is one.
abbrev taken : Scheduler → ℕ → List Task → Scheduler
taken s p [] = change_state s p waiting true none
taken s p (task ∷ rest) =
    change_state (record s { queues = update_id s.queues (queue_id (s.objects p)) (some rest) }) p
      ready true (some task)

settled_cases :
    (s : Scheduler) (p : ℕ)
    → (((queue_of s (s.objects p) ≡ none) ⊎ ((s.objects p).terminate_reserved ≡ true))
        × (settled s p ≡ exit_process s p))
      ⊎ ((queue : List Task) × (queue_of s (s.objects p) ≡ some queue)
          × (settled s p ≡ taken s p queue))
settled_cases s p = elim (Option-cases (queue_of s (s.objects p))) [
  | inl e ↦ inl (inl e, rw (e, settled) refl)
  | inr (queue, e) ↦ elim (Bool-cases (s.objects p).terminate_reserved) [
    | inl ends ↦ inl (inr ends, rw (e, ends, settled) refl)
    | inr goes ↦ inr (queue, e, taken_eq queue e goes)
  ]
]
  where
    taken_eq :
        (queue : List Task)
        → queue_of s (s.objects p) ≡ some queue
        → (s.objects p).terminate_reserved ≡ false
        → settled s p ≡ taken s p queue
    taken_eq [] e goes = rw (e, goes, settled) refl
    taken_eq (task ∷ rest) e goes = rw (e, goes, settled) refl

module _ (s : Scheduler) (p : ℕ) (safe : IsSafe s) (here : IsStanding s p) where
  queue_id_lem :
      (id : ProcessId) (queue : Option ProcessId)
      → Owns s id queue
      → (s.objects p).id ≡ id
      → (s.objects p).task_queue_id ≡ queue
      → queue_id (s.objects p) ≡ id
  queue_id_lem (controller id) queue (e, _) named same = rw (same, e) refl
  queue_id_lem (temporary id) queue (e, _) named same = rw (same, e) named

  taken-Frame :
      (queue : List Task) (j : ℕ)
      → s.processes (controller j) ≢ some p
      → Frame s (taken s p queue) j
  taken-Frame [] j apart = other-Frame s p waiting true none j apart
  taken-Frame (task ∷ rest) j apart =
      let s' : Scheduler = record s {
        queues = update_id s.queues (queue_id (s.objects p)) (some rest);
      } in
      let e : queue_id (s.objects p) ≡ (s.objects p).id =
        queue_id_lem (s.objects p).id (s.objects p).task_queue_id (own s p safe.valid here).owns
          refl refl in
      let f : Frame s s' j = record {
        process = refl;
        task = λ q e'. refl;
        queue = rw (e, apart_id s p safe here j apart) refl;
        waits = λ q e' now. now;
      } in
      Frame-trans f (other-Frame s' p ready true (some task) j apart)

  pub settled-Frame : (j : ℕ) → s.processes (controller j) ≢ some p → Frame s (settled s p) j
  settled-Frame j apart = elim (settled_cases s p) [
    | inl (_, e) ↦ subst (λ t. Frame s t j) (sym e) (exit_process-Frame s p safe here j apart)
    | inr (queue, _, e) ↦ subst (λ t. Frame s t j) (sym e) (taken-Frame queue j apart)
  ]

  module _ (id : ℕ) (e : s.processes (controller id) ≡ some p)
      (idle : (s.objects p).task ≡ none) where
    known : IsKnown s (controller id) p
    known = safe.valid.known (controller id) p e

    pending-taken :
        (queue : List Task)
        → s.queues (controller id) ≡ some queue
        → pending (taken s p queue) id ≡ pending s id
    pending-taken [] named =
        let t : Scheduler = change_state s p waiting true none in
        let (processes, queues) = kept_maps s p waiting true none in
        rw
          (
            pending_at t p id (rw processes e),
            pending_at s p id e,
            emptied_task s p waiting,
            idle,
            queues,
          )
          refl
    pending-taken (task ∷ rest) named =
        let s' : Scheduler = record s {
          queues = update_id s.queues (queue_id (s.objects p)) (some rest);
        } in
        let t : Scheduler = change_state s' p ready true (some task) in
        let (processes, queues) = kept_maps s' p ready true (some task) in
        let at : queue_id (s.objects p) ≡ controller id =
          queue_id_lem (controller id) (s.objects p).task_queue_id known.owns known.named refl in
        rw
          (
            pending_at t p id (rw processes e),
            pending_at s p id e,
            moved_task s' p ready task,
            idle,
            queues,
            at,
            same_id_self (controller id),
            named,
          )
          refl

    taken-IsIdle :
        (queue : List Task) → s.queues (controller id) ≡ some queue → IsIdle (taken s p queue) id
    taken-IsIdle [] named q e' now =
        let (processes, queues) = kept_maps s p waiting true none in
        let same : q ≡ p = some_same p q (s.processes (controller id)) e (rw (sym processes) e') in
        (rw (same, emptied_task s p waiting) refl, rw (queues, named) refl)
    taken-IsIdle (task ∷ rest) named q e' now =
        let s' : Scheduler = record s {
          queues = update_id s.queues (queue_id (s.objects p)) (some rest);
        } in
        let (processes, _) = kept_maps s' p ready true (some task) in
        let same : q ≡ p = some_same p q (s.processes (controller id)) e (rw (sym processes) e') in
        ground (arith, same, now, change_state-Place s' p ready true (some task) here waiting)

    queue_lem :
        (queue : List Task)
        → queue_of s (s.objects p) ≡ some queue
        → s.queues (controller id) ≡ some queue
    queue_lem queue found = let (at, _) = known.owns in ground (arith, found, at)

    -- The tasks of its controller are those that they were, or it ends.
    pub settled_own :
        let t : Scheduler = settled s p in
        ((pending t id ≡ pending s id)
          ⊎ (((s.objects p).terminate_reserved ≡ true) × (pending t id ≡ none)))
        × IsIdle t id
    settled_own = elim (settled_cases s p) [
      | inl (why, at) ↦
          let gone : (exit_process s p).processes (controller id) ≡ none =
            exit_process_gone s p safe here id e in
          subst
            (λ t.
              ((pending t id ≡ pending s id)
                ⊎ (((s.objects p).terminate_reserved ≡ true) × (pending t id ≡ none)))
              × IsIdle t id)
            (sym at)
            (
              inr (ends why, none-pending (exit_process s p) id gone),
              none-IsIdle (exit_process s p) id gone,
            )
      | inr (queue, found, at) ↦
          let named : s.queues (controller id) ≡ some queue = queue_lem queue found in
          subst
            (λ t.
              ((pending t id ≡ pending s id)
                ⊎ (((s.objects p).terminate_reserved ≡ true) × (pending t id ≡ none)))
              × IsIdle t id)
            (sym at) (inl (pending-taken queue named), taken-IsIdle queue named)
    ]
      where
        ends :
            (queue_of s (s.objects p) ≡ none) ⊎ ((s.objects p).terminate_reserved ≡ true)
            → (s.objects p).terminate_reserved ≡ true
        ends (inr yes_) = yes_
        ends (inl no_) = let (at, (queue, there)) = known.owns in ground (arith, no_, at, there)
