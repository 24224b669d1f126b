-- ===== src/Scheduler/Fifo/Give.antt =====
-- `Schedule`, for the queue of the controller, in
-- zerosugar/xr/server/game/instance/task/game_task_scheduler.cpp.
use zerosugar.Prelude.{
  ◌≢◌, sym, subst, true, append_assoc, ap, ℕ, ◌<◌, ◌≡◌, refl, ◌∙◌, Option, none, some, List, [],
  ◌∷◌, ◌++◌, arith, count, Bool-cases, inl, inr,
}
use zerosugar.Scheduler.Process.{
  controller, Task, ready, waiting, Scheduler, change_state, same_state, update_id,
}
use zerosugar.Scheduler.Resources.{can_start}
use zerosugar.Scheduler.Run.{started, wake, assign}
use zerosugar.Scheduler.Place.{same_state_eq, Place-IsStanding, standing_lem, change_state-Place}
use zerosugar.Scheduler.Valid.{IsKnown}
use zerosugar.Scheduler.Exits.{same_id_self}
use zerosugar.Scheduler.Held.{IsSafe}
use zerosugar.Scheduler.Submit.{state_cases}
use zerosugar.Scheduler.Fifo.{
  moved_task, pending_at, in_hand, pending, IsIdle, Frame, Frame-refl, Frame-trans, Frame-pending,
  Frame-IsIdle, if-Frame, kept_maps, other-Frame, started-Frame,
}

-- One more task at the end, where there is a queue.
abbrev pub pushed : Task → Option (List Task) → Option (List Task)
pushed task none = none
pushed task (some tasks) = some (tasks ++ (task ∷ []))

-- The controller gets a task, and nobody else does.
pub record Received (s : Scheduler) (task : Task) (id : ℕ) (t : Scheduler) : Type 0 where
  pub pends : pending t id ≡ pushed task (pending s id)
  pub idle : IsIdle t id
  pub frames : (j : ℕ) → j ≢ id → Frame s t j

pub some_found : (P : Scheduler → Type 0) (t u : Scheduler) → P t → some t ≡ some u → P u
some_found P t u h e = let same : t ≡ u = cc in subst P same h

controller_eq : (i j : ℕ) → controller i ≡ controller j → i ≡ j
controller_eq i j e = cc

same_process : (p q : ℕ) (o : Option ℕ) → o ≡ some p → o ≡ some q → p ≡ q
same_process p q o a b = cc

assign_works :
    (s : Scheduler) (p : ℕ) (task : Task) (queue : List Task)
    → s.queues (s.objects p).id ≡ some queue
    → (s.objects p).state ≢ waiting
    → assign s p task
      ≡ some
          (record s { queues = update_id s.queues (s.objects p).id (some (queue ++ (task ∷ []))) })
unfolding assign
assign_works s p task queue e works = elim (state_cases (s.objects p).state) [
  | inl st ↦ rw (st, e, assign) refl
  | inr (inl st) ↦ rw (st, e, assign) refl
  | inr (inr st) ↦ ground arith
]

pub assign_waits :
    (s : Scheduler) (p : ℕ) (task : Task)
    → (s.objects p).state ≡ waiting
    → assign s p task ≡ some (wake s p task)
unfolding assign
assign_waits s p task st = rw (st, assign) refl

pub Received-Frame :
    {s t : Scheduler} {task : Task} {id : ℕ} (u : Scheduler)
    → Received s task id t
    → ((j : ℕ) → Frame t u j)
    → Received s task id u
Received-Frame {t} {id} u r f = record {
  pends = Frame-pending t u id (f id) ∙ r.pends;
  idle = Frame-IsIdle (f id) r.idle;
  frames = λ j ne. Frame-trans (r.frames j ne) (f j);
}

module _ (s : Scheduler) (p : ℕ) (task : Task) (id : ℕ) (safe : IsSafe s)
    (here : s.processes (controller id) ≡ some p) (idle : IsIdle s id) where
  known : IsKnown s (controller id) p
  known = safe.valid.known (controller id) p here

  queued : List Task → Scheduler
  queued queue = record s {
    queues = update_id s.queues (s.objects p).id (some (queue ++ (task ∷ [])));
  }

  queued-Received :
      (queue : List Task)
      → s.queues (s.objects p).id ≡ some queue
      → (s.objects p).state ≢ waiting
      → Received s task id (queued queue)
  unfolding queued
  queued-Received queue e works = record {
    pends =
        let named : s.queues (controller id) ≡ some queue = rw (sym known.named) e in
        rw
          (
            pending_at (queued queue) p id here,
            pending_at s p id here,
            named,
            known.named,
            same_id_self (controller id),
          )
          (ap some (sym (append_assoc (in_hand (s.objects p).task) queue (task ∷ []))));
    idle = λ q e' now.
        let same : q ≡ p = same_process q p (s.processes (controller id)) e' here in
        let busy : (s.objects q).state ≡ waiting =
          (Place-IsStanding (safe.valid.placed q) waiting now).1 in
        ground (arith, same, busy, works);
    frames = λ j ne. record {
      process = refl;
      task = λ q e'. refl;
      queue = rw known.named (ground arith);
      waits = λ q e' now. now;
    };
  }

  waked-Received :
      (s.objects p).state ≡ waiting → Received s task id (change_state s p ready true (some task))
  waked-Received st =
      let (none_, empty) =
        idle p here (subst (λ x. 0 < count p (s.states x)) st (standing_lem s p known.standing)) in
      let t : Scheduler = change_state s p ready true (some task) in
      let (processes, queues) = kept_maps s p ready true (some task) in
      let here' : t.processes (controller id) ≡ some p = rw processes here in
      record {
        pends =
            rw
              (
                pending_at t p id here',
                pending_at s p id here,
                moved_task s p ready task,
                none_,
                queues,
                empty,
              )
              refl;
        idle = λ q e' now.
            let same : q ≡ p =
              same_process q p (s.processes (controller id)) (rw (sym processes) e') here in
            ground (
              arith,
              same,
              now,
              change_state-Place s p ready true (some task) known.standing waiting,
            );
        frames = λ j ne. other-Frame s p ready true (some task) j (λ e'. ne (apart j e'));
      }
    where
      apart : (j : ℕ) → s.processes (controller j) ≡ some p → j ≡ id
      apart j e' =
          let same : controller j ≡ controller id =
            sym (safe.valid.known (controller j) p e').named ∙ known.named in
          controller_eq j id same

  waked : (s.objects p).state ≡ waiting → Received s task id (wake s p task)
  waked st =
      let s' : Scheduler = change_state s p ready true (some task) in
      let r : Received s task id s' = waked-Received st in
      Received-Frame (wake s p task) r (λ j.
        if-Frame (can_start s' p) s' (started s' p) s' j (started-Frame s' p j) (Frame-refl s' j))

  pub assigned : (t : Scheduler) → assign s p task ≡ some t → Received s task id t
  unfolding queued
  assigned t e =
      let (_, (queue, named)) = known.owns in
      let q : s.queues (s.objects p).id ≡ some queue = rw known.named named in
      elim (Bool-cases (same_state (s.objects p).state waiting)) [
        | inl st ↦
            let waits : (s.objects p).state ≡ waiting =
              same_state_eq (s.objects p).state waiting st in
            some_found (Received s task id) (wake s p task) t (waked waits)
              (sym (assign_waits s p task waits) ∙ e)
        | inr st ↦
            let works : (s.objects p).state ≢ waiting = λ same. ground (arith, st, same) in
            some_found (Received s task id) (queued queue) t (queued-Received queue q works)
              (sym (assign_works s p task queue q works) ∙ e)
      ]
