-- ===== src/Scheduler/Fifo/Take.antt =====
-- The end of a task and the end of a controller, for the queue of the controller, in
-- zerosugar/xr/server/game/instance/task/game_task_scheduler.cpp.
use zerosugar.Prelude.{
  ◌≢◌, sym, false, ℕ, ◌<◌, ◌≡◌, refl, ◌∙◌, Option, none, some, List, ◌∷◌, arith, count, Bool-cases,
  inl, inr,
}
use zerosugar.Scheduler.Process.{
  same_id, controller, Task, running, waiting, Scheduler, exit_process,
}
use zerosugar.Scheduler.Run.{finish}
use zerosugar.Scheduler.Place.{IsStanding, Place-IsStanding, exit_process-Same, Same}
use zerosugar.Scheduler.Exits.{own, exit_lem, queues_lem, same_id_eq, same_id_self}
use zerosugar.Scheduler.Held.{IsSafe}
use zerosugar.Scheduler.Fifo.{pending_at, behind, pending, IsIdle, Frame}

pub some_same : (p q : ℕ) (o : Option ℕ) → o ≡ some p → o ≡ some q → q ≡ p
some_same p q o a b = cc

module _ (s : Scheduler) (p : ℕ) (safe : IsSafe s) (here : IsStanding s p) where
  -- A controller that the process is not of has another id.
  pub apart_id :
      (j : ℕ)
      → s.processes (controller j) ≢ some p
      → same_id (controller j) (s.objects p).id ≡ false
  apart_id j apart = elim (Bool-cases (same_id (controller j) (s.objects p).id)) [
    | inr other ↦ other
    | inl same ↦
        let e : controller j ≡ (s.objects p).id = same_id_eq (controller j) (s.objects p).id same in
        ground (arith, apart (rw e (safe.valid.registered p here)))
  ]

  pub exit_process-Frame :
      (j : ℕ) → s.processes (controller j) ≢ some p → Frame s (exit_process s p) j
  exit_process-Frame j apart =
      let (_, _, _, processes, queues) = exit_lem s p safe.valid here in
      let other = apart_id j apart in
      record {
        process = rw (processes (controller j), other) refl;
        task = λ q e. rw ((same q e).object) refl;
        queue =
            queues (controller j)
            ∙ queues_lem s (s.objects p).id (s.objects p).task_queue_id j
                (own s p safe.valid here).owns other;
        waits = λ q e now. ground (arith, now, (same q e).stood waiting);
      }
    where
      same : (q : ℕ) → s.processes (controller j) ≡ some q → Same s (exit_process s p) q
      same q e = exit_process-Same s p q (λ at. apart (rw (sym at) e))

  pub exit_process_gone :
      (id : ℕ)
      → s.processes (controller id) ≡ some p
      → (exit_process s p).processes (controller id) ≡ none
  exit_process_gone id e =
      let (_, _, _, processes, _) = exit_lem s p safe.valid here in
      rw
        (
          processes (controller id),
          (safe.valid.known (controller id) p e).named,
          same_id_self (controller id),
        )
        refl

pub none-pending :
    (s : Scheduler) (id : ℕ) → s.processes (controller id) ≡ none → pending s id ≡ none
none-pending s id e = rw (e, pending) refl

pub none-IsIdle : (s : Scheduler) (id : ℕ) → s.processes (controller id) ≡ none → IsIdle s id
none-IsIdle s id e q e' now = ground (arith, e, e')

pub finish_lem :
    (s : Scheduler) (p : ℕ) (task : Task)
    → let t : Scheduler = finish s p task in
      (t.processes ≡ s.processes)
      × (t.queues ≡ s.queues)
      × (t.states ≡ s.states)
      × ((t.objects p).task ≡ none)
      × ((q : ℕ) → q ≢ p → (t.objects q).task ≡ (s.objects q).task)
unfolding finish
finish_lem s p task = (refl, refl, refl, ground arith, λ q ne. ground arith)

-- The end of a task takes it off the front of its controller's queue.
pub finish-pending :
    (s : Scheduler) (p : ℕ) (task : Task) (id : ℕ)
    → s.processes (controller id) ≡ some p
    → (s.objects p).task ≡ some task
    → (rest : List Task) × (pending s id ≡ some (task ∷ rest))
      × (pending (finish s p task) id ≡ some rest)
finish-pending s p task id e has =
    let t : Scheduler = finish s p task in
    let (processes, queues, _, gone, _) = finish_lem s p task in
    (
      behind (s.queues (controller id)),
      rw (pending_at s p id e, has) refl,
      rw (pending_at t p id (rw processes e), gone, queues) refl,
    )

pub finish-Frame :
    (s : Scheduler) (p : ℕ) (task : Task) (j : ℕ)
    → s.processes (controller j) ≢ some p
    → Frame s (finish s p task) j
finish-Frame s p task j apart =
    let (processes, queues, states, _, others) = finish_lem s p task in
    record {
      process = rw processes refl;
      task = λ q e. others q (λ at. apart (rw (sym at) e));
      queue = rw queues refl;
      waits = λ q e now. rw (sym states) now;
    }

-- A process that runs does not wait.
pub running-IsIdle :
    (s t : Scheduler) (p id : ℕ)
    → IsSafe s
    → 0 < count p (s.states running)
    → s.processes (controller id) ≡ some p
    → t.processes (controller id) ≡ s.processes (controller id)
    → t.states ≡ s.states
    → IsIdle t id
running-IsIdle s t p id safe runs e processes states q e' now =
    let same : q ≡ p = some_same p q (s.processes (controller id)) e (sym processes ∙ e') in
    let waits : 0 < count p (s.states waiting) = rw (sym states, sym same) now in
    let a : (s.objects p).state ≡ waiting =
      (Place-IsStanding (safe.valid.placed p) waiting waits).1 in
    let b : (s.objects p).state ≡ running =
      (Place-IsStanding (safe.valid.placed p) running runs).1 in
    ground (arith, a, b)
