-- ===== src/Scheduler/Fifo/Open.antt =====
-- `AddController` and `RemoveController`, for the queue of the controller, in
-- zerosugar/xr/server/game/instance/task/game_task_scheduler.cpp.
use zerosugar.Prelude.{
  if◌then◌else◌, ◌≢◌, sym, Bool, false, not, ℕ, ◌≡◌, refl, ◌∙◌, Option, none, some, List, [], arith,
  Option-cases, inl, inr,
}
use zerosugar.Scheduler.Process.{
  controller, Task, running, Scheduler, same_state, update_id, exit_process, create_process,
}
use zerosugar.Scheduler.Run.{add_controller, remove_controller, terminating}
use zerosugar.Scheduler.Births.{IsBorn}
use zerosugar.Scheduler.Create.{create_process-IsBorn, create_process-object, controller-IsBorn}
use zerosugar.Scheduler.Exits.{same_id_self}
use zerosugar.Scheduler.Held.{IsSafe}
use zerosugar.Scheduler.Complete.{queues-IsSafe}
use zerosugar.Scheduler.Submit.{state_cases}
use zerosugar.Scheduler.Fifo.{
  Frame-pending, Frame-IsIdle, pending_at, pending, IsIdle, Frame, Frame-refl, Frame-trans,
}
use zerosugar.Scheduler.Fifo.Submit.{IsBorn-Frame}
use zerosugar.Scheduler.Fifo.Take.{
  some_same, exit_process-Frame, exit_process_gone, none-pending, none-IsIdle,
}

-- What a change does to the queue of `id`, where it is the only one that changes.
pub record Becomes (s : Scheduler) (id : ℕ) (tasks : Option (List Task)) (t : Scheduler)
    : Type 0 where
  pub pends : pending t id ≡ tasks
  pub idle : IsIdle t id
  pub frames : (j : ℕ) → j ≢ id → Frame s t j

queued-Frame :
    (s : Scheduler) (id j : ℕ) (queue : Option (List Task))
    → j ≢ id
    → Frame s (record s { queues = update_id s.queues (controller id) queue }) j
queued-Frame s id j queue ne = record {
  process = refl;
  task = λ p e. refl;
  queue = ground arith;
  waits = λ p e now. now;
}

opened-Becomes :
    (s t : Scheduler) (id p : ℕ)
    → IsSafe s
    → IsBorn
        (record s { queues = update_id s.queues (controller id) (some []) })
        t
        (controller id)
        p
    → (t.objects p).task ≡ none
    → Becomes s id (some []) t
opened-Becomes s t id p safe b idle =
    let s' : Scheduler = record s { queues = update_id s.queues (controller id) (some []) } in
    let safe' : IsSafe s' = queues-IsSafe s (controller id) [] safe in
    let e : t.processes (controller id) ≡ some p =
      rw (b.processes (controller id), same_id_self (controller id)) refl in
    let queue : t.queues (controller id) ≡ some [] =
      rw (b.queues, same_id_self (controller id)) refl in
    record {
      pends = rw (pending_at t p id e, idle, queue) refl;
      idle = λ q e' now.
          let same : q ≡ p = some_same p q (t.processes (controller id)) e e' in
          (rw (same, idle) refl, rw queue refl);
      frames = λ j ne.
          Frame-trans (queued-Frame s id j (some []) ne)
            (IsBorn-Frame s' t (controller id) p j safe' (ground (arith, ne)) b).0;
    }

pub add_controller-Becomes :
    (s : Scheduler) (id : ℕ)
    → IsSafe s
    → s.queues (controller id) ≡ none
    → Becomes s id (some []) (add_controller s (controller id))
unfolding add_controller
add_controller-Becomes s id safe e =
    let s' : Scheduler = record s { queues = update_id s.queues (controller id) (some []) } in
    let safe' : IsSafe s' = queues-IsSafe s (controller id) [] safe in
    let born = create_process-IsBorn s' (controller id) safe'.valid in
    let object = create_process-object s' (controller id) in
    rw (e, add_controller)
      (opened-Becomes s _ id (create_process s' (controller id)).0 safe (controller-IsBorn born)
        (ground (arith, object)))

pub add_controller_same :
    (s : Scheduler) (id : ℕ) (queue : List Task)
    → s.queues (controller id) ≡ some queue
    → add_controller s (controller id) ≡ s
unfolding add_controller
add_controller_same s id queue e = rw (e, add_controller) refl

-- Whether the process of the controller ends as soon as the controller goes.
abbrev pub leaves_now : Scheduler → ℕ → Bool
leaves_now s id = elim (s.processes (controller id)) [
  | none ↦ false
  | some p ↦ not (same_state (s.objects p).state running)
]

terminating-Frame : (s : Scheduler) (p j : ℕ) → Frame s (terminating s p) j
terminating-Frame s p j = record {
  process = refl;
  task = λ q e. ground arith;
  queue = refl;
  waits = λ q e now. now;
}

same-Becomes :
    (s t : Scheduler) (id : ℕ)
    → IsIdle s id
    → ((j : ℕ) → Frame s t j)
    → Becomes s id (pending s id) t
same-Becomes s t id idle f = record {
  pends = Frame-pending s t id (f id);
  idle = Frame-IsIdle (f id) idle;
  frames = λ j ne. f j;
}

exit-Becomes :
    (s : Scheduler) (id p : ℕ)
    → IsSafe s
    → s.processes (controller id) ≡ some p
    → Becomes s id none (exit_process s p)
exit-Becomes s id p safe e =
    let known = safe.valid.known (controller id) p e in
    let gone = exit_process_gone s p safe known.standing id e in
    record {
      pends = none-pending (exit_process s p) id gone;
      idle = none-IsIdle (exit_process s p) id gone;
      frames = λ j ne. exit_process-Frame s p safe known.standing j (λ e'.
          let named : controller j ≡ controller id =
            sym (safe.valid.known (controller j) p e').named ∙ known.named in
          ground (arith, ne, named));
    }

pub remove_controller-Becomes :
    (s : Scheduler) (id : ℕ)
    → IsSafe s
    → IsIdle s id
    → Becomes s id
        (if leaves_now s id then none else pending s id)
        (remove_controller s (controller id))
unfolding remove_controller
remove_controller-Becomes s id safe idle = elim (Option-cases (s.processes (controller id))) [
  | inl e ↦ rw (e, leaves_now, remove_controller) (same-Becomes s s id idle (λ j. Frame-refl s j))
  | inr (p, e) ↦ elim (state_cases (s.objects p).state) [
    | inl st ↦
        rw (e, st, leaves_now, remove_controller)
          (same-Becomes s (terminating s p) id idle (terminating-Frame s p))
    | inr (inl st) ↦ rw (e, st, leaves_now, remove_controller) (exit-Becomes s id p safe e)
    | inr (inr st) ↦ rw (e, st, leaves_now, remove_controller) (exit-Becomes s id p safe e)
  ]
]
