-- ===== src/Scheduler/Control.antt =====
-- The other operations of the scheduler of
-- zerosugar/xr/server/game/instance/task/game_task_scheduler.cpp.
use zerosugar.Prelude.{
  ℕ, ◌<◌, ◌≡◌, refl, ◌==◌, Bool, true, false, none, some, List, [], arith, count, contains,
  Bool-cases, inl, inr, Option-cases,
}
use zerosugar.Scheduler.Process.{
  controller, ProcessState, running, ready, waiting, Scheduler, update_id, exit_process,
  new_scheduler,
}
use zerosugar.Scheduler.Resources.{targets, is_empty}
use zerosugar.Scheduler.Run.{
  add_controller, remove_controller, terminating, add_entity, remove_entity, join,
}
use zerosugar.Scheduler.Place.{Place-same, IsStanding}
use zerosugar.Scheduler.Valid.{Keeps, Keeps-IsValid, Alike-Keeps, new_scheduler-IsValid}
use zerosugar.Scheduler.Create.{create_process-IsBorn, controller-IsBorn}
use zerosugar.Scheduler.Held.{IsSafe, if-IsSafe, IsBorn-IsSafe, exit_process-IsSafe, idle-Holds}
use zerosugar.Scheduler.Loop.{quiet-IsSafe, resources-Keeps}
use zerosugar.Scheduler.Complete.{queues-IsSafe}

pub new_scheduler-IsSafe : IsSafe new_scheduler
new_scheduler-IsSafe = record {
  valid = new_scheduler-IsValid;
  holds = λ p. idle-Holds new_scheduler refl;
}

pub add_controller-IsSafe :
    (s : Scheduler) (id : ℕ) → IsSafe s → IsSafe (add_controller s (controller id))
unfolding add_controller
add_controller-IsSafe s id safe = elim (Option-cases (s.queues (controller id))) [
  | inr (queue, e) ↦ rw (e, add_controller) safe
  | inl e ↦
      let s' : Scheduler = record s { queues = update_id s.queues (controller id) (some []) } in
      let safe' : IsSafe s' = queues-IsSafe s (controller id) [] safe in
      let born = create_process-IsBorn s' (controller id) safe'.valid in
      rw (e, add_controller)
        (IsBorn-IsSafe safe' (absent e) (controller-IsBorn born)
          (ground arith, ([], rw born.queues (ground arith))))
]
  where
    absent : s.queues (controller id) ≡ none → s.processes (controller id) ≡ none
    absent e = elim (Option-cases (s.processes (controller id))) [
      | inl e' ↦ e'
      | inr (p, e') ↦
          let (_, (queue, e'')) = (safe.valid.known (controller id) p e').owns in
          ground (arith, e, e'')
    ]

terminating-IsSafe : (s : Scheduler) (p : ℕ) → IsSafe s → IsSafe (terminating s p)
terminating-IsSafe s p safe =
    quiet-IsSafe
      (Alike-Keeps
        (record { sets = λ st. refl; in_states = λ q. ground arith; kept = refl; made = refl })
        (λ q. ground arith) (λ q. ground arith) (λ id. refl) (λ id tasks e. (tasks, e))
        (omega arith))
      (λ q now. now) (λ q. ground arith) (λ q i before. before) safe

removed-IsSafe :
    (s : Scheduler) (p : ℕ) (state : ProcessState)
    → IsSafe s
    → IsStanding s p
    → IsSafe (elim state [
      | running ↦ terminating s p
      | ready ↦ exit_process s p
      | waiting ↦ exit_process s p
    ])
removed-IsSafe s p running safe here = terminating-IsSafe s p safe
removed-IsSafe s p ready safe here = exit_process-IsSafe s p safe here
removed-IsSafe s p waiting safe here = exit_process-IsSafe s p safe here

pub remove_controller-IsSafe :
    (s : Scheduler) (id : ℕ) → IsSafe s → IsSafe (remove_controller s (controller id))
unfolding remove_controller
remove_controller-IsSafe s id safe = elim (Option-cases (s.processes (controller id))) [
  | inl e ↦ rw (e, remove_controller) safe
  | inr (p, e) ↦
      rw (e, remove_controller)
        (removed-IsSafe s p (s.objects p).state safe
          (safe.valid.known (controller id) p e).standing)
]

pub add_entity-IsSafe :
    (s : Scheduler) (id : ℕ)
    → ((p : ℕ) → 0 < count p (s.states running) → contains id (targets (s.objects p).task) ≡ false)
    → IsSafe s
    → IsSafe (add_entity s id)
unfolding add_entity
add_entity-IsSafe s id apart safe = elim (Option-cases (s.resources id)) [
  | inr (r, e) ↦ rw (e, add_entity) safe
  | inl e ↦
      rw (e, add_entity)
        (record {
          valid = Keeps-IsValid (resources-Keeps s _) safe.valid;
          holds = λ q task j r now has inside there. elim (Bool-cases (j == id)) [
            | inl same ↦ ground (arith, same, apart q now, has, inside)
            | inr other ↦ safe.holds q task j r now has inside (ground (arith, other, there))
          ];
        })
]

pub remove_entity-IsSafe : (s : Scheduler) (id : ℕ) → IsSafe s → IsSafe (remove_entity s id)
unfolding remove_entity
remove_entity-IsSafe s id safe =
    quiet-IsSafe (resources-Keeps s _) (λ q now. now) (λ q. refl)
      (λ q j before r e. before r (ground (arith, e))) safe

pub flags-IsSafe :
    (s : Scheduler) (shutdown join_waits : Bool)
    → IsSafe s
    → IsSafe (record s { shutdown = shutdown; join_waits = join_waits })
flags-IsSafe s shutdown join_waits safe =
    quiet-IsSafe
      (Alike-Keeps (record { sets = λ st. refl; in_states = λ q. refl; kept = refl; made = refl })
        (λ q. refl) (λ q. refl) (λ i. refl) (λ i tasks e. (tasks, e)) (omega arith))
      (λ q now. now) (λ q. refl) (λ q i before. before) safe

pub join-IsSafe : (s : Scheduler) → IsSafe s → IsSafe (join s)
unfolding join
join-IsSafe s safe =
    if-IsSafe (is_empty (s.states running)) s (record s { join_waits = true }) safe
      (flags-IsSafe s s.shutdown true safe)

reorder-Keeps :
    (s : Scheduler) (recycled : List ℕ)
    → ((p : ℕ) → count p recycled ≡ count p s.recycled)
    → Keeps s (record s { recycled = recycled })
reorder-Keeps s recycled same = record {
  places = λ q. Place-same (record { stood = λ st. refl; object = refl }) (same q) refl;
  stays = λ q here. here;
  stood = λ q here. here;
  ids = λ q. refl;
  queue_ids = λ q. refl;
  processes = λ id. refl;
  queued = λ id tasks e. (tasks, e);
  temporaries = omega arith;
}

pub reorder-IsSafe :
    (s : Scheduler) (recycled : List ℕ)
    → ((p : ℕ) → count p recycled ≡ count p s.recycled)
    → IsSafe s
    → IsSafe (record s { recycled = recycled })
reorder-IsSafe s recycled same safe =
    quiet-IsSafe (reorder-Keeps s recycled same) (λ q now. now) (λ q. refl) (λ q i before. before)
      safe
