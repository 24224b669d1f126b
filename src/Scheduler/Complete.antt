-- ===== src/Scheduler/Complete.antt =====
-- The end of a task, in zerosugar/xr/server/game/instance/task/game_task_scheduler.cpp.
use zerosugar.Prelude.{
  ℕ, ◌+◌, ◌-◌, ◌<◌, ◌≡◌, ◌≢◌, refl, sym, true, none, some, List, [], ◌∷◌, arith, count, contains,
  Bool-cases, inl, inr, ◌&&◌, Option-cases,
}
use zerosugar.Scheduler.Process.{
  ProcessId, Task, running, ready, waiting, Scheduler, update_id, same_id, change_state,
}
use zerosugar.Scheduler.Resources.{for_targets, released, is_empty}
use zerosugar.Scheduler.Run.{
  finish, on_complete, settled, after_shutdown, next_start, queue_of, queue_id, try_start_all,
}
use zerosugar.Scheduler.Place.{IsStanding, Place-IsStanding}
use zerosugar.Scheduler.Targets.{for_targets-outside, for_targets-keeps}
use zerosugar.Scheduler.Valid.{Keeps, Keeps-IsValid, Alike-Keeps}
use zerosugar.Scheduler.Moves.{address_cases}
use zerosugar.Scheduler.Held.{if-IsSafe, Holds, IsSafe, parked-IsSafe, exit_process-IsSafe}
use zerosugar.Scheduler.Loop.{HeldBy, quiet-IsSafe, try_start_all-IsSafe}

finish-Keeps : (s : Scheduler) (p : ℕ) (task : Task) → Keeps s (finish s p task)
unfolding finish
finish-Keeps s p task =
    Alike-Keeps
      (record { sets = λ st. refl; in_states = λ q. ground arith; kept = refl; made = refl })
      (λ q. ground arith) (λ q. ground arith) (λ id. refl) (λ id tasks e. (tasks, e)) (omega arith)

finish_other :
    (s : Scheduler) (p q : ℕ) (task : Task)
    → q ≢ p
    → ((finish s p task).objects q).task ≡ (s.objects q).task
unfolding finish
finish_other s p q task ne = ground arith

finish_itself : (s : Scheduler) (p : ℕ) (task : Task) → ((finish s p task).objects p).task ≡ none
unfolding finish
finish_itself s p task = ground arith

finish_rest :
    (s : Scheduler) (p : ℕ) (task : Task)
    → ((finish s p task).states ≡ s.states)
      × ((finish s p task).resources ≡ for_targets released task.target_ids s.resources)
unfolding finish
finish_rest s p task = (refl, refl)

-- The entities of the task are those of no other process that runs.
pub finish-IsSafe :
    (s : Scheduler) (p : ℕ) (task : Task)
    → IsSafe s
    → 0 < count p (s.states running)
    → (s.objects p).task ≡ some task
    → IsSafe (finish s p task)
finish-IsSafe s p task safe runs has = record {
  valid = Keeps-IsValid (finish-Keeps s p task) safe.valid;
  holds = λ q. elim (address_cases q p) [ inl e ↦ rw e own | inr ne ↦ other q ne ];
}
  where
    own : Holds (finish s p task) p
    own task' id r now e inside there = ground (arith, e, finish_itself s p task)

    other : (q : ℕ) → q ≢ p → Holds (finish s p task) q
    other q ne task' id r now e inside there =
        let (states, resources) = finish_rest s p task in
        let now' : 0 < count q (s.states running) = rw (sym states) now in
        let e' : (s.objects q).task ≡ some task' = rw (sym (finish_other s p q task ne)) e in
        let there' : for_targets released task.target_ids s.resources id ≡ some r =
          rw (sym resources) there in
        elim (Bool-cases (contains id task.target_ids)) [
          | inl both ↦
              for_targets-keeps (λ x. HeldBy q r) released task.target_ids s.resources id (λ x h. h)
                (λ r0 e0.
                  let mine : r0.acquired ≡ some p = (safe.holds p task id r0 runs has both e0).1 in
                  let its : r0.acquired ≡ some q = (safe.holds q task' id r0 now' e' inside e0).1 in
                  ground (arith, mine, its, ne))
                r there'
          | inr out ↦
              safe.holds q task' id r now' e' inside
                (rw (sym (for_targets-outside released task.target_ids s.resources id out)) there')
        ]

counts-Keeps :
    (s : Scheduler) (m n : ℕ) → Keeps s (record s { total_task_count = m; complete_task_count = n })
counts-Keeps s m n =
    Alike-Keeps (record { sets = λ st. refl; in_states = λ q. refl; kept = refl; made = refl })
      (λ q. refl) (λ q. refl) (λ id. refl) (λ id tasks e. (tasks, e)) (omega arith)

pub queues-Keeps :
    (s : Scheduler) (id : ProcessId) (queue : List Task)
    → Keeps s (record s { queues = update_id s.queues id (some queue) })
queues-Keeps s id queue =
    Alike-Keeps (record { sets = λ st. refl; in_states = λ q. refl; kept = refl; made = refl })
      (λ q. refl) (λ q. refl) (λ i. refl)
      (λ i tasks e. elim (Bool-cases (same_id i id)) [
        | inl same ↦ rw same (queue, refl)
        | inr other ↦ rw other (tasks, e)
      ])
      (omega arith)

pub queues-IsSafe :
    (s : Scheduler) (id : ProcessId) (queue : List Task)
    → IsSafe s
    → IsSafe (record s { queues = update_id s.queues id (some queue) })
queues-IsSafe s id queue safe =
    quiet-IsSafe (queues-Keeps s id queue) (λ q now. now) (λ q. refl) (λ q i before. before) safe

pub counts-IsSafe :
    (s : Scheduler) (m n : ℕ)
    → IsSafe s
    → IsSafe (record s { total_task_count = m; complete_task_count = n })
counts-IsSafe s m n safe =
    quiet-IsSafe (counts-Keeps s m n) (λ q now. now) (λ q. refl) (λ q i before. before) safe

next-IsSafe :
    (s : Scheduler) (p : ℕ) (queue : List Task)
    → IsSafe s
    → IsStanding s p
    → IsSafe (elim queue [
      | [] ↦ change_state s p waiting true none
      | task ∷ rest ↦
          change_state
            (record s { queues = update_id s.queues (queue_id (s.objects p)) (some rest) })
            p
            ready
            true
            (some task)
    ])
next-IsSafe s p [] safe here = parked-IsSafe s p waiting true none refl safe here
next-IsSafe s p (task ∷ rest) safe here =
    parked-IsSafe (record s { queues = update_id s.queues (queue_id (s.objects p)) (some rest) }) p
      ready true (some task) refl (queues-IsSafe s (queue_id (s.objects p)) rest safe) here

settled-IsSafe : (s : Scheduler) (p : ℕ) → IsSafe s → IsStanding s p → IsSafe (settled s p)
settled-IsSafe s p safe here = elim (Option-cases (queue_of s (s.objects p))) [
  | inl e ↦ rw (e, settled) (exit_process-IsSafe s p safe here)
  | inr (queue, e) ↦ elim (Bool-cases (s.objects p).terminate_reserved) [
    | inl ends ↦ rw (e, ends, settled) (exit_process-IsSafe s p safe here)
    | inr goes ↦ rw (e, goes, settled) (next-IsSafe s p queue safe here)
  ]
]

joined-IsSafe : (s : Scheduler) → IsSafe s → IsSafe (record s { joined = true })
joined-IsSafe s safe =
    quiet-IsSafe
      (Alike-Keeps (record { sets = λ st. refl; in_states = λ q. refl; kept = refl; made = refl })
        (λ q. refl) (λ q. refl) (λ id. refl) (λ id tasks e. (tasks, e)) (omega arith))
      (λ q now. now) (λ q. refl) (λ q i before. before) safe

next_start-IsSafe : (limit : ℕ) (s : Scheduler) → IsSafe s → IsSafe (next_start limit s)
next_start-IsSafe limit s safe =
    if-IsSafe s.shutdown (after_shutdown s) (try_start_all limit s)
      (if-IsSafe (is_empty (s.states running) && s.join_waits) (record s { joined = true }) s
        (joined-IsSafe s safe) safe)
      (try_start_all-IsSafe limit s safe)

pub on_complete-IsSafe :
    (limit : ℕ) (s : Scheduler) (p : ℕ)
    → IsSafe s
    → 0 < count p (s.states running)
    → IsSafe (on_complete limit s p)
unfolding on_complete
on_complete-IsSafe limit s p safe runs =
    let counts : Scheduler = record s {
      total_task_count = s.total_task_count - 1;
      complete_task_count = s.complete_task_count + 1;
    } in
    next_start-IsSafe limit (settled counts p) (
      settled-IsSafe counts p
        (counts-IsSafe s (s.total_task_count - 1) (s.complete_task_count + 1) safe)
        (Place-IsStanding (safe.valid.placed p) running runs).0)
