-- ===== src/Scheduler/Fifo/Refine.antt =====
-- The scheduler of zerosugar/xr/server/game/instance/task/game_task_scheduler.cpp as a family of
-- queues, one for each controller.
use zerosugar.Prelude.{
  if◌then◌else◌, ◌==◌, ◌≢◌, sym, true, false, ◌+◌, ◌-◌, ==_self, ℕ, ◌<◌, ◌≡◌, refl, ◌∙◌, none, some,
  List, ◌∷◌, arith, count, Bool-cases, Option-cases, inl, inr, ◌⊎◌,
}
use zerosugar.Scheduler.Process.{controller, Task, running, Scheduler}
use zerosugar.Scheduler.Run.{
  Step, schedules, adds_controller, removes_controller, adds_entity, removes_entity, finishes,
  completes, shuts_down, joins, reorders, Reach, begins, goes_on, add_controller, remove_controller,
  add_entity, remove_entity, finish, on_complete, settled, next_start, join,
}
use zerosugar.Scheduler.Resources.{is_empty}
use zerosugar.Scheduler.Place.{IsStanding, Place-IsStanding}
use zerosugar.Scheduler.Held.{IsSafe}
use zerosugar.Scheduler.Complete.{counts-IsSafe}
use zerosugar.Scheduler.Safety.{Reach-IsSafe}
use zerosugar.Scheduler.Fifo.{
  pending, IsIdle, Frame, Frame-refl, Frame-pending, Frame-IsIdle, if-Frame, next_start-Frame,
}
use zerosugar.Scheduler.Fifo.Take.{finish-pending, finish-Frame, running-IsIdle, finish_lem}
use zerosugar.Scheduler.Fifo.Settle.{settled-Frame, settled_own}
use zerosugar.Scheduler.Fifo.Open.{
  add_controller-Becomes, add_controller_same, leaves_now, remove_controller-Becomes,
}
use zerosugar.Scheduler.Fifo.Spec.{
  if_same, Follows, Answers, is_process, opened, other_cases, frame_answer, nobody_answer,
  schedule_answer,
}

add_answer :
    (s : Scheduler) (i id : ℕ)
    → IsSafe s
    → ((j : ℕ) → IsIdle s j)
    → let t : Scheduler = add_controller s (controller i) in
      (pending t id
        ≡ (if id == i then opened (s.queues (controller i)) (pending s id) else pending s id))
      × IsIdle t id
add_answer s i id safe idle = elim (Option-cases (s.queues (controller i))) [
  | inl e ↦
      let b = add_controller-Becomes s i safe e in
      elim (other_cases id i) [
        | inl same ↦ rw (same, ==_self i, e) (b.pends, b.idle)
        | inr (ne, other) ↦
            rw other
              (frame_answer s (add_controller s (controller i)) id (b.frames id ne) (idle id))
      ]
  | inr (queue, e) ↦
      rw (add_controller_same s i queue e, e, if_same (id == i) (pending s id)) (refl, idle id)
]

remove_answer :
    (s : Scheduler) (i id : ℕ)
    → IsSafe s
    → ((j : ℕ) → IsIdle s j)
    → let t : Scheduler = remove_controller s (controller i) in
      (pending t id
        ≡ (if id == i then (if leaves_now s i then none else pending s id) else pending s id))
      × IsIdle t id
remove_answer s i id safe idle =
    let b = remove_controller-Becomes s i safe (idle i) in
    elim (other_cases id i) [
      | inl same ↦ rw (same, ==_self i) (b.pends, b.idle)
      | inr (ne, other) ↦
          rw other
            (frame_answer s (remove_controller s (controller i)) id (b.frames id ne) (idle id))
    ]

process_cases :
    (s : Scheduler) (id p : ℕ)
    → ((s.processes (controller id) ≡ some p) × (is_process s id p ≡ true))
      ⊎ ((s.processes (controller id) ≢ some p) × (is_process s id p ≡ false))
process_cases s id p = elim (Option-cases (s.processes (controller id))) [
  | inl e ↦ rw (e, is_process) (inr ((λ h. cc), refl))
  | inr (q, e) ↦ elim (Bool-cases (q == p)) [
    | inl same ↦ rw (e, is_process) (inl (ground (arith, same), same))
    | inr other ↦ rw (e, is_process) (inr ((λ h. ground (arith, other, h)), other))
  ]
]

finish_answer :
    (s : Scheduler) (p id : ℕ) (task : Task)
    → IsSafe s
    → IsIdle s id
    → 0 < count p (s.states running)
    → (s.objects p).task ≡ some task
    → let t : Scheduler = finish s p task in
      (((is_process s id p ≡ true)
          × ((rest : List Task) × (pending s id ≡ some (task ∷ rest)) × (pending t id ≡ some rest)))
        ⊎ ((is_process s id p ≡ false) × (pending t id ≡ pending s id)))
      × IsIdle t id
finish_answer s p id task safe idle runs has =
    let (processes, _, states, _, _) = finish_lem s p task in
    elim (process_cases s id p) [
      | inl (e, yes_) ↦ (
        inl (yes_, finish-pending s p task id e has),
        running-IsIdle s (finish s p task) p id safe runs e (rw processes refl) states,
      )
      | inr (e, no_) ↦
          let (a, b) = frame_answer s (finish s p task) id (finish-Frame s p task id e) idle in
          (inr (no_, a), b)
    ]

complete_answer :
    (limit : ℕ) (s : Scheduler) (p id : ℕ)
    → IsSafe s
    → IsIdle s id
    → 0 < count p (s.states running)
    → (s.objects p).task ≡ none
    → let t : Scheduler = on_complete limit s p in
      ((pending t id ≡ pending s id)
        ⊎ ((is_process s id p ≡ true)
            × ((s.objects p).terminate_reserved ≡ true)
            × (pending t id ≡ none)))
      × IsIdle t id
unfolding on_complete
complete_answer limit s p id safe idle runs has =
    let counts : Scheduler = record s {
      total_task_count = s.total_task_count - 1;
      complete_task_count = s.complete_task_count + 1;
    } in
    let safe' : IsSafe counts =
      counts-IsSafe s (s.total_task_count - 1) (s.complete_task_count + 1) safe in
    let here : IsStanding counts p = (Place-IsStanding (safe.valid.placed p) running runs).0 in
    let t : Scheduler = settled counts p in
    let f : Frame t (next_start limit t) id = next_start-Frame limit t id in
    let after : pending (next_start limit t) id ≡ pending t id =
      Frame-pending t (next_start limit t) id f in
    elim (process_cases s id p) [
      | inl (e, yes_) ↦
          let (a, b) = settled_own counts p safe' here id e has in
          (
            elim a [
              | inl same ↦ inl (after ∙ same)
              | inr (ends, gone) ↦ inr (yes_, ends, after ∙ gone)
            ],
            Frame-IsIdle f b,
          )
      | inr (e, no_) ↦
          let g : Frame counts t id = settled-Frame counts p safe' here id e in
          let (a, b) = frame_answer counts t id g idle in (inl (after ∙ a), Frame-IsIdle f b)
    ]

quiet-Frame :
    (s t : Scheduler) (id : ℕ)
    → t.processes ≡ s.processes
    → t.objects ≡ s.objects
    → t.queues ≡ s.queues
    → t.states ≡ s.states
    → Frame s t id
quiet-Frame s t id processes objects queues states = record {
  process = rw processes refl;
  task = λ p e. rw objects refl;
  queue = rw queues refl;
  waits = λ p e now. rw (sym states) now;
}

add_entity-Frame : (s : Scheduler) (i id : ℕ) → Frame s (add_entity s i) id
unfolding add_entity
add_entity-Frame s i id = elim (Option-cases (s.resources i)) [
  | inl e ↦ rw (e, add_entity) (quiet-Frame s _ id refl refl refl refl)
  | inr (r, e) ↦ rw (e, add_entity) (Frame-refl s id)
]

remove_entity-Frame : (s : Scheduler) (i id : ℕ) → Frame s (remove_entity s i) id
unfolding remove_entity
remove_entity-Frame s i id = quiet-Frame s _ id refl refl refl refl

join-Frame : (s : Scheduler) (id : ℕ) → Frame s (join s) id
unfolding join
join-Frame s id =
    if-Frame (is_empty (s.states running)) s s (record s { join_waits = true }) id (Frame-refl s id)
      (quiet-Frame s _ id refl refl refl refl)

still : (s : Scheduler) (id : ℕ) → IsIdle s id → (pending s id ≡ pending s id) × IsIdle s id
still s id idle = (refl, idle)

Step-answer :
    (limit : ℕ) (s t : Scheduler) (id : ℕ) (step : Step limit s t)
    → IsSafe s
    → ((j : ℕ) → IsIdle s j)
    → Answers step id
Step-answer limit s t id (schedules task none e) safe idle = nobody_answer s t id safe idle task e
Step-answer limit s t id (schedules task (some i) e) safe idle =
    schedule_answer s t id safe idle task i e
Step-answer limit s t id (adds_controller i e) safe idle = rw e (add_answer s i id safe idle)
Step-answer limit s t id (removes_controller i e) safe idle = rw e (remove_answer s i id safe idle)
Step-answer limit s t id (adds_entity i apart e) safe idle =
    rw e (frame_answer s (add_entity s i) id (add_entity-Frame s i id) (idle id))
Step-answer limit s t id (removes_entity i e) safe idle =
    rw e (frame_answer s (remove_entity s i) id (remove_entity-Frame s i id) (idle id))
Step-answer limit s t id (finishes p task runs has e) safe idle =
    rw e (finish_answer s p id task safe (idle id) runs has)
Step-answer limit s t id (completes p runs has e) safe idle =
    rw e (complete_answer limit s p id safe (idle id) runs has)
Step-answer limit s t id (shuts_down e) safe idle = rw e (still s id (idle id))
Step-answer limit s t id (joins e) safe idle =
    rw e (frame_answer s (join s) id (join-Frame s id) (idle id))
Step-answer limit s t id (reorders recycled same e) safe idle = rw e (still s id (idle id))

Reach-IsIdle : {limit : ℕ} {s : Scheduler} → Reach limit s → (id : ℕ) → IsIdle s id
Reach-IsIdle begins id = λ p e now. ground arith
Reach-IsIdle {limit} (goes_on {s} {t} before step) id =
    (Step-answer limit s t id step (Reach-IsSafe before) (Reach-IsIdle before)).1

-- The scheduler is a queue of tasks for each controller: in every state that the operations reach, with
-- the tasks of a controller being the one that its process has and those that wait behind it, in order,
-- `Schedule` puts a task at the end of the queue of its controller, if there is one and the
-- scheduler is not shut down; the end of a task takes this task off the front of the queue of its controller; `AddController`
-- opens an empty queue where there is none; `RemoveController` closes it at once unless a task
-- runs, and then the completion of the task may close it; and no operation does anything else
-- to the queue of any controller.
pub queues_follow :
    {limit : ℕ} {s t : Scheduler} (id : ℕ) (step : Step limit s t)
    → Reach limit s
    → Follows step id (pending s id) (pending t id)
queues_follow {limit} {s} {t} id step reach =
    (Step-answer limit s t id step (Reach-IsSafe reach) (Reach-IsIdle reach)).0
