-- ===== src/Scheduler/Run.antt =====
-- What the game instance does with the scheduler. A task runs on the executor and comes back on the
-- strand: between the two the strand may do anything else, so that the end of a task is two
-- operations, `finish` and `on_complete`, with the task's own `Complete` in between.
use zerosugar.Prelude.{
  ℕ, ◌+◌, ◌-◌, ◌<◌, ◌≡◌, true, false, ◌&&◌, Option, none, some, List, [], ◌∷◌, ◌++◌, if◌then◌else◌,
  ltb, leb, length, max, count, contains,
}
use zerosugar.Scheduler.Process.{
  ProcessId, controller, temporary, Task, running, ready, waiting, Process, Resource, Scheduler,
  new_scheduler, update, update_id, change_state, create_process, exit_process,
}
use zerosugar.Scheduler.Resources.{
  is_empty, can_start, reserve_resource, allocate_resource, deallocate_resource, targets,
}

-- `ChangeState` to running and `Start`: the task is posted to the executor.
abbrev pub started : Scheduler → ℕ → Scheduler
started s p = allocate_resource (change_state s p running false none) p

-- A waiting process gets its task, and starts if it can.
abbrev pub wake : Scheduler → ℕ → Task → Scheduler
wake s p task =
    let s' : Scheduler = change_state s p ready true (some task) in
    if can_start s' p then started s' p else s'

-- The `switch` of `Schedule`; `none` where a queue that is looked up is not there.
unfoldable pub assign : Scheduler → ℕ → Task → Option Scheduler
assign s p task =
    let queued : Option Scheduler = elim (s.queues (s.objects p).id) [
      | none ↦ none
      | some queue ↦
          some (record s {
            queues = update_id s.queues (s.objects p).id (some (queue ++ (task ∷ [])));
          })
    ] in
    elim (s.objects p).state [ running ↦ queued | ready ↦ queued | waiting ↦ some (wake s p task) ]

abbrev pub counted : Scheduler → Scheduler
counted s = record s { total_task_count = s.total_task_count + 1 }

-- `Schedule` of a task that `Prepare` has let pass, for a controller or for nobody.
unfoldable pub submit : Scheduler → Task → Option ProcessId → Option Scheduler
submit s task (some id) = elim (s.processes id) [
  | none ↦ some s
  | some p ↦ assign (counted s) p task
]
submit s task none =
    let id : ℕ = s.next_temp_process_id + 1 in
    let (p, s') = create_process (record s { next_temp_process_id = id }) (temporary id) in
    assign (counted s') p task

-- `Schedule(task, controllerId)`; the task is what `Prepare` leaves of it, if it lets it pass.
unfoldable pub schedule : Scheduler → Option Task → Option ProcessId → Option Scheduler
schedule s task id =
    if s.shutdown then some s else elim task [ none ↦ some s | some t ↦ submit s t id ]

-- `AddController(id)`.
unfoldable pub add_controller : Scheduler → ProcessId → Scheduler
add_controller s id = elim (s.queues id) [
  | some queue ↦ s
  | none ↦
      let (p, s') = create_process (record s { queues = update_id s.queues id (some []) }) id in
      record s' {
        objects = update s'.objects p (record (s'.objects p) { task_queue_id = some id });
      }
]

-- `SetTerminateReserved(true)`.
abbrev pub terminating : Scheduler → ℕ → Scheduler
terminating s p = record s {
  objects = update s.objects p (record (s.objects p) { terminate_reserved = true });
}

-- `RemoveController(id)`.
unfoldable pub remove_controller : Scheduler → ProcessId → Scheduler
remove_controller s id = elim (s.processes id) [
  | none ↦ s
  | some p ↦ elim (s.objects p).state [
    | running ↦ terminating s p
    | ready ↦ exit_process s p
    | waiting ↦ exit_process s p
  ]
]

abbrev pub new_resource : Resource
new_resource = record { assigned = false; acquired = none; reserved = [] }

-- `AddEntity(id)`: `try_emplace` keeps a resource that is there.
unfoldable pub add_entity : Scheduler → ℕ → Scheduler
add_entity s id = elim (s.resources id) [
  | none ↦ record s { resources = update s.resources id (some new_resource) }
  | some r ↦ s
]

-- `RemoveEntity(id)`.
unfoldable pub remove_entity : Scheduler → ℕ → Scheduler
remove_entity s id = record s { resources = update s.resources id none }

-- What the loop of `TryStartAll` does with a process that cannot start.
abbrev pub starved : Scheduler → ℕ → Scheduler
starved s p =
    let n : ℕ = (s.objects p).starvation_count + 1 in
    let s' : Scheduler = record s {
      objects = update s.objects p (record (s.objects p) { starvation_count = n });
    } in
    if ltb 10 n then reserve_resource s' p else s'

-- The loop, over the ready processes as they stand in the set at its begin: it takes only the
-- process at its iterator out of the set, and adds none.
unfoldable pub try_start : ℕ → ℕ → List ℕ → Scheduler → Scheduler
try_start limit concurrency [] s = s
try_start limit concurrency (p ∷ ps) s =
    let go : Scheduler = try_start limit (concurrency + 1) ps (started s p) in
    let stay : Scheduler = try_start limit concurrency ps (starved s p) in
    if leb limit concurrency then s else if can_start s p then go else stay

-- `TryStartAll`; `limit` is the concurrency of the executor.
unfoldable pub try_start_all : ℕ → Scheduler → Scheduler
unfolding try_start
try_start_all limit s = try_start (max 1 limit) (length (s.states running)) (s.states ready) s

-- The strand's part of the end of a task, up to `Complete`: `ReleaseTask`, `DeallocateResource`.
unfoldable pub finish : Scheduler → ℕ → Task → Scheduler
finish s p task =
    deallocate_resource
      (record s { objects = update s.objects p (record (s.objects p) { task = none }) }) task

-- The task queue of a process, in `OnComplete`.
abbrev pub queue_of : Scheduler → Process → Option (List Task)
queue_of s process = elim process.task_queue_id [ none ↦ none | some q ↦ s.queues q ]

abbrev pub queue_id : Process → ProcessId
queue_id process = elim process.task_queue_id [ none ↦ process.id | some q ↦ q ]

-- The process after its task: it waits, takes its next task, or ends.
abbrev pub settled : Scheduler → ℕ → Scheduler
settled s p = elim (queue_of s (s.objects p)) [
  | none ↦ exit_process s p
  | some queue ↦ if (s.objects p).terminate_reserved then exit_process s p else elim queue [
    | [] ↦ change_state s p waiting true none
    | task ∷ rest ↦
        change_state (record s { queues = update_id s.queues (queue_id (s.objects p)) (some rest) })
          p ready true (some task)
  ]
]

-- `_shutdownJoinPromise->Set()`, where somebody waits.
abbrev pub after_shutdown : Scheduler → Scheduler
after_shutdown s =
    if is_empty (s.states running) && s.join_waits then record s { joined = true } else s

-- After a process is settled.
abbrev pub next_start : ℕ → Scheduler → Scheduler
next_start limit s = if s.shutdown then after_shutdown s else try_start_all limit s

-- `OnComplete(process)`.
unfoldable pub on_complete : ℕ → Scheduler → ℕ → Scheduler
on_complete limit s p =
    let counts : Scheduler = record s {
      total_task_count = s.total_task_count - 1;
      complete_task_count = s.complete_task_count + 1;
    } in
    next_start limit (settled counts p)

-- `Shutdown`, and `Join` up to where it waits.
abbrev pub shut_down : Scheduler → Scheduler
shut_down s = record s { shutdown = true }

unfoldable pub join : Scheduler → Scheduler
join s = if is_empty (s.states running) then s else record s { join_waits = true }

-- The id that `Schedule` reads out of the controller's.
abbrev pub optional_id : Option ℕ → Option ProcessId
optional_id none = none
optional_id (some id) = some (controller id)

-- One operation on the strand. An entity that comes is no target of a task that is in the executor,
-- and a task comes back once it has been started. The objects that are kept for reuse are in a hash
-- table, which may begin with any of them.
pub data Step (limit : ℕ) (s t : Scheduler) : Type 0 where
  schedules :
      (task : Option Task) (id : Option ℕ)
      → schedule s task (optional_id id) ≡ some t
      → Step limit s t
  adds_controller : (id : ℕ) → t ≡ add_controller s (controller id) → Step limit s t
  removes_controller : (id : ℕ) → t ≡ remove_controller s (controller id) → Step limit s t
  adds_entity :
      (id : ℕ)
      → ((p : ℕ)
          → 0 < count p (s.states running)
          → contains id (targets (s.objects p).task) ≡ false)
      → t ≡ add_entity s id
      → Step limit s t
  removes_entity : (id : ℕ) → t ≡ remove_entity s id → Step limit s t
  finishes :
      (p : ℕ) (task : Task)
      → 0 < count p (s.states running)
      → (s.objects p).task ≡ some task
      → t ≡ finish s p task
      → Step limit s t
  completes :
      (p : ℕ)
      → 0 < count p (s.states running)
      → (s.objects p).task ≡ none
      → t ≡ on_complete limit s p
      → Step limit s t
  shuts_down : t ≡ shut_down s → Step limit s t
  joins : t ≡ join s → Step limit s t
  reorders :
      (recycled : List ℕ)
      → ((p : ℕ) → count p recycled ≡ count p s.recycled)
      → t ≡ record s { recycled = recycled }
      → Step limit s t

pub data Reach (limit : ℕ) : Scheduler → Type 0 where
  begins : Reach limit new_scheduler
  goes_on : {s t : Scheduler} → Reach limit s → Step limit s t → Reach limit t
