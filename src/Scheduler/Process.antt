-- ===== src/Scheduler/Process.antt =====
-- The processes of the scheduler and the sets that they stand in. A process is an object at an
-- address, which the sets and the resources point at. An object whose process has ended is kept for
-- reuse: `_processesRecycleBuffer`, which is taken from the front here and is put in another order by
-- a step of its own. `_statesRecycleBuffer` keeps only nodes of a set, and is left out. The ids of
-- controllers are not negative, and those of the processes that the scheduler makes for itself are
-- below zero.
use zerosugar.Prelude.{
  ℕ, suc, ◌+◌, ◌==◌, Bool, true, false, Option, none, some, List, [], ◌∷◌, if◌then◌else◌, ltb,
  erase,
}

-- `temporary n` is the id -n.
pub data ProcessId : Type 0 where
  controller : ℕ → ProcessId
  temporary : ℕ → ProcessId

abbrev pub same_id : ProcessId → ProcessId → Bool
same_id (controller a) (controller b) = a == b
same_id (temporary a) (temporary b) = a == b
same_id _ _ = false

-- What the scheduler knows of a task; `number` tells tasks apart.
pub record Task : Type 0 where
  pub number : ℕ
  pub creation_time_point : ℕ
  pub target_ids : List ℕ

pub data ProcessState : Type 0 where
  running ready waiting : ProcessState

abbrev pub same_state : ProcessState → ProcessState → Bool
same_state running running = true
same_state ready ready = true
same_state waiting waiting = true
same_state _ _ = false

pub record Process : Type 0 where
  pub id : ProcessId
  pub task : Option Task
  pub task_queue_id : Option ProcessId
  pub priority : ℕ
  pub state : ProcessState
  pub starvation_count : ℕ
  pub terminate_reserved : Bool

-- `Process(id)`.
abbrev pub new_process : ProcessId → Process
new_process id = record {
  id = id;
  task = none;
  task_queue_id = none;
  priority = 0;
  state = waiting;
  starvation_count = 0;
  terminate_reserved = false;
}

pub record Resource : Type 0 where
  pub assigned : Bool
  pub acquired : Option ℕ
  pub reserved : List ℕ

pub record Scheduler : Type 0 where
  pub shutdown : Bool
  pub join_waits : Bool
  pub joined : Bool
  pub total_task_count : ℕ
  pub complete_task_count : ℕ
  pub next_temp_process_id : ℕ
  pub next_recycle_process_id : ℕ
  pub resources : ℕ → Option Resource
  pub queues : ProcessId → Option (List Task)
  pub processes : ProcessId → Option ℕ
  pub objects : ℕ → Process
  pub next_address : ℕ
  pub recycled : List ℕ
  pub states : ProcessState → List ℕ

-- `GameTaskScheduler(gameInstance)`; `_nextTempProcessId` is -1.
abbrev pub new_scheduler : Scheduler
new_scheduler = record {
  shutdown = false;
  join_waits = false;
  joined = false;
  total_task_count = 0;
  complete_task_count = 0;
  next_temp_process_id = 1;
  next_recycle_process_id = 0;
  resources = λ id. none;
  queues = λ id. none;
  processes = λ id. none;
  objects = λ p. new_process (controller 0);
  next_address = 0;
  recycled = [];
  states = λ state. [];
}

abbrev pub update {ℓ} : {V : Type ℓ} → (ℕ → V) → ℕ → V → ℕ → V
update f k v j = if j == k then v else f j

abbrev pub update_id {ℓ} : {V : Type ℓ} → (ProcessId → V) → ProcessId → V → ProcessId → V
update_id f k v j = if same_id j k then v else f j

abbrev pub update_state {ℓ} :
    {V : Type ℓ} → (ProcessState → V) → ProcessState → V → ProcessState → V
update_state f k v j = if same_state j k then v else f j

-- `Process::Compare`; two objects with one priority are told apart by their addresses.
abbrev pub compare_process : (ℕ → Process) → ℕ → ℕ → Bool
compare_process objects l r =
    if (objects l).priority == (objects r).priority
    then ltb l r
    else ltb (objects l).priority (objects r).priority

-- `insert` into one of the ordered sets.
unfoldable pub insert : (ℕ → Process) → ℕ → List ℕ → List ℕ
insert objects p [] = p ∷ []
insert objects p (q ∷ qs) =
    let later : List ℕ = insert objects p qs in
    if compare_process objects q p then q ∷ later else p ∷ q ∷ qs

-- `SetPriority` and `SetTask`, where `setTask` is set.
abbrev pub with_task : Process → Bool → Option Task → Process
with_task process set_task task =
    if set_task
    then elim task [
      | none ↦ record process { task = none }
      | some t ↦ record process { task = some t; priority = t.creation_time_point }
    ]
    else process

-- `extract` from the set of the process's state.
abbrev pub extracted : Scheduler → ℕ → ProcessState → List ℕ
extracted s p =
    let old : ProcessState = (s.objects p).state in
    update_state s.states old (erase p (s.states old))

-- `ChangeState(process, newState, setTask, task)`.
unfoldable pub change_state : Scheduler → ℕ → ProcessState → Bool → Option Task → Scheduler
change_state s p new set_task task =
    let objects : ℕ → Process =
      update s.objects p
        (record (with_task (s.objects p) set_task task) { state = new; starvation_count = 0 }) in
    record s {
      objects = objects;
      states = update_state (extracted s p) new (insert objects p (extracted s p new));
    }

-- `CreateProcess(id)`, on an object at the address `p`.
abbrev pub create_at : Scheduler → ProcessId → ℕ → Scheduler
create_at s id p =
    let objects : ℕ → Process = update s.objects p (new_process id) in
    record s {
      objects = objects;
      processes = update_id s.processes id (some p);
      states = update_state s.states waiting (insert objects p (s.states waiting));
    }

-- `CreateProcess(id)`.
unfoldable pub create_process : Scheduler → ProcessId → ℕ × Scheduler
create_process s id = elim s.recycled [
  | [] ↦
      (s.next_address, create_at (record s { next_address = suc s.next_address }) id s.next_address)
  | p ∷ rest ↦ (p, create_at (record s { recycled = rest }) id p)
]

-- `_processTaskQueues.erase`.
abbrev pub without_queue : Scheduler → Option ProcessId → ProcessId → Option (List Task)
without_queue s queue_id = elim queue_id [ none ↦ s.queues | some q ↦ update_id s.queues q none ]

-- `ExitProcess(process)`.
unfoldable pub exit_process : Scheduler → ℕ → Scheduler
exit_process s p =
    let process : Process = s.objects p in
    let id : ℕ = s.next_recycle_process_id + 1 in
    record s {
      next_recycle_process_id = id;
      states = extracted s p;
      queues = without_queue s process.task_queue_id;
      processes = update_id s.processes process.id none;
      objects = update s.objects p (record process { id = controller id });
      recycled = p ∷ s.recycled;
    }
