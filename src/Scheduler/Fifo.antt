-- ===== src/Scheduler/Fifo.antt =====
-- The tasks of one controller in zerosugar/xr/server/game/instance/task/game_task_scheduler.cpp, as a
-- queue: the task that its process has, and those that wait behind it.
pub mod Give
pub mod Submit
pub mod Take
pub mod Settle
pub mod Open
pub mod Spec
pub mod Refine
use zerosugar.Prelude.{
  if◌then◌else◌, ◌==◌, ◌≢◌, sym, subst, Bool, true, false, leb, ltb, max, length, suc, ◌+◌, ℕ, ◌<◌,
  ◌≡◌, refl, ◌∙◌, Option, none, some, List, [], ◌∷◌, ◌++◌, arith, count, Bool-cases, Option-cases,
  inl, inr,
}
use zerosugar.Scheduler.Process.{
  controller, ProcessId, Task, ProcessState, running, ready, waiting, Scheduler, change_state,
  same_state, update,
}
use zerosugar.Scheduler.Resources.{can_start, is_empty, reserve_resource}
use zerosugar.Scheduler.Run.{started, starved, try_start, try_start_all, next_start, after_shutdown}
use zerosugar.Scheduler.Place.{
  IsStanding, Same, change_state-Same, change_state-count, count-extracted,
}
use zerosugar.Scheduler.Moves.{address_cases}

-- The task in hand, and the queue.
abbrev pub in_hand : Option Task → List Task
in_hand none = []
in_hand (some task) = task ∷ []

abbrev pub behind : Option (List Task) → List Task
behind none = []
behind (some queue) = queue

-- The tasks of a controller that is there.
abbrev pub pending : Scheduler → ℕ → Option (List Task)
pending s id = elim (s.processes (controller id)) [
  | none ↦ none
  | some p ↦ some (in_hand (s.objects p).task ++ behind (s.queues (controller id)))
]

pub pending_at :
    (s : Scheduler) (p id : ℕ)
    → s.processes (controller id) ≡ some p
    → pending s id ≡ some (in_hand (s.objects p).task ++ behind (s.queues (controller id)))
pending_at s p id e = rw (e, pending) refl

-- A process that waits has nothing to do.
abbrev pub IsIdle : Scheduler → ℕ → Type 0
IsIdle s id =
    (p : ℕ)
    → s.processes (controller id) ≡ some p
    → 0 < count p (s.states waiting)
    → ((s.objects p).task ≡ none) × (behind (s.queues (controller id)) ≡ [])

-- Between the two, nothing happens to the controller's tasks.
pub record Frame (s t : Scheduler) (id : ℕ) : Type 0 where
  pub process : t.processes (controller id) ≡ s.processes (controller id)
  pub task :
      (p : ℕ) → s.processes (controller id) ≡ some p → (t.objects p).task ≡ (s.objects p).task
  pub queue : t.queues (controller id) ≡ s.queues (controller id)
  pub waits :
      (p : ℕ)
      → s.processes (controller id) ≡ some p
      → 0 < count p (t.states waiting)
      → 0 < count p (s.states waiting)

pub Frame-refl : (s : Scheduler) (id : ℕ) → Frame s s id
Frame-refl s id = record {
  process = refl;
  task = λ p e. refl;
  queue = refl;
  waits = λ p e now. now;
}

pub Frame-trans : {s t u : Scheduler} {id : ℕ} → Frame s t id → Frame t u id → Frame s u id
Frame-trans a b = record {
  process = b.process ∙ a.process;
  task = λ p e. b.task p (a.process ∙ e) ∙ a.task p e;
  queue = b.queue ∙ a.queue;
  waits = λ p e now. a.waits p e (b.waits p (a.process ∙ e) now);
}

pub Frame-pending : (s t : Scheduler) (id : ℕ) → Frame s t id → pending t id ≡ pending s id
Frame-pending s t id f = elim (Option-cases (s.processes (controller id))) [
  | inl e ↦ rw (f.process, e, pending) refl
  | inr (p, e) ↦ rw (f.process, e, f.task p e, f.queue, pending) refl
]

pub Frame-IsIdle : {s t : Scheduler} {id : ℕ} → Frame s t id → IsIdle s id → IsIdle t id
Frame-IsIdle f idle p e now =
    let e' = sym f.process ∙ e in
    let (a, b) = idle p e' (f.waits p e' now) in (f.task p e' ∙ a, rw f.queue b)

pub if-Frame :
    (test : Bool) (s t u : Scheduler) (id : ℕ)
    → Frame s t id
    → Frame s u id
    → Frame s (if test then t else u) id
if-Frame true s t u id first second = first
if-Frame false s t u id first second = second

pub kept_maps :
    (s : Scheduler) (p : ℕ) (new : ProcessState) (set_task : Bool) (task : Option Task)
    → let t : Scheduler = change_state s p new set_task task in
      (t.processes ≡ s.processes) × (t.queues ≡ s.queues)
unfolding change_state
kept_maps s p new set_task task = (refl, refl)

-- A process of another.
pub other-Frame :
    (s : Scheduler) (p : ℕ) (new : ProcessState) (set_task : Bool) (task : Option Task) (id : ℕ)
    → s.processes (controller id) ≢ some p
    → Frame s (change_state s p new set_task task) id
other-Frame s p new set_task task id apart =
    let (processes, queues) = kept_maps s p new set_task task in
    record {
      process = rw processes refl;
      task = λ q e. rw ((same q e).object) refl;
      queue = rw queues refl;
      waits = λ q e now. ground (arith, now, (same q e).stood waiting);
    }
  where
    same :
        (q : ℕ)
        → s.processes (controller id) ≡ some q
        → Same s (change_state s p new set_task task) q
    same q e = change_state-Same s p new set_task task q (λ at. apart (rw (sym at) e))

kept_tasks :
    (s : Scheduler) (p : ℕ) (new : ProcessState) (task : Option Task) (q : ℕ)
    → ((change_state s p new false task).objects q).task ≡ (s.objects q).task
unfolding change_state
kept_tasks s p new task q = ground arith

-- A process that starts to run, with the task that it has.
running-Frame : (s : Scheduler) (p id : ℕ) → Frame s (change_state s p running false none) id
running-Frame s p id =
    let (processes, queues) = kept_maps s p running false none in
    record {
      process = rw processes refl;
      task = λ q e. kept_tasks s p running none q;
      queue = rw queues refl;
      waits = λ q e now. ground (
        arith,
        now,
        change_state-count s p running false none q waiting,
        count-extracted s p q waiting,
      );
    }

pub moved_task :
    (s : Scheduler) (p : ℕ) (new : ProcessState) (task : Task)
    → ((change_state s p new true (some task)).objects p).task ≡ some task
unfolding change_state
moved_task s p new task = ground arith

pub emptied_task :
    (s : Scheduler) (p : ℕ) (new : ProcessState)
    → ((change_state s p new true none).objects p).task ≡ none
unfolding change_state
emptied_task s p new = ground arith

pub started-Frame : (s : Scheduler) (p id : ℕ) → Frame s (started s p) id
started-Frame s p id =
    let f = running-Frame s p id in
    record { process = f.process; task = f.task; queue = f.queue; waits = f.waits }

starved-Frame : (s : Scheduler) (p id : ℕ) → Frame s (starved s p) id
starved-Frame s p id =
    let t : Scheduler = record s {
      objects =
          update s.objects p
            (record (s.objects p) { starvation_count = (s.objects p).starvation_count + 1 });
    } in
    if-Frame (ltb 10 ((s.objects p).starvation_count + 1)) s (reserve_resource t p) t id
      (record { process = refl; task = λ q e. ground arith; queue = refl; waits = λ q e now. now })
      (record { process = refl; task = λ q e. ground arith; queue = refl; waits = λ q e now. now })

try_start-Frame :
    (limit concurrency : ℕ) (ps : List ℕ) (s : Scheduler) (id : ℕ)
    → Frame s (try_start limit concurrency ps s) id
unfolding try_start
try_start-Frame limit concurrency [] s id = Frame-refl s id
try_start-Frame limit concurrency (p ∷ ps) s id =
    let go : Scheduler = try_start limit (concurrency + 1) ps (started s p) in
    let stay : Scheduler = try_start limit concurrency ps (starved s p) in
    if-Frame (leb limit concurrency) s s (if can_start s p then go else stay) id (Frame-refl s id) (
      if-Frame (can_start s p) s go stay id
        (Frame-trans (started-Frame s p id)
          (try_start-Frame limit (concurrency + 1) ps (started s p) id))
        (Frame-trans (starved-Frame s p id)
          (try_start-Frame limit concurrency ps (starved s p) id)))

try_start_all-Frame : (limit : ℕ) (s : Scheduler) (id : ℕ) → Frame s (try_start_all limit s) id
unfolding try_start_all
try_start_all-Frame limit s id =
    try_start-Frame (max 1 limit) (length (s.states running)) (s.states ready) s id

pub next_start-Frame : (limit : ℕ) (s : Scheduler) (id : ℕ) → Frame s (next_start limit s) id
next_start-Frame limit s id =
    if-Frame s.shutdown s (after_shutdown s) (try_start_all limit s) id
      (if-Frame _ s (record s { joined = true }) s id
        (record { process = refl; task = λ q e. refl; queue = refl; waits = λ q e now. now })
        (Frame-refl s id))
      (try_start_all-Frame limit s id)
