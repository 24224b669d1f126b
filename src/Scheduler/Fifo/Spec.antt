-- ===== src/Scheduler/Fifo/Spec.antt =====
-- What the operations of zerosugar/xr/server/game/instance/task/game_task_scheduler.cpp are to do with
-- the queue of a controller, and `Schedule`.
use zerosugar.Prelude.{
  ==_self, if◌then◌else◌, ◌==◌, ◌≢◌, sym, Bool, true, false, ℕ, ◌≡◌, refl, ◌∙◌, Option, none, some,
  List, [], ◌∷◌, arith, Bool-cases, inl, inr, ◌⊎◌,
}
use zerosugar.Scheduler.Process.{controller, ProcessId, Task, Scheduler}
use zerosugar.Scheduler.Run.{
  schedule, submit, Step, schedules, adds_controller, removes_controller, adds_entity,
  removes_entity, finishes, completes, shuts_down, joins, reorders,
}
use zerosugar.Scheduler.Held.{IsSafe}
use zerosugar.Scheduler.Fifo.{pending, IsIdle, Frame, Frame-pending, Frame-IsIdle}
use zerosugar.Scheduler.Fifo.Submit.{submit-Received, nobody-Frame}
use zerosugar.Scheduler.Fifo.Give.{pushed, Received, some_found}
use zerosugar.Scheduler.Fifo.Open.{leaves_now}

abbrev pub received : Option Task → Option (List Task) → Option (List Task)
received none tasks = tasks
received (some task) tasks = pushed task tasks

-- Whether the process is the controller's.
abbrev pub is_process : Scheduler → ℕ → ℕ → Bool
is_process s id p = elim (s.processes (controller id)) [ none ↦ false | some q ↦ q == p ]

abbrev pub opened : Option (List Task) → Option (List Task) → Option (List Task)
opened none tasks = some []
opened (some queue) tasks = tasks

-- What a step is to do with the tasks of the controller `id`: `v` before, `w` after.
abbrev pub Follows :
    {limit : ℕ} {s t : Scheduler}
    → Step limit s t
    → ℕ
    → Option (List Task)
    → Option (List Task)
    → Type 0
Follows {s} (schedules task none e) id v w = w ≡ v
Follows {s} (schedules task (some i) e) id v w =
    w ≡ (if s.shutdown then v else if id == i then received task v else v)
Follows {s} (adds_controller i e) id v w =
    w ≡ (if id == i then opened (s.queues (controller i)) v else v)
Follows {s} (removes_controller i e) id v w =
    w ≡ (if id == i then (if leaves_now s i then none else v) else v)
Follows (adds_entity i apart e) id v w = w ≡ v
Follows (removes_entity i e) id v w = w ≡ v
Follows {s} (finishes p task runs has e) id v w =
    ((is_process s id p ≡ true) × ((rest : List Task) × (v ≡ some (task ∷ rest)) × (w ≡ some rest)))
    ⊎ ((is_process s id p ≡ false) × (w ≡ v))
Follows {s} (completes p runs has e) id v w =
    (w ≡ v) ⊎ ((is_process s id p ≡ true) × ((s.objects p).terminate_reserved ≡ true) × (w ≡ none))
Follows (shuts_down e) id v w = w ≡ v
Follows (joins e) id v w = w ≡ v
Follows (reorders recycled same e) id v w = w ≡ v

-- A controller that is not the one of the step.
pub other_cases : (id i : ℕ) → (id ≡ i) ⊎ ((id ≢ i) × ((id == i) ≡ false))
other_cases id i = elim (Bool-cases (id == i)) [
  | inl e ↦ inl (ground arith)
  | inr e ↦ inr ((λ same. ground arith), e)
]

-- The step and what it leaves for the next ones.
abbrev pub Answers : {limit : ℕ} {s t : Scheduler} → Step limit s t → ℕ → Type 0
Answers {s} {t} step id = Follows step id (pending s id) (pending t id) × IsIdle t id

pub frame_answer :
    (s t : Scheduler) (id : ℕ)
    → Frame s t id
    → IsIdle s id
    → (pending t id ≡ pending s id) × IsIdle t id
frame_answer s t id f idle = (Frame-pending s t id f, Frame-IsIdle f idle)

if_true {ℓ} : {A : Type ℓ} (b : Bool) (x y : A) → b ≡ true → (if b then x else y) ≡ x
if_true true x y e = refl
if_true false x y e = cc

if_false {ℓ} : {A : Type ℓ} (b : Bool) (x y : A) → b ≡ false → (if b then x else y) ≡ y
if_false true x y e = cc
if_false false x y e = refl

pub if_same {ℓ} : {A : Type ℓ} (b : Bool) (x : A) → (if b then x else x) ≡ x
if_same true x = refl
if_same false x = refl

schedule_shut :
    (s : Scheduler) (task : Option Task) (id : Option ProcessId)
    → s.shutdown ≡ true
    → schedule s task id ≡ some s
unfolding schedule
schedule_shut s task id e =
    if_true s.shutdown (some s) (elim task [ none ↦ some s | some t ↦ submit s t id ]) e

schedule-none : (s : Scheduler) (id : Option ProcessId) → schedule s none id ≡ some s
unfolding schedule
schedule-none s id = if_same s.shutdown (some s)

schedule_open :
    (s : Scheduler) (task : Task) (id : Option ProcessId)
    → s.shutdown ≡ false
    → schedule s (some task) id ≡ submit s task id
unfolding schedule
schedule_open s task id e = if_false s.shutdown (some s) (submit s task id) e

module _ (s t : Scheduler) (id : ℕ) (safe : IsSafe s) (idle : (i : ℕ) → IsIdle s i) where
  same_answer : some s ≡ some t → (pending t id ≡ pending s id) × IsIdle t id
  same_answer e =
      some_found (λ x. (pending x id ≡ pending s id) × IsIdle x id) s t (refl, idle id) e

  pub nobody_answer :
      (task : Option Task)
      → schedule s task none ≡ some t
      → (pending t id ≡ pending s id) × IsIdle t id
  nobody_answer none e = same_answer (sym (schedule-none s none) ∙ e)
  nobody_answer (some task) e = elim (Bool-cases s.shutdown) [
    | inl shut ↦ same_answer (sym (schedule_shut s (some task) none shut) ∙ e)
    | inr open_ ↦
        frame_answer s t id
          (nobody-Frame s task t id safe (sym (schedule_open s task none open_) ∙ e)) (idle id)
  ]

  given_answer :
      (task : Task) (i : ℕ)
      → submit s task (some (controller i)) ≡ some t
      → (pending t id ≡ (if id == i then pushed task (pending s id) else pending s id))
        × IsIdle t id
  given_answer task i e =
      let r : Received s task i t = submit-Received s task i t safe (idle i) e in
      elim (other_cases id i) [
        | inl same ↦ rw (same, ==_self i) (r.pends, r.idle)
        | inr (ne, other) ↦ rw other (frame_answer s t id (r.frames id ne) (idle id))
      ]

  pub schedule_answer :
      (task : Option Task) (i : ℕ)
      → schedule s task (some (controller i)) ≡ some t
      → (pending t id ≡ (
          if s.shutdown
          then pending s id
          else if id == i
          then received task (pending s id)
          else pending s id))
        × IsIdle t id
  schedule_answer none i e =
      rw (if_same (id == i) (pending s id), if_same s.shutdown (pending s id))
        (same_answer (sym (schedule-none s (some (controller i))) ∙ e))
  schedule_answer (some task) i e = elim (Bool-cases s.shutdown) [
    | inl shut ↦
        let (a, b) =
          same_answer (sym (schedule_shut s (some task) (some (controller i)) shut) ∙ e) in
        (a ∙ sym (if_true s.shutdown (pending s id) _ shut), b)
    | inr open_ ↦
        let (a, b) =
          given_answer task i (sym (schedule_open s task (some (controller i)) open_) ∙ e) in
        (a ∙ sym (if_false s.shutdown (pending s id) _ open_), b)
  ]
