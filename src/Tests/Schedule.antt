-- ===== src/Tests/Schedule.antt =====
-- The task scheduler at concrete inputs: runs of operations, each of which is a step.
use zerosugar.Prelude.{
  erase, ℕ, zero, suc, ◌<◌, ◌≡◌, refl, Bool, true, false, Option, none, some, List, [], ◌∷◌, ◌⊎◌,
  inl, inr, ltb, ltb→lt, count, contains, arith,
}
use zerosugar.Scheduler.Process.{
  ProcessState, exit_process, create_process, change_state, insert, controller, Task, Resource,
  Scheduler, running, ready,
}
use zerosugar.Scheduler.Resources.{for_targets, can_start, all_acquire, can_acquire}
use zerosugar.Scheduler.Run.{
  try_start, try_start_all, submit, assign, schedule, optional_id, add_controller,
  remove_controller, add_entity, finish, on_complete, Step, schedules, adds_controller,
  removes_controller, adds_entity, finishes, completes, Reach, begins, goes_on,
}
use zerosugar.Scheduler.Fifo.{pending}
use zerosugar.Scheduler.Fifo.Spec.{is_process}
use zerosugar.Scheduler.Fifo.Refine.{queues_follow}
use zerosugar.Scheduler.Safety.{
  targets_exclusive, processes_agree, schedule_answers, reservation_left,
}

abbrev decided : (b : Bool) → (b ≡ true) ⊎ (b ≡ false)
decided true = inl refl
decided false = inr refl

abbrev found : {A : Type 0} (o : Option A) → (o ≡ none) ⊎ ((a : A) × (o ≡ some a))
found none = inl refl
found (some a) = inr (a, refl)

-- An operation, and the tests that it asks for: one that may not be done is passed over.
data Operation : Type 0 where
  give : Task → Option ℕ → Operation
  come leave : ℕ → Operation
  done : ℕ → Operation

record Run : Type 0 where
  last : Scheduler
  reach : Reach 4 last

abbrev step : {s t : Scheduler} → Reach 4 s → Step 4 s t → Run
step {t} r st = record { last = t; reach = goes_on r st }

-- The end of a task, both its parts.
abbrev complete : Run → ℕ → Run
complete r p = elim (decided (ltb 0 (count p (r.last.states running)))) [
  | inl yes_ ↦ elim (found (r.last.objects p).task) [
    | inl e ↦ step r.reach (completes p (ltb→lt 0 _ yes_) e refl)
    | inr (t, e) ↦ step r.reach (finishes p t (ltb→lt 0 _ yes_) e refl)
  ]
  | inr no_ ↦ r
]

abbrev perform : Run → Operation → Run
perform r (give task id) = elim (found (schedule r.last (some task) (optional_id id))) [
  | inl e ↦ r
  | inr (t, e) ↦ step r.reach (schedules (some task) id e)
]
perform r (come id) = step r.reach (adds_controller id refl)
perform r (leave id) = step r.reach (removes_controller id refl)
perform r (done p) = complete (complete r p) p

abbrev perform_all : Run → List Operation → Run
perform_all r [] = r
perform_all r (o ∷ os) = perform_all (perform r o) os

abbrev with_entity : Run
with_entity = step begins (adds_entity 7 (λ p h. ground arith) refl)

abbrev strike : ℕ → Task
strike n = record { number = n; creation_time_point = n; target_ids = 7 ∷ [] }

abbrev errand : Task
errand = record { number = 9; creation_time_point = 9; target_ids = [] }

abbrev two : List Operation
two = come 1 ∷ come 2 ∷ give (strike 1) (some 1) ∷ give (strike 2) (some 2) ∷ []

abbrev busy : Run
busy = perform_all with_entity two

test_sets : (busy.last.states running ≡ 0 ∷ []) × (busy.last.states ready ≡ 1 ∷ [])
unfolding schedule submit assign add_controller add_entity create_process change_state insert
    for_targets erase can_start all_acquire
test_sets = (refl, refl)

abbrev held : Resource
held = record { assigned = true; acquired = some 0; reserved = [] }

targets_exclusive_example : ◌≡◌ {A = ℕ} 0 0 × (held.assigned ≡ true) × (held.acquired ≡ some 0)
unfolding schedule submit assign add_controller add_entity create_process change_state insert
    for_targets erase can_start all_acquire
targets_exclusive_example =
    targets_exclusive 0 0 (strike 1) (strike 1) 7 held busy.reach (omega arith) (omega arith) refl
      refl refl refl refl

processes_agree_example :
    let s : Scheduler = busy.last in
    (count 1 (s.states ready) ≡ 1)
    × ((other : ProcessState) → 0 < count 1 (s.states other) → other ≡ ready)
    × ((s.objects 1).state ≡ ready)
    × (count 1 s.recycled ≡ 0)
    × (s.processes (s.objects 1).id ≡ some 1)
unfolding schedule submit assign add_controller add_entity create_process change_state insert
    for_targets erase can_start all_acquire
processes_agree_example = processes_agree 1 ready busy.reach (omega arith)

-- The first controller gets a second task while it runs, and ends the first.
abbrev longer : Run
longer = perform busy (give errand (some 1))

test_pending :
    (pending longer.last 1 ≡ some (strike 1 ∷ errand ∷ []))
    × (pending longer.last 2 ≡ some (strike 2 ∷ []))
unfolding schedule submit assign add_controller add_entity create_process change_state insert
    for_targets erase can_start all_acquire
test_pending = (refl, refl)

queues_follow_example :
    let s : Scheduler = longer.last in
    let t : Scheduler = finish s 0 (strike 1) in
    ((is_process s 1 0 ≡ true)
      × ((rest : List Task) × (pending s 1 ≡ some (strike 1 ∷ rest)) × (pending t 1 ≡ some rest)))
    ⊎ ((is_process s 1 0 ≡ false) × (pending t 1 ≡ pending s 1))
unfolding schedule submit assign add_controller add_entity create_process change_state insert
    for_targets erase can_start all_acquire
queues_follow_example = queues_follow 1 (finishes 0 (strike 1) (omega arith) refl refl) longer.reach

schedule_answers_example :
    (t : Scheduler) × (schedule busy.last (some errand) (some (controller 1)) ≡ some t) × Reach 4 t
schedule_answers_example = schedule_answers (some errand) (some 1) busy.reach

-- The strike of the second controller starves, while others run and end.
abbrev errands : ℕ → List Operation
errands zero = []
errands (suc n) = give errand none ∷ done 2 ∷ errands n

abbrev starving : Run
starving = perform_all busy (errands 11)

test_reserved : starving.last.resources 7 ≡ some (record held { reserved = 1 ∷ [] })
unfolding schedule submit assign add_controller add_entity create_process change_state insert
    for_targets erase can_start all_acquire finish on_complete exit_process try_start try_start_all
test_reserved = refl

reservation_left_example :
    let t : Scheduler = remove_controller starving.last (controller 2) in
    (t.processes (controller 2) ≡ none)
    × (t.resources 7 ≡ some (record held { reserved = 1 ∷ [] }))
    × ((q : ℕ) → contains q (1 ∷ []) ≡ false → can_acquire q (t.resources 7) ≡ false)
unfolding schedule submit assign add_controller add_entity create_process change_state insert
    for_targets erase can_start all_acquire finish on_complete exit_process try_start try_start_all
reservation_left_example =
    reservation_left 2 1 7 (record held { reserved = 1 ∷ [] }) starving.reach refl (λ e. cc) refl
      refl

-- The controller of the strike that starves leaves, and the other strike ends: nothing runs, and the
-- entity stays closed to a third one.
abbrev stuck : Run
stuck = perform_all starving (
    leave 2
    ∷ done 0
    ∷ come 3
    ∷ come 4
    ∷ give errand (some 3)
    ∷ give (strike 5) (some 4)
    ∷ done 1
    ∷ done 2
    ∷ [])

test_stuck : (stuck.last.states running ≡ []) × (stuck.last.states ready ≡ 2 ∷ [])
unfolding schedule submit assign add_controller remove_controller add_entity create_process
    change_state insert for_targets erase can_start all_acquire finish on_complete exit_process
    try_start try_start_all
test_stuck = (refl, refl)
