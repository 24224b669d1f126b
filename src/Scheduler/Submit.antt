-- ===== src/Scheduler/Submit.antt =====
-- `Schedule`, in zerosugar/xr/server/game/instance/task/game_task_scheduler.cpp.
use zerosugar.Prelude.{
  if◌then◌else◌, ℕ, ◌+◌, ◌≤◌, ◌≡◌, refl, Bool, true, false, Option, none, some, List, [], ◌∷◌, ◌++◌,
  arith, Bool-cases, inl, inr, ◌⊎◌, Option-cases,
}
use zerosugar.Scheduler.Process.{
  new_process, controller, temporary, Task, ProcessState, running, ready, waiting, Scheduler,
  change_state, create_process,
}
use zerosugar.Scheduler.Resources.{can_start}
use zerosugar.Scheduler.Run.{wake, assign, counted, submit, schedule, optional_id}
use zerosugar.Scheduler.Place.{IsStanding}
use zerosugar.Scheduler.Valid.{IsValid, IsKnown, Alike-Keeps}
use zerosugar.Scheduler.Moves.{change_state-Keeps}
use zerosugar.Scheduler.Births.{born-IsStanding}
use zerosugar.Scheduler.Create.{create_process-IsBorn, create_process-object}
use zerosugar.Scheduler.Held.{IsSafe, parked-IsSafe, IsBorn-IsSafe}
use zerosugar.Scheduler.Start.{started-IsSafe}
use zerosugar.Scheduler.Loop.{quiet-IsSafe}
use zerosugar.Scheduler.Complete.{queues-IsSafe}

wake-IsSafe :
    (s : Scheduler) (p : ℕ) (task : Task) → IsSafe s → IsStanding s p → IsSafe (wake s p task)
wake-IsSafe s p task safe here =
    let s' : Scheduler = change_state s p ready true (some task) in
    let safe' : IsSafe s' = parked-IsSafe s p ready true (some task) refl safe here in
    let here' : IsStanding s' p =
      (change_state-Keeps s p ready true (some task) safe.valid here).stays p here in
    elim (Bool-cases (can_start s' p)) [
      | inl can ↦ rw (can, wake) (started-IsSafe s' p safe' here' can)
      | inr cannot ↦ rw (cannot, wake) safe'
    ]

-- The scheduler after a step that finds what it looks up.
abbrev pub Succeeds : Option Scheduler → Type 0
Succeeds result = (t : Scheduler) × (result ≡ some t) × IsSafe t

-- A process that has nothing to do, or a queue for what is to be done.
abbrev pub Serves : Scheduler → ℕ → Type 0
Serves s p =
    ((s.objects p).state ≡ waiting)
    ⊎ ((queue : List Task) × (s.queues (s.objects p).id ≡ some queue))

pub state_cases : (st : ProcessState) → (st ≡ running) ⊎ ((st ≡ ready) ⊎ (st ≡ waiting))
state_cases running = inl refl
state_cases ready = inr (inl refl)
state_cases waiting = inr (inr refl)

assign-Succeeds :
    (s : Scheduler) (p : ℕ) (task : Task)
    → IsSafe s
    → IsStanding s p
    → Serves s p
    → Succeeds (assign s p task)
unfolding assign
assign-Succeeds s p task safe here (inl e) =
    rw (e, assign) (wake s p task, refl, wake-IsSafe s p task safe here)
assign-Succeeds s p task safe here (inr (queue, e)) =
    let queued : IsSafe _ = queues-IsSafe s (s.objects p).id (queue ++ (task ∷ [])) safe in
    elim (state_cases (s.objects p).state) [
      | inl st ↦ rw (st, e, assign) (_, refl, queued)
      | inr (inl st) ↦ rw (st, e, assign) (_, refl, queued)
      | inr (inr st) ↦ rw (st, assign) (wake s p task, refl, wake-IsSafe s p task safe here)
    ]

pub counted-IsSafe : (s : Scheduler) → IsSafe s → IsSafe (counted s)
counted-IsSafe s safe =
    quiet-IsSafe
      (Alike-Keeps (record { sets = λ st. refl; in_states = λ q. refl; kept = refl; made = refl })
        (λ q. refl) (λ q. refl) (λ id. refl) (λ id tasks e. (tasks, e)) (omega arith))
      (λ q now. now) (λ q. refl) (λ q i before. before) safe

pub numbered-IsSafe :
    (s : Scheduler) (id : ℕ)
    → s.next_temp_process_id ≤ id
    → IsSafe s
    → IsSafe (record s { next_temp_process_id = id })
numbered-IsSafe s id le safe =
    quiet-IsSafe
      (Alike-Keeps (record { sets = λ st. refl; in_states = λ q. refl; kept = refl; made = refl })
        (λ q. refl) (λ q. refl) (λ i. refl) (λ i tasks e. (tasks, e)) le)
      (λ q now. now) (λ q. refl) (λ q i before. before) safe

pub unused_id :
    (s : Scheduler) → IsValid s → s.processes (temporary (s.next_temp_process_id + 1)) ≡ none
unused_id s v = elim (Option-cases (s.processes (temporary (s.next_temp_process_id + 1)))) [
  | inl e ↦ e
  | inr (p, e) ↦ ground (arith, (v.known (temporary (s.next_temp_process_id + 1)) p e).owns)
]

-- A task of nobody gets a process of its own, which waits.
nobody-Succeeds : (s : Scheduler) (task : Task) → IsSafe s → Succeeds (submit s task none)
unfolding submit
nobody-Succeeds s task safe =
    let id : ℕ = s.next_temp_process_id + 1 in
    let s' : Scheduler = record s { next_temp_process_id = id } in
    let safe' : IsSafe s' = numbered-IsSafe s id (omega arith) safe in
    let born = create_process-IsBorn s' (temporary id) safe'.valid in
    let (p, t) = create_process s' (temporary id) in
    let e : t.objects p ≡ new_process (temporary id) = create_process-object s' (temporary id) in
    let safe_t : IsSafe t =
      IsBorn-IsSafe safe' (unused_id s (safe.valid)) born
        (rw (e, born.temporaries) (refl, omega arith)) in
    assign-Succeeds (counted t) p task (counted-IsSafe t safe_t) (born-IsStanding s' t p born)
      (inl born.waits)

known-Serves : (s : Scheduler) (id p : ℕ) → IsKnown s (controller id) p → Serves s p
known-Serves s id p known = let (_, (queue, e)) = known.owns in inr (queue, rw known.named e)

-- A task of a controller.
controller-Succeeds :
    (s : Scheduler) (task : Task) (id : ℕ)
    → IsSafe s
    → Succeeds (submit s task (some (controller id)))
unfolding submit
controller-Succeeds s task id safe = elim (Option-cases (s.processes (controller id))) [
  | inl e ↦ rw (e, submit) (s, refl, safe)
  | inr (p, e) ↦
      let known : IsKnown s (controller id) p = safe.valid.known (controller id) p e in
      rw (e, submit)
        (assign-Succeeds (counted s) p task (counted-IsSafe s safe) known.standing
          (known-Serves s id p known))
]

submit-Succeeds :
    (s : Scheduler) (task : Task) (id : Option ℕ)
    → IsSafe s
    → Succeeds (submit s task (optional_id id))
submit-Succeeds s task none safe = nobody-Succeeds s task safe
submit-Succeeds s task (some id) safe = controller-Succeeds s task id safe

given-Succeeds :
    (s : Scheduler) (task : Option Task) (id : Option ℕ)
    → IsSafe s
    → Succeeds (elim task [ none ↦ some s | some t ↦ submit s t (optional_id id) ])
given-Succeeds s none id safe = (s, refl, safe)
given-Succeeds s (some task) id safe = submit-Succeeds s task id safe

if-Succeeds :
    (test : Bool) (x y : Option Scheduler)
    → Succeeds x
    → Succeeds y
    → Succeeds (if test then x else y)
if-Succeeds true x y first second = first
if-Succeeds false x y first second = second

pub schedule-Succeeds :
    (s : Scheduler) (task : Option Task) (id : Option ℕ)
    → IsSafe s
    → Succeeds (schedule s task (optional_id id))
unfolding schedule
schedule-Succeeds s task id safe =
    if-Succeeds s.shutdown (some s)
      (elim task [ none ↦ some s | some t ↦ submit s t (optional_id id) ]) (s, refl, safe)
      (given-Succeeds s task id safe)
