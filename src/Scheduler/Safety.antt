-- ===== src/Scheduler/Safety.antt =====
-- What holds of the scheduler of zerosugar/xr/server/game/instance/task/game_task_scheduler.cpp in
-- every state that the game instance can bring it to.
use zerosugar.Prelude.{
  refl, inl, inr, subst, ℕ, ◌<◌, ◌≡◌, ◌≢◌, true, false, Option, none, some, arith, count, contains,
}
use zerosugar.Scheduler.Process.{
  Task, ProcessState, running, ProcessId, controller, exit_process, Resource, Scheduler,
}
use zerosugar.Scheduler.Resources.{can_acquire}
use zerosugar.Scheduler.Run.{
  schedule, optional_id, remove_controller, Step, schedules, adds_controller, removes_controller,
  adds_entity, removes_entity, finishes, completes, shuts_down, joins, reorders, Reach, begins,
  goes_on,
}
use zerosugar.Scheduler.Place.{Place, Place-IsStanding, Place-rest, same_state_self}
use zerosugar.Scheduler.Exits.{same_id_self}
use zerosugar.Scheduler.Create.{List-cases}
use zerosugar.Scheduler.Held.{IsSafe}
use zerosugar.Scheduler.Complete.{finish-IsSafe, on_complete-IsSafe}
use zerosugar.Scheduler.Submit.{schedule-Succeeds, state_cases}
use zerosugar.Scheduler.Control.{
  new_scheduler-IsSafe, add_controller-IsSafe, remove_controller-IsSafe, add_entity-IsSafe,
  remove_entity-IsSafe, flags-IsSafe, join-IsSafe, reorder-IsSafe,
}

Step-IsSafe : (limit : ℕ) (s t : Scheduler) → Step limit s t → IsSafe s → IsSafe t
Step-IsSafe limit s t (schedules task id e) safe =
    let (t', e', safe') = schedule-Succeeds s task id safe in
    let same : t' ≡ t = cc in subst (λ x. IsSafe x) same safe'
Step-IsSafe limit s t (adds_controller id e) safe = rw e (add_controller-IsSafe s id safe)
Step-IsSafe limit s t (removes_controller id e) safe = rw e (remove_controller-IsSafe s id safe)
Step-IsSafe limit s t (adds_entity id apart e) safe = rw e (add_entity-IsSafe s id apart safe)
Step-IsSafe limit s t (removes_entity id e) safe = rw e (remove_entity-IsSafe s id safe)
Step-IsSafe limit s t (finishes p task runs has e) safe =
    rw e (finish-IsSafe s p task safe runs has)
Step-IsSafe limit s t (completes p runs has e) safe = rw e (on_complete-IsSafe limit s p safe runs)
Step-IsSafe limit s t (shuts_down e) safe = rw e (flags-IsSafe s true s.join_waits safe)
Step-IsSafe limit s t (joins e) safe = rw e (join-IsSafe s safe)
Step-IsSafe limit s t (reorders recycled same e) safe = rw e (reorder-IsSafe s recycled same safe)

pub Reach-IsSafe : {limit : ℕ} {s : Scheduler} → Reach limit s → IsSafe s
Reach-IsSafe begins = new_scheduler-IsSafe
Reach-IsSafe {limit} (goes_on {s} {t} before step) =
    Step-IsSafe limit s t step (Reach-IsSafe before)

-- Two tasks that are in the executor at once have no entity of the scheduler for a common target: in
-- every state that the operations of the strand reach, in any order in which no entity comes while a
-- task in the executor has its id for a target, two running processes with a task each that share
-- the id of an entity that is there are one process, and the entity is assigned to it.
pub targets_exclusive :
    {limit : ℕ} {s : Scheduler} (p q : ℕ) (t u : Task) (id : ℕ) (r : Resource)
    → Reach limit s
    → 0 < count p (s.states running)
    → 0 < count q (s.states running)
    → (s.objects p).task ≡ some t
    → (s.objects q).task ≡ some u
    → contains id t.target_ids ≡ true
    → contains id u.target_ids ≡ true
    → s.resources id ≡ some r
    → (p ≡ q) × (r.assigned ≡ true) × (r.acquired ≡ some p)
targets_exclusive p q t u id r reach in_p in_q has_t has_u at_t at_u there =
    let safe = Reach-IsSafe reach in
    let (a, b) = safe.holds p t id r in_p has_t at_t there in
    let (_, c) = safe.holds q u id r in_q has_u at_u there in (ground (arith, b, c), a, b)

-- In every state that the operations reach, a process that is in one of the three ordered sets is
-- there once, is in no other of them, carries the state of the set, is not kept for reuse, and is
-- what the map of the processes has under its id.
pub processes_agree :
    {limit : ℕ} {s : Scheduler} (p : ℕ) (state : ProcessState)
    → Reach limit s
    → 0 < count p (s.states state)
    → (count p (s.states state) ≡ 1)
      × ((other : ProcessState) → 0 < count p (s.states other) → other ≡ state)
      × ((s.objects p).state ≡ state)
      × (count p s.recycled ≡ 0)
      × (s.processes (s.objects p).id ≡ some p)
processes_agree {s} p state reach inside =
    let safe = Reach-IsSafe reach in
    let place : Place s p = safe.valid.placed p in
    let (here, e) = Place-IsStanding place state inside in
    (
      ground (arith, here state, e, same_state_self state),
      (λ other there. let (_, e') = Place-IsStanding place other there in cc),
      e,
      (Place-rest place here).0,
      safe.valid.registered p here,
    )

-- `Schedule` finds every queue that it looks up: in every state that the operations reach, it answers for
-- every task and every controller, known or not.
pub schedule_answers :
    {limit : ℕ} {s : Scheduler} (task : Option Task) (id : Option ℕ)
    → Reach limit s
    → (t : Scheduler) × (schedule s task (optional_id id) ≡ some t) × Reach limit t
schedule_answers {s} task id reach =
    let (t, e, _) = schedule-Succeeds s task id (Reach-IsSafe reach) in
    (t, e, goes_on reach (schedules task id e))

exit_resources : (s : Scheduler) (p : ℕ) → (exit_process s p).resources ≡ s.resources
unfolding exit_process
exit_resources s p = refl

exit_unknown :
    (s : Scheduler) (p : ℕ) (id : ProcessId)
    → (s.objects p).id ≡ id
    → (exit_process s p).processes id ≡ none
unfolding exit_process
exit_unknown s p id e = rw (e, same_id_self id) refl

removed_lem :
    (s : Scheduler) (id : ProcessId) (p : ℕ)
    → s.processes id ≡ some p
    → (s.objects p).state ≢ running
    → remove_controller s id ≡ exit_process s p
unfolding remove_controller
removed_lem s id p e ne = elim (state_cases (s.objects p).state) [
  | inl st ↦ ground arith
  | inr (inl st) ↦ rw (e, st, remove_controller) refl
  | inr (inr st) ↦ rw (e, st, remove_controller) refl
]

blocked :
    (r : Resource) (p q : ℕ)
    → contains p r.reserved ≡ true
    → contains q r.reserved ≡ false
    → can_acquire q (some r) ≡ false
blocked r p q inside out = elim (List-cases r.reserved) [
  | inl e ↦ ground (arith, e, inside)
  | inr (x, rest, e) ↦ ground (arith, e, out)
]

-- `RemoveController` of a controller whose process has an entity reserved, and does not run, forgets
-- the process but not the reservation: the entity keeps it, and no other process that has none of its own can
-- acquire the entity.
pub reservation_left :
    {limit : ℕ} {s : Scheduler} (id p entity : ℕ) (r : Resource)
    → Reach limit s
    → s.processes (controller id) ≡ some p
    → (s.objects p).state ≢ running
    → s.resources entity ≡ some r
    → contains p r.reserved ≡ true
    → let t : Scheduler = remove_controller s (controller id) in
      (t.processes (controller id) ≡ none)
      × (t.resources entity ≡ some r)
      × ((q : ℕ) → contains q r.reserved ≡ false → can_acquire q (t.resources entity) ≡ false)
reservation_left {s} id p entity r reach e ne there reserved =
    let named = ((Reach-IsSafe reach).valid.known (controller id) p e).named in
    rw
      (
        removed_lem s (controller id) p e ne,
        exit_unknown s p (controller id) named,
        exit_resources s p,
        there,
      )
      (refl, refl, (λ q out. blocked r p q reserved out))
