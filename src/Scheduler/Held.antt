-- ===== src/Scheduler/Held.antt =====
-- The entities of the tasks that run, in
-- zerosugar/xr/server/game/instance/task/game_task_scheduler.cpp.
use zerosugar.Prelude.{
  if◌then◌else◌, ℕ, ◌<◌, ◌≡◌, refl, sym, Bool, true, false, Option, none, some, arith, count,
  contains, inl, inr,
}
use zerosugar.Scheduler.Process.{
  ProcessId, Task, ProcessState, running, same_state, Resource, Scheduler, change_state,
  exit_process,
}
use zerosugar.Scheduler.Place.{
  IsStanding, Same, change_state-Same, change_state-Place, exit_process-Same, exit_process-Place,
}
use zerosugar.Scheduler.Valid.{IsValid, Keeps-IsValid, Owns}
use zerosugar.Scheduler.Moves.{address_cases, change_state-Keeps, kept_resources}
use zerosugar.Scheduler.Exits.{exit_process-IsValid}
use zerosugar.Scheduler.Births.{IsBorn, IsBorn-IsValid}

-- A process that runs a task has each of its targets that there is.
abbrev pub Holds : Scheduler → ℕ → Type 0
Holds s p =
    (task : Task) (id : ℕ) (r : Resource)
    → 0 < count p (s.states running)
    → (s.objects p).task ≡ some task
    → contains id task.target_ids ≡ true
    → s.resources id ≡ some r
    → (r.assigned ≡ true) × (r.acquired ≡ some p)

pub record IsSafe (s : Scheduler) : Type 0 where
  pub valid : IsValid s
  pub holds : (p : ℕ) → Holds s p

pub Holds-kept :
    (s t : Scheduler) {q : ℕ}
    → (0 < count q (t.states running) → 0 < count q (s.states running))
    → (t.objects q).task ≡ (s.objects q).task
    → ((id : ℕ) → t.resources id ≡ s.resources id)
    → Holds s q
    → Holds t q
Holds-kept s t runs same resources held task id r now e inside there =
    held task id r (runs now) (rw (sym same) e) inside (rw (sym (resources id)) there)

pub idle-Holds : (t : Scheduler) {q : ℕ} → count q (t.states running) ≡ 0 → Holds t q
idle-Holds t idle task id r now e inside there = ground (arith, idle, now)

Same-Holds :
    (s t : Scheduler) {q : ℕ} → Same s t q → t.resources ≡ s.resources → Holds s q → Holds t q
Same-Holds s t kept resources held =
    Holds-kept s t (λ now. ground (arith, now, kept.stood running)) (rw kept.object refl)
      (λ id. rw resources refl) held

-- A process that does not come to run.
pub parked-IsSafe :
    (s : Scheduler) (p : ℕ) (new : ProcessState) (set_task : Bool) (task : Option Task)
    → same_state running new ≡ false
    → IsSafe s
    → IsStanding s p
    → IsSafe (change_state s p new set_task task)
parked-IsSafe s p new set_task task stops safe here = record {
  valid = Keeps-IsValid (change_state-Keeps s p new set_task task safe.valid here) safe.valid;
  holds = λ q. elim (address_cases q p) [
    | inl e ↦ rw e (
        idle-Holds (change_state s p new set_task task)
          (ground (arith, change_state-Place s p new set_task task here running, stops)))
    | inr ne ↦
        Same-Holds s (change_state s p new set_task task)
          (change_state-Same s p new set_task task q ne) (kept_resources s p new set_task task)
          (safe.holds q)
  ];
}

exit_resources : (s : Scheduler) (p : ℕ) → (exit_process s p).resources ≡ s.resources
unfolding exit_process
exit_resources s p = refl

pub exit_process-IsSafe :
    (s : Scheduler) (p : ℕ) → IsSafe s → IsStanding s p → IsSafe (exit_process s p)
exit_process-IsSafe s p safe here = record {
  valid = exit_process-IsValid s p safe.valid here;
  holds = λ q. elim (address_cases q p) [
    | inl e ↦ rw e (idle-Holds (exit_process s p) (exit_process-Place s p here running))
    | inr ne ↦
        Same-Holds s (exit_process s p) (exit_process-Same s p q ne) (exit_resources s p)
          (safe.holds q)
  ];
}

pub IsBorn-IsSafe :
    {s t : Scheduler} {id : ProcessId} {p : ℕ}
    → IsSafe s
    → s.processes id ≡ none
    → IsBorn s t id p
    → Owns t id (t.objects p).task_queue_id
    → IsSafe t
IsBorn-IsSafe {s} {t} {p} safe absent b owns = record {
  valid = IsBorn-IsValid safe.valid absent b owns;
  holds = λ q. elim (address_cases q p) [
    | inl e ↦ rw e (idle-Holds t (ground (arith, b.sets p running, b.nowhere running)))
    | inr ne ↦
        Holds-kept s t (λ now. ground (arith, now, b.sets q running)) (rw (b.others q ne) refl)
          (λ id. rw b.resources refl) (safe.holds q)
  ];
}

pub if-IsSafe :
    (test : Bool) (s t : Scheduler) → IsSafe s → IsSafe t → IsSafe (if test then s else t)
if-IsSafe true s t first second = first
if-IsSafe false s t first second = second
