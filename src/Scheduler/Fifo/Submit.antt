-- ===== src/Scheduler/Fifo/Submit.antt =====
-- `Schedule` of a task of a controller and of a task of nobody, for the queues, in
-- zerosugar/xr/server/game/instance/task/game_task_scheduler.cpp.
use zerosugar.Prelude.{
  ◌≢◌, sym, true, false, ◌+◌, ℕ, ◌≡◌, refl, ◌∙◌, none, some, arith, Option-cases, inl, inr,
}
use zerosugar.Scheduler.Process.{
  same_id, controller, temporary, ProcessId, Task, ready, waiting, Scheduler, change_state,
  create_process,
}
use zerosugar.Scheduler.Resources.{can_start}
use zerosugar.Scheduler.Run.{started, wake, counted, submit}
use zerosugar.Scheduler.Place.{standing_lem}
use zerosugar.Scheduler.Held.{IsSafe}
use zerosugar.Scheduler.Births.{IsBorn}
use zerosugar.Scheduler.Create.{create_process-IsBorn}
use zerosugar.Scheduler.Submit.{counted-IsSafe, numbered-IsSafe}
use zerosugar.Scheduler.Fifo.{
  pending, IsIdle, Frame, Frame-refl, Frame-trans, if-Frame, other-Frame, started-Frame,
}
use zerosugar.Scheduler.Fifo.Give.{Received, assigned, assign_waits, some_found}

counted-Frame : (s : Scheduler) (j : ℕ) → Frame s (counted s) j
counted-Frame s j = record {
  process = refl;
  task = λ p e. refl;
  queue = refl;
  waits = λ p e now. now;
}

counted-Received :
    {s t : Scheduler} {task : Task} {id : ℕ} → Received (counted s) task id t → Received s task id t
counted-Received {s} r = record {
  pends = r.pends;
  idle = r.idle;
  frames = λ j ne. Frame-trans (counted-Frame s j) (r.frames j ne);
}

pub submit-Received :
    (s : Scheduler) (task : Task) (id : ℕ) (t : Scheduler)
    → IsSafe s
    → IsIdle s id
    → submit s task (some (controller id)) ≡ some t
    → Received s task id t
unfolding submit
submit-Received s task id t safe idle = elim (Option-cases (s.processes (controller id))) [
  | inl e ↦
      rw (e, submit)
        (λ h.
          some_found (Received s task id) s t
            (record { pends = rw (e, pending) refl; idle = idle; frames = λ j ne. Frame-refl s j })
            h)
  | inr (p, e) ↦
      rw (e, submit)
        (λ h. counted-Received (assigned (counted s) p task id (counted-IsSafe s safe) e idle t h))
]

waked-Frame :
    (s : Scheduler) (p : ℕ) (task : Task) (j : ℕ)
    → s.processes (controller j) ≢ some p
    → Frame s (wake s p task) j
waked-Frame s p task j apart =
    let s' : Scheduler = change_state s p ready true (some task) in
    let f : Frame s s' j = other-Frame s p ready true (some task) j apart in
    Frame-trans f
      (if-Frame (can_start s' p) s' (started s' p) s' j (started-Frame s' p j) (Frame-refl s' j))

numbered-Frame : (s : Scheduler) (id j : ℕ) → Frame s (record s { next_temp_process_id = id }) j
numbered-Frame s id j = record {
  process = refl;
  task = λ p e. refl;
  queue = refl;
  waits = λ p e now. now;
}

pub IsBorn-Frame :
    (s t : Scheduler) (id : ProcessId) (p j : ℕ)
    → IsSafe s
    → same_id (controller j) id ≡ false
    → IsBorn s t id p
    → Frame s t j × (t.processes (controller j) ≢ some p)
IsBorn-Frame s t id p j safe other b =
    let process : t.processes (controller j) ≡ s.processes (controller j) =
      rw (b.processes (controller j), other) refl in
    (
      record {
        process = process;
        task = λ q e. rw (b.others q (apart q e)) refl;
        queue = rw b.queues refl;
        waits = λ q e now. ground (arith, now, b.sets q waiting, apart q e);
      },
      λ e. apart p (sym process ∙ e) refl,
    )
  where
    apart : (q : ℕ) → s.processes (controller j) ≡ some q → q ≢ p
    apart q e same = ground (
      arith,
      same,
      b.nowhere (s.objects q).state,
      standing_lem s q (safe.valid.known (controller j) q e).standing,
    )

pub nobody-Frame :
    (s : Scheduler) (task : Task) (t : Scheduler) (j : ℕ)
    → IsSafe s
    → submit s task none ≡ some t
    → Frame s t j
unfolding submit
nobody-Frame s task t j safe e =
    let id : ℕ = s.next_temp_process_id + 1 in
    let s' : Scheduler = record s { next_temp_process_id = id } in
    let safe' : IsSafe s' = numbered-IsSafe s id (omega arith) safe in
    let born = create_process-IsBorn s' (temporary id) safe'.valid in
    let (p, u) = create_process s' (temporary id) in
    let (f, apart) = IsBorn-Frame s' u (temporary id) p j safe' refl born in
    some_found (λ x. Frame s x j) (wake (counted u) p task) t
      (Frame-trans (Frame-trans (numbered-Frame s id j) f)
        (Frame-trans (counted-Frame u j) (waked-Frame (counted u) p task j apart)))
      (sym (assign_waits (counted u) p task born.waits) ∙ e)
