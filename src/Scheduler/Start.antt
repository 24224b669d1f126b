-- ===== src/Scheduler/Start.antt =====
-- `Start`, `TryStartAll` and the release of a task's entities, in
-- zerosugar/xr/server/game/instance/task/game_task_scheduler.cpp.
use zerosugar.Prelude.{
  ℕ, ◌<◌, ◌≡◌, ◌≢◌, refl, sym, true, false, none, some, arith, count, contains, Bool-cases, inl,
  inr, Option-cases,
}
use zerosugar.Scheduler.Process.{running, Scheduler, change_state}
use zerosugar.Scheduler.Resources.{can_start, can_acquire, targets, acquired_by}
use zerosugar.Scheduler.Run.{started}
use zerosugar.Scheduler.Place.{IsStanding, Same, change_state-Same}
use zerosugar.Scheduler.Targets.{
  for_targets-outside, for_targets-keeps, for_targets-inside, all_acquire-at,
}
use zerosugar.Scheduler.Valid.{Keeps-IsValid, Alike-Keeps}
use zerosugar.Scheduler.Moves.{address_cases, change_state-Keeps, kept_resources, kept_task}
use zerosugar.Scheduler.Held.{Holds, IsSafe}

can_start-at :
    (s : Scheduler) (p : ℕ) (id : ℕ)
    → can_start s p ≡ true
    → contains id (targets (s.objects p).task) ≡ true
    → can_acquire p (s.resources id) ≡ true
unfolding can_start
can_start-at s p id can = elim (Option-cases (s.objects p).task) [
  | inl e ↦ rw e (λ inside. cc)
  | inr (task, e) ↦
      rw e
        (λ inside. all_acquire-at s.resources p task.target_ids id (ground (arith, can, e)) inside)
]

-- The process that is started holds its targets, and no other process had one of them.
pub started-IsSafe :
    (s : Scheduler) (p : ℕ)
    → IsSafe s
    → IsStanding s p
    → can_start s p ≡ true
    → IsSafe (started s p)
started-IsSafe s p safe here can = record {
  valid =
      Keeps-IsValid
        (Alike-Keeps (record { sets = λ st. refl; in_states = λ q. refl; kept = refl; made = refl })
          (λ q. refl) (λ q. refl) (λ id. refl) (λ id tasks e. (tasks, e)) (omega arith))
        (Keeps-IsValid (change_state-Keeps s p running false none safe.valid here) safe.valid);
  holds = λ q. elim (address_cases q p) [ inl e ↦ rw e own | inr ne ↦ other q ne ];
}
  where
    s' : Scheduler
    s' = change_state s p running false none

    own : Holds (started s p) p
    own task id r now e inside there =
        for_targets-inside (λ x. (x.assigned ≡ true) × (x.acquired ≡ some p)) (acquired_by p)
          (targets (s'.objects p).task) s'.resources id (λ x. (refl, refl)) (rw e inside) r there

    other : (q : ℕ) → q ≢ p → Holds (started s p) q
    other q ne task id r now e inside there =
        let same : Same s s' q = change_state-Same s p running false none q ne in
        let now' : 0 < count q (s.states running) = ground (arith, now, same.stood running) in
        let e' : (s.objects q).task ≡ some task = rw (sym same.object) e in
        elim (Bool-cases (contains id (targets (s'.objects p).task))) [
          | inl both ↦
              for_targets-keeps (λ x. (r.assigned ≡ true) × (r.acquired ≡ some q)) (acquired_by p)
                (targets (s'.objects p).task) s'.resources id (λ x h. h)
                (λ r0 e0.
                  let e1 : s.resources id ≡ some r0 =
                    rw (sym (kept_resources s p running false none)) e0 in
                  let free : can_acquire p (s.resources id) ≡ true =
                    can_start-at s p id can
                      (rw (sym (kept_task s p running false none refl)) both) in
                  let held : r0.assigned ≡ true = (safe.holds q task id r0 now' e' inside e1).0 in
                  ground (arith, e1, free, held))
                r there
          | inr out ↦ safe.holds q task id r now' e' inside (
              rw
                (
                  sym (kept_resources s p running false none),
                  sym (
                      for_targets-outside (acquired_by p) (targets (s'.objects p).task) s'.resources
                        id out),
                )
                there)
        ]
