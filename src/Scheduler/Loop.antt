-- ===== src/Scheduler/Loop.antt =====
-- `TryStartAll`, and the release of a task's entities, in
-- zerosugar/xr/server/game/instance/task/game_task_scheduler.cpp.
use zerosugar.Prelude.{
  ℕ, ◌+◌, ◌≤◌, ◌<◌, ◌≡◌, refl, sym, leb, ltb, max, length, true, false, Option, none, some, List,
  [], ◌∷◌, arith, count, Bool-cases, inl, inr,
}
use zerosugar.Scheduler.Process.{running, ready, Resource, Scheduler, update}
use zerosugar.Scheduler.Resources.{can_start, targets, with_reserved, reserve_resource}
use zerosugar.Scheduler.Run.{started, starved, try_start, try_start_all}
use zerosugar.Scheduler.Place.{IsStanding, Place-IsStanding, change_state-Same}
use zerosugar.Scheduler.Targets.{for_targets-keeps}
use zerosugar.Scheduler.Valid.{Keeps, Keeps-IsValid, Alike-Keeps}
use zerosugar.Scheduler.Moves.{address_cases}
use zerosugar.Scheduler.Held.{if-IsSafe, IsSafe}
use zerosugar.Scheduler.Start.{started-IsSafe}

-- The process `q` has the entity.
abbrev pub HeldBy : ℕ → Resource → Type 0
HeldBy q r = (r.assigned ≡ true) × (r.acquired ≡ some q)

-- Where nothing moves, no task changes and no entity is released.
pub quiet-IsSafe :
    {s t : Scheduler}
    → Keeps s t
    → ((q : ℕ) → 0 < count q (t.states running) → 0 < count q (s.states running))
    → ((q : ℕ) → (t.objects q).task ≡ (s.objects q).task)
    → ((q id : ℕ)
        → ((r : Resource) → s.resources id ≡ some r → HeldBy q r)
        → (r : Resource) → t.resources id ≡ some r
        → HeldBy q r)
    → IsSafe s
    → IsSafe t
quiet-IsSafe keeps runs tasks held safe = record {
  valid = Keeps-IsValid keeps safe.valid;
  holds = λ q task id r now e inside there.
      held q id (λ r0 e0. safe.holds q task id r0 (runs q now) (rw (sym (tasks q)) e) inside e0) r
        there;
}

-- The first half of `starved`.
abbrev starving : Scheduler → ℕ → Scheduler
starving s p = record s {
  objects =
      update s.objects p
        (record (s.objects p) { starvation_count = (s.objects p).starvation_count + 1 });
}

starving-Keeps : (s : Scheduler) (p : ℕ) → Keeps s (starving s p)
starving-Keeps s p =
    Alike-Keeps
      (record { sets = λ st. refl; in_states = λ q. ground arith; kept = refl; made = refl })
      (λ q. ground arith) (λ q. ground arith) (λ id. refl) (λ id tasks e. (tasks, e)) (omega arith)

starving-IsSafe : (s : Scheduler) (p : ℕ) → IsSafe s → IsSafe (starving s p)
starving-IsSafe s p safe =
    quiet-IsSafe (starving-Keeps s p) (λ q now. now) (λ q. ground arith) (λ q id before. before)
      safe

pub resources-Keeps :
    (s : Scheduler) (f : ℕ → Option Resource) → Keeps s (record s { resources = f })
resources-Keeps s f =
    Alike-Keeps (record { sets = λ st. refl; in_states = λ q. refl; kept = refl; made = refl })
      (λ q. refl) (λ q. refl) (λ id. refl) (λ id tasks e. (tasks, e)) (omega arith)

reserve-IsSafe : (s : Scheduler) (p : ℕ) → IsSafe s → IsSafe (reserve_resource s p)
reserve-IsSafe s p safe =
    quiet-IsSafe (resources-Keeps s _) (λ q now. now) (λ q. refl)
      (λ q id before r e.
        for_targets-keeps (HeldBy q) (with_reserved p) (targets (s.objects p).task) s.resources id
          (λ x h. h) before r e)
      safe

starved-IsSafe : (s : Scheduler) (p : ℕ) → IsSafe s → IsSafe (starved s p)
starved-IsSafe s p safe =
    let safe' : IsSafe (starving s p) = starving-IsSafe s p safe in
    if-IsSafe (ltb 10 ((s.objects p).starvation_count + 1)) (reserve_resource (starving s p) p)
      (starving s p) (reserve-IsSafe (starving s p) p safe') safe'

starved_sets : (s : Scheduler) (p : ℕ) → (starved s p).states ≡ s.states
starved_sets s p = elim (Bool-cases (ltb 10 ((s.objects p).starvation_count + 1))) [
  | inl e ↦ rw (e, starved) refl
  | inr e ↦ rw (e, starved) refl
]

-- The processes that are still to be looked at are in the set of those that are ready.
abbrev pub Waits : List ℕ → Scheduler → Type 0
Waits ps s = (q : ℕ) → count q ps ≤ count q (s.states ready)

started-Waits :
    (s : Scheduler) (p : ℕ) (ps : List ℕ)
    → IsStanding s p
    → (s.objects p).state ≡ ready
    → Waits (p ∷ ps) s
    → Waits ps (started s p)
started-Waits s p ps here e waits q = elim (address_cases q p) [
  | inl same ↦ ground (arith, same, waits p, here ready, e)
  | inr ne ↦ ground (arith, waits q, (change_state-Same s p running false none q ne).stood ready)
]

pub try_start-IsSafe :
    (limit concurrency : ℕ) (ps : List ℕ) (s : Scheduler)
    → IsSafe s
    → Waits ps s
    → IsSafe (try_start limit concurrency ps s)
unfolding try_start
try_start-IsSafe limit concurrency [] s safe waits = safe
try_start-IsSafe limit concurrency (p ∷ ps) s safe waits =
    let (here, e) = Place-IsStanding (safe.valid.placed p) ready (ground (arith, waits p)) in
    elim (Bool-cases (leb limit concurrency)) [
      | inl full ↦ rw full safe
      | inr room ↦ elim (Bool-cases (can_start s p)) [
        | inl can ↦
            rw (room, can)
              (try_start-IsSafe limit (concurrency + 1) ps (started s p)
                (started-IsSafe s p safe here can) (started-Waits s p ps here e waits))
        | inr cannot ↦
            rw (room, cannot)
              (try_start-IsSafe limit concurrency ps (starved s p) (starved-IsSafe s p safe)
                (λ q. rw (starved_sets s p) (ground (arith, waits q))))
      ]
    ]

pub try_start_all-IsSafe : (limit : ℕ) (s : Scheduler) → IsSafe s → IsSafe (try_start_all limit s)
unfolding try_start_all
try_start_all-IsSafe limit s safe =
    try_start-IsSafe (max 1 limit) (length (s.states running)) (s.states ready) s safe
      (λ q. omega arith)
