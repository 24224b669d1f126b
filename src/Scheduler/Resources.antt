-- ===== src/Scheduler/Resources.antt =====
-- The entities that tasks work on: who has one, and who waits for one.
use zerosugar.Prelude.{
  ℕ, Bool, true, false, Option, none, some, List, [], ◌∷◌, if◌then◌else◌, erase, contains,
}
use zerosugar.Scheduler.Process.{Resource, Scheduler, Task, update}

abbrev pub is_empty : List ℕ → Bool
is_empty [] = true
is_empty (x ∷ xs) = false

-- `canAcquire`, on what `FindResource` gives.
abbrev pub can_acquire : ℕ → Option Resource → Bool
can_acquire p none = true
can_acquire p (some r) =
    if r.assigned then false else if is_empty r.reserved then true else contains p r.reserved

-- `all_of`, on the targets.
unfoldable pub all_acquire : (ℕ → Option Resource) → ℕ → List ℕ → Bool
all_acquire resources p [] = true
all_acquire resources p (id ∷ ids) =
    let rest : Bool = all_acquire resources p ids in
    if can_acquire p (resources id) then rest else false

-- `CanStart(process)`.
unfoldable pub can_start : Scheduler → ℕ → Bool
can_start s p = elim (s.objects p).task [
  | none ↦ false
  | some task ↦ all_acquire s.resources p task.target_ids
]

-- `emplace` into the set of those that wait.
abbrev pub with_reserved : ℕ → Resource → Resource
with_reserved p r = record r {
  reserved = if contains p r.reserved then r.reserved else p ∷ r.reserved;
}

abbrev pub acquired_by : ℕ → Resource → Resource
acquired_by p r = record r { assigned = true; acquired = some p; reserved = erase p r.reserved }

abbrev pub released : Resource → Resource
released r = record r { assigned = false; acquired = none }

-- A loop over the targets, which passes over those that are no resource.
unfoldable pub for_targets :
    (Resource → Resource) → List ℕ → (ℕ → Option Resource) → ℕ → Option Resource
for_targets change [] resources = resources
for_targets change (id ∷ ids) resources =
    for_targets change ids
      (elim (resources id) [ none ↦ resources | some r ↦ update resources id (some (change r)) ])

abbrev pub targets : Option Task → List ℕ
targets none = []
targets (some task) = task.target_ids

-- `ReserveResource(process)`.
abbrev pub reserve_resource : Scheduler → ℕ → Scheduler
reserve_resource s p = record s {
  resources = for_targets (with_reserved p) (targets (s.objects p).task) s.resources;
}

-- `AllocateResource(process)`.
abbrev pub allocate_resource : Scheduler → ℕ → Scheduler
allocate_resource s p = record s {
  resources = for_targets (acquired_by p) (targets (s.objects p).task) s.resources;
}

-- `DeallocateResource(process, task)`.
abbrev pub deallocate_resource : Scheduler → Task → Scheduler
deallocate_resource s task = record s {
  resources = for_targets released task.target_ids s.resources;
}
