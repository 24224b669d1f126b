-- ===== src/Scheduler/Valid.antt =====
-- The sets, the ids and the queues of the scheduler of
-- zerosugar/xr/server/game/instance/task/game_task_scheduler.cpp: when they agree.
use zerosugar.Prelude.{ℕ, ◌≤◌, ◌≡◌, refl, sym, Option, none, some, List, arith}
use zerosugar.Scheduler.Process.{
  ProcessId, controller, temporary, Task, ProcessState, waiting, Scheduler, new_scheduler,
}
use zerosugar.Scheduler.Place.{IsStanding, Place, stands, recycles, fresh}

-- What a process of the id has to do with the queues: a controller's has its own.
abbrev pub Owns : Scheduler → ProcessId → Option ProcessId → Type 0
Owns s (controller id) queue =
    (queue ≡ some (controller id)) × ((tasks : List Task) × (s.queues (controller id) ≡ some tasks))
Owns s (temporary id) queue = (queue ≡ none) × (id ≤ s.next_temp_process_id)

pub record IsKnown (s : Scheduler) (id : ProcessId) (p : ℕ) : Type 0 where
  pub standing : IsStanding s p
  pub named : (s.objects p).id ≡ id
  pub owns : Owns s id (s.objects p).task_queue_id

-- Every process has its place, the map holds those that stand, each under its id.
pub record IsValid (s : Scheduler) : Type 0 where
  pub placed : (p : ℕ) → Place s p
  pub known : (id : ProcessId) (p : ℕ) → s.processes id ≡ some p → IsKnown s id p
  pub registered : (p : ℕ) → IsStanding s p → s.processes (s.objects p).id ≡ some p

pub new_scheduler-IsValid : IsValid new_scheduler
new_scheduler-IsValid = record {
  placed = λ p. fresh (λ st. refl) refl (omega arith);
  known = λ id p e. ground arith;
  registered = λ p here. ground (arith, here waiting);
}

-- No process comes or goes between the two, and none loses its id or its queue.
pub record Keeps (s t : Scheduler) : Type 0 where
  pub places : (q : ℕ) → Place s q → Place t q
  pub stays : (q : ℕ) → IsStanding s q → IsStanding t q
  pub stood : (q : ℕ) → IsStanding t q → IsStanding s q
  pub ids : (q : ℕ) → (t.objects q).id ≡ (s.objects q).id
  pub queue_ids : (q : ℕ) → (t.objects q).task_queue_id ≡ (s.objects q).task_queue_id
  pub processes : (id : ProcessId) → t.processes id ≡ s.processes id
  pub queued :
      (id : ProcessId) (tasks : List Task)
      → s.queues id ≡ some tasks
      → (tasks' : List Task) × (t.queues id ≡ some tasks')
  pub temporaries : s.next_temp_process_id ≤ t.next_temp_process_id

Owns-Keeps :
    {s t : Scheduler}
    → Keeps s t
    → (id : ProcessId) (queue : Option ProcessId) → Owns s id queue
    → Owns t id queue
Owns-Keeps k (controller id) queue (e, (tasks, here)) = (e, k.queued (controller id) tasks here)
Owns-Keeps k (temporary id) queue (e, le) = (e, omega (arith, le, k.temporaries))

pub Keeps-IsValid : {s t : Scheduler} → Keeps s t → IsValid s → IsValid t
Keeps-IsValid {s} {t} k v = record {
  placed = λ p. k.places p (v.placed p);
  known = λ id p e.
      let known : IsKnown s id p = v.known id p (rw (sym (k.processes id)) e) in
      record {
        standing = k.stays p known.standing;
        named = rw (k.ids p) known.named;
        owns = rw (k.queue_ids p) (Owns-Keeps k id (s.objects p).task_queue_id known.owns);
      };
  registered =
      λ p here. rw (k.ids p, k.processes (s.objects p).id) (v.registered p (k.stood p here));
}

-- Between the two, no set changes, and no process its state.
pub record Alike (s t : Scheduler) : Type 0 where
  pub sets : (st : ProcessState) → t.states st ≡ s.states st
  pub in_states : (q : ℕ) → (t.objects q).state ≡ (s.objects q).state
  pub kept : t.recycled ≡ s.recycled
  pub made : t.next_address ≡ s.next_address

pub Alike-stays : {s t : Scheduler} → Alike s t → (q : ℕ) → IsStanding s q → IsStanding t q
Alike-stays a q here = λ st. rw (a.sets st, a.in_states q) (here st)

pub Alike-stood : {s t : Scheduler} → Alike s t → (q : ℕ) → IsStanding t q → IsStanding s q
Alike-stood a q here = λ st. rw (sym (a.sets st), sym (a.in_states q)) (here st)

pub Alike-places : {s t : Scheduler} → Alike s t → (q : ℕ) → Place s q → Place t q
Alike-places a q (stands here r n) = stands (Alike-stays a q here) (rw a.kept r) (rw a.made n)
Alike-places a q (recycles here r n) =
    recycles (λ st. rw (a.sets st) (here st)) (rw a.kept r) (rw a.made n)
Alike-places a q (fresh here r n) =
    fresh (λ st. rw (a.sets st) (here st)) (rw a.kept r) (rw a.made n)

-- What is left to show where nothing moves.
pub Alike-Keeps :
    {s t : Scheduler}
    → Alike s t
    → ((q : ℕ) → (t.objects q).id ≡ (s.objects q).id)
    → ((q : ℕ) → (t.objects q).task_queue_id ≡ (s.objects q).task_queue_id)
    → ((id : ProcessId) → t.processes id ≡ s.processes id)
    → ((id : ProcessId) (tasks : List Task)
        → s.queues id ≡ some tasks
        → (tasks' : List Task) × (t.queues id ≡ some tasks'))
    → s.next_temp_process_id ≤ t.next_temp_process_id
    → Keeps s t
Alike-Keeps a ids queue_ids processes queued temporaries = record {
  places = Alike-places a;
  stays = Alike-stays a;
  stood = Alike-stood a;
  ids = ids;
  queue_ids = queue_ids;
  processes = processes;
  queued = queued;
  temporaries = temporaries;
}
