-- ===== src/Scheduler/Create.antt =====
-- `CreateProcess`, `AddController` and the process of a task of nobody, in
-- zerosugar/xr/server/game/instance/task/game_task_scheduler.cpp.
use zerosugar.Prelude.{◌∷◌, [], ℕ, suc, ◌<◌, ◌≡◌, refl, some, List, arith, count, inl, inr, ◌⊎◌}
use zerosugar.Scheduler.Process.{
  ProcessId, ProcessState, Scheduler, create_process, new_process, update,
}
use zerosugar.Scheduler.Place.{Place, stands, recycles, fresh, create_at-count}
use zerosugar.Scheduler.Valid.{IsValid}
use zerosugar.Scheduler.Births.{IsBorn}

pub List-cases : (xs : List ℕ) → (xs ≡ []) ⊎ ((x : ℕ) × (rest : List ℕ) × (xs ≡ x ∷ rest))
List-cases [] = inl refl
List-cases (x ∷ rest) = inr (x, rest, refl)

-- The first address that is not used, and the first object that is kept for reuse.
next_place :
    {s : Scheduler}
    → Place s s.next_address
    → ((st : ProcessState) → count s.next_address (s.states st) ≡ 0)
      × (count s.next_address s.recycled ≡ 0)
next_place (stands here r n) = ground arith
next_place (recycles here r n) = ground arith
next_place (fresh here r n) = (here, r)

recycled_place :
    {s : Scheduler} {p : ℕ} {rest : List ℕ}
    → s.recycled ≡ p ∷ rest
    → Place s p
    → ((st : ProcessState) → count p (s.states st) ≡ 0) × (count p rest ≡ 0) × (p < s.next_address)
recycled_place e (stands here r n) = ground arith
recycled_place e (recycles here r n) = (here, ground arith, n)
recycled_place e (fresh here r n) = ground arith

pub create_process-IsBorn :
    (s : Scheduler) (id : ProcessId)
    → IsValid s
    → let (p, t) = create_process s id in IsBorn s t id p
unfolding create_process
create_process-IsBorn s id v = elim (List-cases s.recycled) [
  | inl e ↦
      let (nowhere, unused) = next_place (v.placed s.next_address) in
      rw (e, create_process)
        (record {
          nowhere = nowhere;
          sets = λ q st.
              create_at-count (record s { next_address = suc s.next_address }) id s.next_address q
                st;
          others = λ q ne. ground arith;
          waits = ground arith;
          named = ground arith;
          processes = λ i. refl;
          queues = refl;
          temporaries = refl;
          unused = unused;
          recycled = λ q ne. rw e refl;
          made = omega arith;
          older = omega arith;
          newer = λ q ne le. omega (arith, ne, le);
          resources = refl;
        })
  | inr (p, rest, e) ↦
      let (nowhere, unused, made) = recycled_place e (v.placed p) in
      rw (e, create_process)
        (record {
          nowhere = nowhere;
          sets = λ q st. create_at-count (record s { recycled = rest }) id p q st;
          others = λ q ne. ground arith;
          waits = ground arith;
          named = ground arith;
          processes = λ i. refl;
          queues = refl;
          temporaries = refl;
          unused = unused;
          recycled = λ q ne. ground (arith, e);
          made = made;
          older = omega arith;
          newer = λ q ne le. le;
          resources = refl;
        })
]

pub create_process-object :
    (s : Scheduler) (id : ProcessId)
    → let (p, t) = create_process s id in t.objects p ≡ new_process id
unfolding create_process
create_process-object s id = elim (List-cases s.recycled) [
  | inl e ↦ rw (e, create_process) (ground arith)
  | inr (p, rest, e) ↦ rw (e, create_process) (ground arith)
]

-- A controller that comes has a queue of its own.
pub controller-IsBorn :
    {s t : Scheduler} {id : ProcessId} {p : ℕ}
    → IsBorn s t id p
    → IsBorn s
        (record t {
          objects = update t.objects p (record (t.objects p) { task_queue_id = some id });
        })
        id
        p
controller-IsBorn b = record {
  nowhere = b.nowhere;
  sets = b.sets;
  others = λ q ne. ground (arith, b.others q ne);
  waits = ground (arith, b.waits);
  named = ground (arith, b.named);
  processes = b.processes;
  queues = b.queues;
  temporaries = b.temporaries;
  unused = b.unused;
  recycled = b.recycled;
  made = b.made;
  older = b.older;
  newer = b.newer;
  resources = b.resources;
}
