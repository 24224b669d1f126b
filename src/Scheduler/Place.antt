-- ===== src/Scheduler/Place.antt =====
-- Where a process stands, and how `ChangeState`, `CreateProcess` and `ExitProcess` of
-- zerosugar/xr/server/game/instance/task/game_task_scheduler.cpp move it.
use zerosugar.Prelude.{
  ℕ, ◌+◌, ◌-◌, ◌≤◌, ◌<◌, ◌≡◌, ◌≢◌, refl, sym, ◌==◌, Bool, true, Option, List, [], ◌∷◌,
  if◌then◌else◌, arith, count, count-erase, Bool-cases, inl, inr,
}
use zerosugar.Scheduler.Process.{
  ProcessId, Task, ProcessState, running, ready, waiting, same_state, Process, Scheduler, insert,
  change_state, extracted, create_at, exit_process, compare_process,
}

-- A process stands in the set of its state, once, and in no other.
abbrev pub IsStanding : Scheduler → ℕ → Type 0
IsStanding s p =
    (st : ProcessState)
    → count p (s.states st) ≡ (if same_state st (s.objects p).state then 1 else 0)

-- It stands, or is kept for reuse, or is not made yet.
pub data Place (s : Scheduler) (p : ℕ) : Type 0 where
  stands : IsStanding s p → count p s.recycled ≡ 0 → p < s.next_address → Place s p
  recycles :
      ((st : ProcessState) → count p (s.states st) ≡ 0)
      → count p s.recycled ≡ 1
      → p < s.next_address
      → Place s p
  fresh :
      ((st : ProcessState) → count p (s.states st) ≡ 0)
      → count p s.recycled ≡ 0
      → s.next_address ≤ p
      → Place s p

-- The process `q` stands where it stood, with what it had.
pub record Same (s t : Scheduler) (q : ℕ) : Type 0 where
  pub stood : (st : ProcessState) → count q (t.states st) ≡ count q (s.states st)
  pub object : t.objects q ≡ s.objects q

pub Place-same :
    {s t : Scheduler} {q : ℕ}
    → Same s t q
    → count q t.recycled ≡ count q s.recycled
    → t.next_address ≡ s.next_address
    → Place s q
    → Place t q
Place-same e r n (stands a b c) =
    stands (λ st. rw (e.stood st, e.object) (a st)) (rw r b) (omega (arith, n, c))
Place-same e r n (recycles a b c) =
    recycles (λ st. rw (e.stood st) (a st)) (rw r b) (omega (arith, n, c))
Place-same e r n (fresh a b c) = fresh (λ st. rw (e.stood st) (a st)) (rw r b) (omega (arith, n, c))

pub same_state_eq : (a b : ProcessState) → same_state a b ≡ true → a ≡ b
same_state_eq running running h = refl
same_state_eq ready ready h = refl
same_state_eq waiting waiting h = refl
same_state_eq running ready h = cc
same_state_eq running waiting h = cc
same_state_eq ready running h = cc
same_state_eq ready waiting h = cc
same_state_eq waiting running h = cc
same_state_eq waiting ready h = cc

pub same_state_self : (a : ProcessState) → same_state a a ≡ true
same_state_self running = refl
same_state_self ready = refl
same_state_self waiting = refl

-- A process that stands is in its set, and one in a set stands.
pub standing_lem :
    (s : Scheduler) (p : ℕ) → IsStanding s p → 0 < count p (s.states (s.objects p).state)
standing_lem s p here =
    ground (arith, here (s.objects p).state, same_state_self (s.objects p).state)

pub Place-IsStanding :
    {s : Scheduler} {p : ℕ}
    → Place s p
    → (st : ProcessState) → 0 < count p (s.states st)
    → IsStanding s p × ((s.objects p).state ≡ st)
Place-IsStanding {s} {p} (stands a b c) st inside =
    elim (Bool-cases (same_state st (s.objects p).state)) [
      | inl same ↦ (a, sym (same_state_eq st (s.objects p).state same))
      | inr other ↦ ground (arith, a st)
    ]
Place-IsStanding (recycles a b c) st inside = ground (arith, a st)
Place-IsStanding (fresh a b c) st inside = ground (arith, a st)

pub Place-rest :
    {s : Scheduler} {p : ℕ}
    → Place s p
    → IsStanding s p
    → (count p s.recycled ≡ 0) × (p < s.next_address)
Place-rest (stands a b c) here = (b, c)
Place-rest {s} {p} (recycles a b c) here =
    ground (arith, a (s.objects p).state, standing_lem s p here)
Place-rest {s} {p} (fresh a b c) here = ground (arith, a (s.objects p).state, standing_lem s p here)

pub Same-IsStanding : {s t : Scheduler} {q : ℕ} → Same s t q → IsStanding s q → IsStanding t q
Same-IsStanding e here = λ st. rw (e.stood st, e.object) (here st)

pub Same-stood : {s t : Scheduler} {q : ℕ} → Same s t q → IsStanding t q → IsStanding s q
Same-stood e here = λ st. rw (sym (e.stood st), sym e.object) (here st)

pub count-insert :
    (objects : ℕ → Process) (p q : ℕ) (ps : List ℕ)
    → count q (insert objects p ps) ≡ (if p == q then 1 else 0) + count q ps
unfolding insert
count-insert objects p q [] = omega arith
count-insert objects p q (x ∷ xs) = elim (Bool-cases (compare_process objects x p)) [
  | inl after ↦ rw after (omega (arith, count-insert objects p q xs))
  | inr here ↦ rw here refl
]

pub count-extracted :
    (s : Scheduler) (p q : ℕ) (st : ProcessState)
    → count q (extracted s p st) ≡ (
        if same_state st (s.objects p).state
        then (if q == p then count q (s.states st) - 1 else count q (s.states st))
        else count q (s.states st))
count-extracted s p q st = elim (Bool-cases (same_state st (s.objects p).state)) [
  | inl same ↦
      rw (same_state_eq st (s.objects p).state same, same_state_self (s.objects p).state)
        (count-erase p q (s.states (s.objects p).state))
  | inr other ↦ rw other refl
]

pub change_state-count :
    (s : Scheduler) (p : ℕ) (new : ProcessState) (set_task : Bool) (task : Option Task) (q : ℕ)
    (st : ProcessState)
    → count q ((change_state s p new set_task task).states st)
      ≡ (if same_state st new then (if p == q then 1 else 0) else 0) + count q (extracted s p st)
unfolding change_state
change_state-count s p new set_task task q st = elim (Bool-cases (same_state st new)) [
  | inl same ↦
      rw (same_state_eq st new same, same_state_self new) (count-insert _ p q (extracted s p new))
  | inr other ↦ rw other (omega arith)
]

change_state-object :
    (s : Scheduler) (p : ℕ) (new : ProcessState) (set_task : Bool) (task : Option Task) (q : ℕ)
    → q ≢ p
    → (change_state s p new set_task task).objects q ≡ s.objects q
unfolding change_state
change_state-object s p new set_task task q ne = ground arith

-- What `ChangeState` does to the processes that it does not move.
pub change_state-Same :
    (s : Scheduler) (p : ℕ) (new : ProcessState) (set_task : Bool) (task : Option Task) (q : ℕ)
    → q ≢ p
    → Same s (change_state s p new set_task task) q
change_state-Same s p new set_task task q ne = record {
  stood =
      λ st. ground (arith, change_state-count s p new set_task task q st, count-extracted s p q st);
  object = change_state-object s p new set_task task q ne;
}

-- And to the one that it moves.
pub change_state-Place :
    (s : Scheduler) (p : ℕ) (new : ProcessState) (set_task : Bool) (task : Option Task)
    → IsStanding s p
    → (st : ProcessState)
    → count p ((change_state s p new set_task task).states st)
      ≡ (if same_state st new then 1 else 0)
change_state-Place s p new set_task task here st =
    ground (arith, change_state-count s p new set_task task p st, count-extracted s p p st, here st)

-- `ExitProcess`, likewise.
pub exit_process-Same : (s : Scheduler) (p q : ℕ) → q ≢ p → Same s (exit_process s p) q
unfolding exit_process
exit_process-Same s p q ne = record {
  stood = λ st. ground (arith, count-extracted s p q st);
  object = ground arith;
}

pub exit_process-Place :
    (s : Scheduler) (p : ℕ)
    → IsStanding s p
    → (st : ProcessState) → count p ((exit_process s p).states st) ≡ 0
unfolding exit_process
exit_process-Place s p here st = ground (arith, count-extracted s p p st, here st)

pub create_at-count :
    (s : Scheduler) (id : ProcessId) (p q : ℕ) (st : ProcessState)
    → count q ((create_at s id p).states st)
      ≡ (if same_state st waiting then (if p == q then 1 else 0) else 0) + count q (s.states st)
create_at-count s id p q waiting = count-insert _ p q (s.states waiting)
create_at-count s id p q running = omega arith
create_at-count s id p q ready = omega arith
