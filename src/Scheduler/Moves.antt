-- ===== src/Scheduler/Moves.antt =====
-- The primitives that move a process, on a scheduler whose sets, ids and queues agree.
use zerosugar.Prelude.{
  ℕ, ◌≡◌, ◌≢◌, refl, ◌==◌, Bool, false, Option, arith, Bool-cases, inl, inr, ◌⊎◌,
}
use zerosugar.Scheduler.Process.{Task, ProcessState, Scheduler, change_state}
use zerosugar.Scheduler.Place.{
  IsStanding, stands, Place-same, Same-IsStanding, Same-stood, Place-rest, change_state-Same,
  change_state-Place,
}
use zerosugar.Scheduler.Valid.{IsValid, Keeps}

pub address_cases : (q p : ℕ) → (q ≡ p) ⊎ (q ≢ p)
address_cases q p = elim (Bool-cases (q == p)) [
  | inl same ↦ inl (ground arith)
  | inr other ↦ inr (λ e. ground arith)
]

module _ (s : Scheduler) (p : ℕ) (new : ProcessState) (set_task : Bool) (task : Option Task) where
  pub moved_state : ((change_state s p new set_task task).objects p).state ≡ new
  unfolding change_state
  moved_state = ground arith

  kept_ids :
      (q : ℕ)
      → (((change_state s p new set_task task).objects q).id ≡ (s.objects q).id)
        × (((change_state s p new set_task task).objects q).task_queue_id
            ≡ (s.objects q).task_queue_id)
  unfolding change_state
  kept_ids q = ground arith

  kept_rest :
      let t : Scheduler = change_state s p new set_task task in
      (t.recycled ≡ s.recycled)
      × (t.next_address ≡ s.next_address)
      × (t.processes ≡ s.processes)
      × (t.queues ≡ s.queues)
      × (t.next_temp_process_id ≡ s.next_temp_process_id)
  unfolding change_state
  kept_rest = (refl, refl, refl, refl, refl)

  moved-IsStanding : IsStanding s p → IsStanding (change_state s p new set_task task) p
  moved-IsStanding here = λ st. rw moved_state (change_state-Place s p new set_task task here st)

  pub change_state-Keeps : IsValid s → IsStanding s p → Keeps s (change_state s p new set_task task)
  change_state-Keeps v here =
      let (r, n, ps, qs, temps) = kept_rest in
      let (r0, n0) = Place-rest (v.placed p) here in
      record {
        places = λ q place. elim (address_cases q p) [
          | inl e ↦ rw e (stands (moved-IsStanding here) (rw r r0) (rw n n0))
          | inr ne ↦ Place-same (change_state-Same s p new set_task task q ne) (rw r refl) n place
        ];
        stays = λ q there. elim (address_cases q p) [
          | inl e ↦ rw e (moved-IsStanding here)
          | inr ne ↦ Same-IsStanding (change_state-Same s p new set_task task q ne) there
        ];
        stood = λ q there. elim (address_cases q p) [
          | inl e ↦ rw e here
          | inr ne ↦ Same-stood (change_state-Same s p new set_task task q ne) there
        ];
        ids = λ q. (kept_ids q).0;
        queue_ids = λ q. (kept_ids q).1;
        processes = λ id. rw ps refl;
        queued = λ id tasks e. (tasks, rw qs e);
        temporaries = omega (arith, temps);
      }

  pub kept_resources : (change_state s p new set_task task).resources ≡ s.resources
  unfolding change_state
  kept_resources = refl

  pub kept_task :
      set_task ≡ false → ((change_state s p new set_task task).objects p).task ≡ (s.objects p).task
  unfolding change_state
  kept_task e = rw e (ground arith)
