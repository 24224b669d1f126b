-- ===== src/Scheduler/Exits.antt =====
-- `ExitProcess` on a scheduler whose sets, ids and queues agree.
use zerosugar.Prelude.{
  if◌then◌else◌, subst, ◌∷◌, ℕ, ◌≡◌, ◌≢◌, refl, sym, true, false, Option, none, some, arith,
  Bool-cases, inl, inr,
}
use zerosugar.Scheduler.Process.{
  ProcessId, controller, temporary, same_id, Scheduler, exit_process, without_queue,
}
use zerosugar.Scheduler.Place.{
  IsStanding, Place, recycles, Same, Place-same, Same-IsStanding, Same-stood, Place-rest,
  exit_process-Same, exit_process-Place, standing_lem,
}
use zerosugar.Scheduler.Valid.{IsValid, IsKnown, Owns}
use zerosugar.Scheduler.Moves.{address_cases}

pub same_id_eq : (a b : ProcessId) → same_id a b ≡ true → a ≡ b
same_id_eq (controller a) (controller b) e = ground arith
same_id_eq (temporary a) (temporary b) e = ground arith
same_id_eq (controller a) (temporary b) e = cc
same_id_eq (temporary a) (controller b) e = cc

pub same_id_self : (a : ProcessId) → same_id a a ≡ true
same_id_self (controller a) = ground arith
same_id_self (temporary a) = ground arith

some_eq : {a b : ℕ} → some a ≡ some b → a ≡ b
some_eq e = cc

-- The queue of a controller is erased only with the controller's process.
pub queues_lem :
    (s : Scheduler) (id : ProcessId) (queue : Option ProcessId) (n : ℕ)
    → Owns s id queue
    → same_id (controller n) id ≡ false
    → without_queue s queue (controller n) ≡ s.queues (controller n)
queues_lem s (temporary id) queue n (e, le) other = rw e refl
queues_lem s (controller id) queue n (e, here) other = rw (e, other) refl

module _ (s : Scheduler) (p : ℕ) (v : IsValid s) (here : IsStanding s p) where
  pub own : IsKnown s (s.objects p).id p
  own = v.known (s.objects p).id p (v.registered p here)

  pub exit_lem :
      let t : Scheduler = exit_process s p in
      (t.recycled ≡ p ∷ s.recycled)
      × (t.next_address ≡ s.next_address)
      × (t.next_temp_process_id ≡ s.next_temp_process_id)
      × ((id : ProcessId)
          → t.processes id ≡ (if same_id id (s.objects p).id then none else s.processes id))
      × ((id : ProcessId) → t.queues id ≡ without_queue s (s.objects p).task_queue_id id)
  unfolding exit_process
  exit_lem = (refl, refl, refl, (λ id. refl), (λ id. refl))

  exit_placed : (q : ℕ) → Place (exit_process s p) q
  exit_placed q =
      let (r, n, _, _, _) = exit_lem in
      let (r0, n0) = Place-rest (v.placed p) here in
      elim (address_cases q p) [
        | inl e ↦
            rw e (recycles (exit_process-Place s p here) (rw r (ground (arith, r0))) (rw n n0))
        | inr ne ↦ Place-same (exit_process-Same s p q ne) (rw r (ground arith)) n (v.placed q)
      ]

  exit-Owns :
      (id : ProcessId) (queue : Option ProcessId)
      → same_id id (s.objects p).id ≡ false
      → Owns s id queue
      → Owns (exit_process s p) id queue
  exit-Owns (temporary id) queue other (e, le) =
      let (r, n, temps, _, _) = exit_lem in (e, omega (arith, temps, le))
  exit-Owns (controller id) queue other (e, (tasks, there)) =
      let (_, _, _, _, queues) = exit_lem in
      (
        e,
        (
          tasks,
          rw
              (
                queues (controller id),
                queues_lem s (s.objects p).id (s.objects p).task_queue_id id own.owns other,
              )
              there,
        ),
      )

  -- One that is left stands where it stood.
  exit_left :
      (id : ProcessId) (q : ℕ)
      → same_id id (s.objects p).id ≡ false
      → s.processes id ≡ some q
      → q ≢ p
  exit_left id q other e same =
      let named : (s.objects q).id ≡ id = (v.known id q e).named in
      ground (arith, same, named, other, same_id_self id)

  exit_known :
      (id : ProcessId) (q : ℕ)
      → (exit_process s p).processes id ≡ some q
      → IsKnown (exit_process s p) id q
  exit_known id q e =
      let (_, _, _, processes, _) = exit_lem in
      elim (Bool-cases (same_id id (s.objects p).id)) [
        | inl same ↦ ground (arith, e, processes id, same)
        | inr other ↦
            let there : s.processes id ≡ some q = ground (arith, e, processes id, other) in
            let known : IsKnown s id q = v.known id q there in
            let kept : Same s (exit_process s p) q =
              exit_process-Same s p q (exit_left id q other there) in
            record {
              standing = Same-IsStanding kept known.standing;
              named = rw kept.object known.named;
              owns = rw kept.object (exit-Owns id (s.objects q).task_queue_id other known.owns);
            }
      ]

  exit_registered :
      (q : ℕ)
      → IsStanding (exit_process s p) q
      → (exit_process s p).processes ((exit_process s p).objects q).id ≡ some q
  exit_registered q there = elim (address_cases q p) [
    | inl e ↦
        let t : Scheduler = exit_process s p in
        ground (
          arith,
          standing_lem t p (subst (λ x. IsStanding t x) e there),
          exit_process-Place s p here (t.objects p).state,
        )
    | inr ne ↦
        let kept : Same s (exit_process s p) q = exit_process-Same s p q ne in
        let (_, _, _, processes, _) = exit_lem in
        let before : s.processes (s.objects q).id ≡ some q =
          v.registered q (Same-stood kept there) in
        elim (Bool-cases (same_id (s.objects q).id (s.objects p).id)) [
          | inl same ↦
              let own_ : s.processes (s.objects p).id ≡ some q =
                rw (sym (same_id_eq (s.objects q).id (s.objects p).id same)) before in
              ground (arith, own_, v.registered p here, ne)
          | inr other ↦ rw (kept.object, processes (s.objects q).id, other) before
        ]
  ]

  pub exit_process-IsValid : IsValid (exit_process s p)
  exit_process-IsValid = record {
    placed = exit_placed;
    known = exit_known;
    registered = exit_registered;
  }
