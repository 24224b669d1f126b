-- ===== src/Scheduler/Births.antt =====
-- `CreateProcess` on a scheduler whose sets, ids and queues agree.
use zerosugar.Prelude.{
  if◌then◌else◌, subst, ℕ, ◌+◌, ◌≤◌, ◌<◌, ◌≡◌, ◌≢◌, refl, sym, ◌==◌, Option, none, some, arith,
  count, Bool-cases, inl, inr,
}
use zerosugar.Scheduler.Process.{
  ProcessId, controller, temporary, same_id, same_state, ProcessState, waiting, Scheduler,
}
use zerosugar.Scheduler.Place.{IsStanding, Place, stands, recycles, fresh, standing_lem}
use zerosugar.Scheduler.Valid.{IsValid, IsKnown, Owns}
use zerosugar.Scheduler.Moves.{address_cases}
use zerosugar.Scheduler.Exits.{same_id_eq, same_id_self}

-- Between the two, the process `p` comes, under the id.
pub record IsBorn (s t : Scheduler) (id : ProcessId) (p : ℕ) : Type 0 where
  pub nowhere : (st : ProcessState) → count p (s.states st) ≡ 0
  pub sets :
      (q : ℕ) (st : ProcessState)
      → count q (t.states st)
        ≡ (if same_state st waiting then (if p == q then 1 else 0) else 0) + count q (s.states st)
  pub others : (q : ℕ) → q ≢ p → t.objects q ≡ s.objects q
  pub waits : (t.objects p).state ≡ waiting
  pub named : (t.objects p).id ≡ id
  pub processes : (i : ProcessId) → t.processes i ≡ (if same_id i id then some p else s.processes i)
  pub queues : t.queues ≡ s.queues
  pub temporaries : t.next_temp_process_id ≡ s.next_temp_process_id
  pub unused : count p t.recycled ≡ 0
  pub recycled : (q : ℕ) → q ≢ p → count q t.recycled ≡ count q s.recycled
  pub made : p < t.next_address
  pub older : s.next_address ≤ t.next_address
  pub newer : (q : ℕ) → q ≢ p → s.next_address ≤ q → t.next_address ≤ q
  pub resources : t.resources ≡ s.resources

pub born-IsStanding : (s t : Scheduler) {id : ProcessId} (p : ℕ) → IsBorn s t id p → IsStanding t p
born-IsStanding s t p b st = rw b.waits (ground (arith, b.sets p st, b.nowhere st))

module _ {s t : Scheduler} {id : ProcessId} {p : ℕ} (v : IsValid s) (absent : s.processes id ≡ none)
    (b : IsBorn s t id p) (owns : Owns t id (t.objects p).task_queue_id) where
  other_sets : (q : ℕ) → q ≢ p → (st : ProcessState) → count q (t.states st) ≡ count q (s.states st)
  other_sets q ne st = ground (arith, b.sets q st, ne)

  other-IsStanding : (q : ℕ) → q ≢ p → IsStanding s q → IsStanding t q
  other-IsStanding q ne here st = rw (other_sets q ne st, b.others q ne) (here st)

  other-stood : (q : ℕ) → q ≢ p → IsStanding t q → IsStanding s q
  other-stood q ne here st = rw (sym (other_sets q ne st), sym (b.others q ne)) (here st)

  other-Place : (q : ℕ) → q ≢ p → Place s q → Place t q
  other-Place q ne (stands here r n) =
      stands (other-IsStanding q ne here) (rw (b.recycled q ne) r) (omega (arith, n, b.older))
  other-Place q ne (recycles here r n) =
      recycles (λ st. rw (other_sets q ne st) (here st)) (rw (b.recycled q ne) r)
        (omega (arith, n, b.older))
  other-Place q ne (fresh here r n) =
      fresh (λ st. rw (other_sets q ne st) (here st)) (rw (b.recycled q ne) r) (b.newer q ne n)

  other-Owns : (i : ProcessId) (queue : Option ProcessId) → Owns s i queue → Owns t i queue
  other-Owns (controller i) queue (e, (tasks, here)) = (e, (tasks, rw b.queues here))
  other-Owns (temporary i) queue (e, le) = (e, rw b.temporaries le)

  born_known : (i : ProcessId) (q : ℕ) → t.processes i ≡ some q → IsKnown t i q
  born_known i q e = elim (Bool-cases (same_id i id)) [
    | inl same ↦
        let here : p ≡ q = ground (arith, e, b.processes i, same) in
        let known : IsKnown t i p =
          rw (same_id_eq i id same)
            (record { standing = born-IsStanding s t p b; named = b.named; owns = owns }) in
        subst (λ x. IsKnown t i x) here known
    | inr other ↦
        let there : s.processes i ≡ some q = ground (arith, e, b.processes i, other) in
        let known : IsKnown s i q = v.known i q there in
        let ne : q ≢ p = λ same.
          ground (arith, same, b.nowhere (s.objects q).state, standing_lem s q known.standing) in
        record {
          standing = other-IsStanding q ne known.standing;
          named = rw (b.others q ne) known.named;
          owns = rw (b.others q ne) (other-Owns i (s.objects q).task_queue_id known.owns);
        }
  ]

  born_registered : (q : ℕ) → IsStanding t q → t.processes (t.objects q).id ≡ some q
  born_registered q here = elim (address_cases q p) [
    | inl e ↦ rw (e, b.named, b.processes id, same_id_self id) refl
    | inr ne ↦
        let before : s.processes (s.objects q).id ≡ some q =
          v.registered q (other-stood q ne here) in
        elim (Bool-cases (same_id (s.objects q).id id)) [
          | inl same ↦ ground (arith, before, absent, same_id_eq (s.objects q).id id same)
          | inr other ↦ rw (b.others q ne, b.processes (s.objects q).id, other) before
        ]
  ]

  pub IsBorn-IsValid : IsValid t
  IsBorn-IsValid = record {
    placed = λ q. elim (address_cases q p) [
      | inl e ↦ rw e (stands (born-IsStanding s t p b) b.unused b.made)
      | inr ne ↦ other-Place q ne (v.placed q)
    ];
    known = born_known;
    registered = born_registered;
  }
