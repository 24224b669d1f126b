-- ===== src/Coordination/LoadBalancer.antt =====
-- zerosugar/xr/service/coordination/load_balance/load_balancer.cpp: game servers by how busy they are.
-- The free memory of a server is a floating point number; a type and the test whether it is below
-- zero stand for it. `Select` gives the id that it looks up in the node container.
pub mod Members
pub mod Choice
use zerosugar.Prelude.{
  ℕ, suc, ◌%◌, ◌==◌, Bool, true, false, ◌||◌, Option, none, some, List, [], ◌∷◌, ◌++◌,
  if◌then◌else◌, length, get_elem?, erase,
}
use zerosugar.Prelude.Int.{ℤ, pos, negsuc, ltb_ℤ}

pub data StatusCategory : Type 0 where
  healthy moderate busy invalid : StatusCategory

abbrev pub same_category : StatusCategory → StatusCategory → Bool
same_category healthy healthy = true
same_category moderate moderate = true
same_category busy busy = true
same_category invalid invalid = true
same_category _ _ = false

pub record ServerStatus (Memory : Type 0) : Type 0 where
  pub load_cpu_percentage : ℤ
  pub free_physical_memory_gb : Memory

-- `_statuses`, and the vectors and the counters of `_categorized`.
pub record LoadBalancer (Memory : Type 0) : Type 0 where
  pub statuses : ℕ → Option (ServerStatus Memory)
  pub members : StatusCategory → List ℕ
  pub rr_count : StatusCategory → ℕ

abbrev pub update_at {ℓ} :
    {V : Type ℓ} → (StatusCategory → V) → StatusCategory → V → StatusCategory → V
update_at f c v d = if same_category d c then v else f d

abbrev pub update_status {ℓ} : {V : Type ℓ} → (ℕ → V) → ℕ → V → ℕ → V
update_status f id v j = if j == id then v else f j

-- The private `Add` and `Remove`.
abbrev pub add_to :
    {Memory : Type 0} → LoadBalancer Memory → StatusCategory → ℕ → LoadBalancer Memory
add_to s c id = record s { members = update_at s.members c (s.members c ++ (id ∷ [])) }

abbrev pub remove_from :
    {Memory : Type 0} → LoadBalancer Memory → StatusCategory → ℕ → LoadBalancer Memory
remove_from s c id = record s { members = update_at s.members c (erase id (s.members c)) }

module _ {Memory : Type 0} (is_negative : Memory → Bool) where
  -- `IsInvalid`.
  abbrev pub is_invalid : ServerStatus Memory → Bool
  is_invalid status =
      ltb_ℤ status.load_cpu_percentage (pos 0) || is_negative status.free_physical_memory_gb

  -- `GetCategory`.
  unfoldable pub get_category : ServerStatus Memory → StatusCategory
  get_category status =
      if is_invalid status
      then invalid
      else if ltb_ℤ status.load_cpu_percentage (pos 20)
      then healthy
      else if ltb_ℤ status.load_cpu_percentage (pos 40)
      then moderate
      else busy

  -- The move between categories in `Update`.
  abbrev pub moved : LoadBalancer Memory → StatusCategory → StatusCategory → ℕ → LoadBalancer Memory
  moved s old new id = if same_category old new then s else add_to (remove_from s old id) new id

  -- `Update(id, status)`.
  unfoldable pub update : LoadBalancer Memory → ℕ → ServerStatus Memory → Bool × LoadBalancer Memory
  update s id status = elim (s.statuses id) [
    | none ↦ (false, s)
    | some old ↦ (
      true,
      record (moved s (get_category old) (get_category status) id) {
        statuses = update_status s.statuses id (some status);
      },
    )
  ]

  -- `Remove(id)`.
  unfoldable pub remove : LoadBalancer Memory → ℕ → Bool × LoadBalancer Memory
  remove s id = elim (s.statuses id) [
    | none ↦ (false, s)
    | some status ↦ (
      true,
      record (remove_from s (get_category status) id) {
        statuses = update_status s.statuses id none;
      },
    )
  ]

module _ {Memory : Type 0} (is_negative : Memory → Bool) (default_memory : Memory) where
  -- `defaultStatus`.
  abbrev pub default_status : ServerStatus Memory
  default_status = record {
    load_cpu_percentage = negsuc 2147483647;
    free_physical_memory_gb = default_memory;
  }

  -- `Add(id)`.
  unfoldable pub add : LoadBalancer Memory → ℕ → Bool × LoadBalancer Memory
  add s id = elim (s.statuses id) [
    | some status ↦ (false, s)
    | none ↦ (
      true,
      add_to (record s { statuses = update_status s.statuses id (some default_status) })
          (get_category is_negative default_status) id,
    )
  ]

-- What the loop of `Select` does with a category that is not empty.
abbrev pub choose :
    {Memory : Type 0} → LoadBalancer Memory → StatusCategory → LoadBalancer Memory × Option ℕ
choose s c = (
  record s { rr_count = update_at s.rr_count c (suc (s.rr_count c)) },
  get_elem? (s.members c) (s.rr_count c % length (s.members c)),
)

unfoldable pub select_from :
    {Memory : Type 0} → LoadBalancer Memory → List StatusCategory → LoadBalancer Memory × Option ℕ
select_from s [] = (s, none)
select_from s (c ∷ cs) =
    let later = select_from s cs in elim (s.members c) [ [] ↦ later | x ∷ xs ↦ choose s c ]

-- `Select`.
unfoldable pub select : {Memory : Type 0} → LoadBalancer Memory → LoadBalancer Memory × Option ℕ
unfolding select_from
select s = select_from s (healthy ∷ moderate ∷ busy ∷ invalid ∷ [])
