-- ===== src/Tests/Balance.antt =====
-- Runs of zerosugar/xr/service/coordination/load_balance: one healthy server, number 5.
use zerosugar.Prelude.{
  ℕ, ◌≡◌, ◌≢◌, ◌⊎◌, ◌==◌, Bool, true, false, none, some, [], ◌∷◌, if◌then◌else◌, arith,
}
use zerosugar.Prelude.Int.{pos}
use zerosugar.Coordination.LoadBalancer.{
  healthy, moderate, busy, invalid, same_category, ServerStatus, LoadBalancer, get_category, update,
  select,
}
use zerosugar.Coordination.LoadBalancer.Members.{IsValid, update_server_cases}
use zerosugar.Coordination.LoadBalancer.Choice.{Nobody, Chosen, select_server_cases}

-- Gigabytes, never below zero.
abbrev is_negative : ℕ → Bool
is_negative gigabytes = false

abbrev calm : ServerStatus ℕ
calm = record { load_cpu_percentage = pos 10; free_physical_memory_gb = 8 }

abbrev loaded : ServerStatus ℕ
loaded = record { load_cpu_percentage = pos 90; free_physical_memory_gb = 1 }

abbrev balancer : LoadBalancer ℕ
balancer = record {
  statuses = λ id. if id == 5 then some calm else none;
  members = λ c. if same_category c healthy then 5 ∷ [] else [];
  rr_count = λ c. 0;
}

balancer-IsValid : IsValid is_negative balancer
unfolding get_category
balancer-IsValid c id = ground arith

update_server_cases_example :
    let (done, s') = update is_negative balancer 5 loaded in
    IsValid is_negative s'
    × ((j : ℕ) → j ≢ 5 → s'.statuses j ≡ balancer.statuses j)
    × (((balancer.statuses 5 ≡ none) × (done ≡ false) × (s' ≡ balancer))
        ⊎ ((old : ServerStatus ℕ) × (balancer.statuses 5 ≡ some old)
            × (done ≡ true)
            × (s'.statuses 5 ≡ some loaded)))
update_server_cases_example = update_server_cases is_negative balancer 5 loaded balancer-IsValid

select_server_cases_example :
    let categories = healthy ∷ moderate ∷ busy ∷ invalid ∷ [] in
    (Nobody balancer categories × (select balancer ≡ (balancer, none)))
    ⊎ Chosen balancer categories (select balancer)
select_server_cases_example = select_server_cases balancer
