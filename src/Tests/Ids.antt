-- ===== src/Tests/Ids.antt =====
-- Runs of zerosugar/shared/snowflake: three ids, two of them in one millisecond.
use zerosugar.Prelude.{ℕ, ◌≡◌, refl, some, List, [], ◌∷◌, length, arith}
use zerosugar.Snowflake.{Snowflake, generate}
use zerosugar.Snowflake.Increase.{generate_all, Above, ids_increase}
use zerosugar.Snowflake.Arrive.{ids_arrive}

abbrev machine : Snowflake
machine = record { machine_id = 3; data_center_id = 1; sequence = 0; last_time_point = 0 }

abbrev readings : List ℕ
readings = 1704034900 ∷ 1704034900 ∷ 1704034907 ∷ []

three_ids : (ids : List ℕ) × (generate_all 1704034800 3 machine readings ≡ some ids)
unfolding generate_all generate
three_ids = (_, refl)

ids_increase_example :
    (i : ℕ) × (more : List ℕ) × (three_ids.0 ≡ i ∷ more)
    × Above 1704034800 i more
    × (length three_ids.0 ≡ 3)
ids_increase_example =
    ids_increase 1704034800 2 machine readings three_ids.0 (omega arith) (omega arith) (omega arith)
      (
        omega arith,
        omega arith,
        omega arith,
        (omega arith, omega arith, omega arith, (omega arith, omega arith, omega arith, tt)),
      )
      three_ids.1

-- The sequence number of this millisecond is used up, and the clock stands still for a reading.
abbrev full_machine : Snowflake
full_machine = record {
  machine_id = 3;
  data_center_id = 1;
  sequence = 4095;
  last_time_point = 1704034900;
}

ids_arrive_example :
    (i : ℕ) × (more : List ℕ) × (generate_all 1704034800 2 full_machine
        (1704034900 ∷ 1704034900 ∷ 1704034907 ∷ 1704034908 ∷ [])
      ≡ some (i ∷ more))
    × Above 1704034800 i more
    × (length (i ∷ more) ≡ 2)
ids_arrive_example =
    ids_arrive 1704034800 1 full_machine (1704034900 ∷ 1704034900 ∷ 1704034907 ∷ 1704034908 ∷ [])
      (omega arith) (omega arith) (omega arith)
      (
        omega arith,
        omega arith,
        omega arith,
        (
          omega arith,
          omega arith,
          omega arith,
          (omega arith, omega arith, omega arith, (omega arith, omega arith, omega arith, tt)),
        ),
      )
      (omega arith)
