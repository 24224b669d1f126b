-- ===== src/Snowflake/Arrive.antt =====
-- When the calls of `Generate` of zerosugar/shared/snowflake/snowflake.h get their ids.
use zerosugar.Prelude.{
  ℕ, zero, suc, ◌+◌, ◌%◌, ◌^◌, ◌<◌, ◌≤◌, ◌≡◌, refl, some, List, [], ◌∷◌, arith, length, inl, inr,
  Bool-cases, leb, ◌==◌, ltb, if◌then◌else◌,
}
use zerosugar.Snowflake.{Snowflake, wait, generate, id_of}
use zerosugar.Snowflake.Increase.{Readings, generate_all, Above, ids_increase}

-- How often the clock moves on.
abbrev pub rises : ℕ → List ℕ → ℕ
rises last [] = 0
rises last (t ∷ ts) = (if ltb last t then 1 else 0) + rises t ts

-- A wait ends when the clock moves on.
wait-some :
    (epoch n last prev : ℕ) (ts : List ℕ)
    → prev ≡ last
    → Readings epoch prev ts
    → suc n ≤ rises prev ts
    → (t : ℕ) × (rest : List ℕ) × (wait last ts ≡ some (t, rest))
      × Readings epoch t rest
      × (n ≤ rises t rest)
unfolding wait
wait-some epoch n last prev [] same r enough = absurd (omega arith)
wait-some epoch n last prev (t ∷ ts) same r enough = elim (Bool-cases (leb t last)) [
  | inl early ↦
      let (u, rest, found, r', left) =
        wait-some epoch n last t ts (ground arith) r.3 (ground (arith, early)) in
      (u, rest, ground (arith, early, found), r', left)
  | inr late ↦ (t, ts, ground (arith, late), r.3, ground (arith, late))
]

module _ (epoch : ℕ) where
  generate-some :
      (n : ℕ) (s : Snowflake) (readings : List ℕ)
      → Readings epoch s.last_time_point readings
      → suc n ≤ rises s.last_time_point readings
      → (i : ℕ) × (s' : Snowflake) × (rest : List ℕ) × (generate epoch s readings
          ≡ some (i, s', rest))
        × Readings epoch s'.last_time_point rest
        × (n ≤ rises s'.last_time_point rest)
  unfolding generate
  generate-some n s [] r enough = absurd (omega arith)
  generate-some n s (t ∷ ts) r enough =
      let next : ℕ = (s.sequence + 1) % 2 ^ 12 in
      elim (Bool-cases (t == s.last_time_point)) [
        | inr later ↦
            let s' : Snowflake = record s { sequence = 0; last_time_point = t } in
            (id_of epoch s', s', ts, ground (arith, later), r.3, ground (arith, later))
        | inl same ↦ elim (Bool-cases (next == 0)) [
          | inr more ↦
              let s' : Snowflake = record s { sequence = next; last_time_point = t } in
              (id_of epoch s', s', ts, ground (arith, same, more), r.3, ground (arith, same))
          | inl over ↦
              let (u, rest, found, r', left) =
                wait-some epoch n s.last_time_point t ts (ground arith) r.3
                  (ground (arith, same)) in
              let s' : Snowflake = record s { sequence = next; last_time_point = u } in
              (id_of epoch s', s', rest, ground (arith, same, over, found), r', left)
        ]
      ]

  generate_all-some :
      (n : ℕ) (s : Snowflake) (readings : List ℕ)
      → Readings epoch s.last_time_point readings
      → n ≤ rises s.last_time_point readings
      → (ids : List ℕ) × (generate_all epoch n s readings ≡ some ids)
  unfolding generate_all
  generate_all-some zero s readings r enough = ([], refl)
  generate_all-some (suc n) s readings r enough =
      let (i, s', rest, made, r', left) = generate-some n s readings r enough in
      let (ids, e) = generate_all-some n s' rest r' left in (i ∷ ids, ground (arith, made, e))

  -- Calls of `Generate` in a row on one generator all give their ids, each larger than the one before,
  -- when the machine and the data center fit their five bits and the sequence number its twelve, the
  -- clock does not go back, its readings, which may repeat, are not before the epoch and less than
  -- `2 ^ 42` after it, and it moves on at least as often as there are calls: a call whose sequence
  -- number overflows waits for the next time, and gets it.
  pub ids_arrive :
      (n : ℕ) (s : Snowflake) (readings : List ℕ)
      → s.machine_id < 2 ^ 5
      → s.data_center_id < 2 ^ 5
      → s.sequence < 2 ^ 12
      → Readings epoch s.last_time_point readings
      → suc n ≤ rises s.last_time_point readings
      → (i : ℕ) × (more : List ℕ) × (generate_all epoch (suc n) s readings ≡ some (i ∷ more))
        × Above epoch i more
        × (length (i ∷ more) ≡ suc n)
  ids_arrive n s readings m d small r enough =
      let (ids, e) = generate_all-some (suc n) s readings r enough in
      let (i, more, whole, above, len) = ids_increase epoch n s readings ids m d small r e in
      (i, more, rw (e, whole) refl, above, rw whole at len)
