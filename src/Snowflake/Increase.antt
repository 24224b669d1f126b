-- ===== src/Snowflake/Increase.antt =====
-- The ids that one generator of zerosugar/shared/snowflake/snowflake.h gives in a row.
use zerosugar.Prelude.{
  ℕ, zero, suc, ◌+◌, ◌%◌, ◌^◌, ◌<◌, ◌≤◌, ◌≡◌, Option, none, some, List, [], ◌∷◌, arith, length, ◌⊎◌,
  inl, inr, Bool-cases, Option-cases, leb, ◌==◌,
}
use zerosugar.Snowflake.{Snowflake, wait, generate, id_of}
use zerosugar.Snowflake.Bits.{Fits, id_of-sum}

-- The clock does not go back, and stays in the range that an id can tell.
abbrev pub Readings : ℕ → ℕ → List ℕ → Type 0
Readings epoch last [] = Unit {0}
Readings epoch last (t ∷ ts) = (last ≤ t) × (epoch ≤ t) × (t < epoch + 2 ^ 42) × Readings epoch t ts

wait_lem :
    (epoch last prev t : ℕ) (ts rest : List ℕ)
    → Readings epoch prev ts
    → wait last ts ≡ some (t, rest)
    → (last < t) × (epoch ≤ t) × (t < epoch + 2 ^ 42) × Readings epoch t rest
unfolding wait
wait_lem epoch last prev t [] rest r e = ground arith
wait_lem epoch last prev t (u ∷ ts) rest r e = elim (Bool-cases (leb u last)) [
  | inl early ↦ wait_lem epoch last u t ts rest r.3 (ground (arith, e))
  | inr late ↦ ground (arith, e)
]

-- One generator comes after another: a later time, or the same time and a higher number.
abbrev Later : Snowflake → Snowflake → Type 0
Later s s' =
    (s.last_time_point < s'.last_time_point)
    ⊎ ((s.last_time_point ≡ s'.last_time_point) × (s.sequence < s'.sequence))

abbrev Step : ℕ → Snowflake → ℕ × Snowflake × List ℕ → Type 0
Step epoch s (i, s', rest) =
    (i ≡ id_of epoch s')
    × Later s s'
    × Readings epoch s'.last_time_point rest
    × (epoch ≤ s'.last_time_point)
    × (s'.last_time_point < epoch + 2 ^ 42)
    × (s'.sequence < 2 ^ 12)
    × (s'.machine_id ≡ s.machine_id)
    × (s'.data_center_id ≡ s.data_center_id)

module _ (epoch : ℕ) where
  generate-Step :
      (s : Snowflake) (readings : List ℕ) (result : ℕ × Snowflake × List ℕ)
      → s.sequence < 2 ^ 12
      → Readings epoch s.last_time_point readings
      → generate epoch s readings ≡ some result
      → Step epoch s result
  unfolding generate
  generate-Step s [] result small r e = ground arith
  generate-Step s (t ∷ ts) result small r e = elim (Bool-cases (t == s.last_time_point)) [
    | inr later ↦ ground (arith, e, r.0, r.1, r.2, r.3)
    | inl same ↦ elim (Bool-cases ((s.sequence + 1) % 2 ^ 12 == 0)) [
      | inr more ↦ ground (arith, e, r.0, r.1, r.2, r.3)
      | inl over ↦ elim (Option-cases (wait s.last_time_point ts)) [
        | inl out ↦ ground (arith, e, out)
        | inr (next, found) ↦
            let after = wait_lem epoch s.last_time_point t next.0 ts next.1 r.3 found in
            ground (arith, e, found, after)
      ]
    ]
  ]

  Step-Fits :
      (s : Snowflake) (i : ℕ) (s' : Snowflake) (rest : List ℕ)
      → s.machine_id < 2 ^ 5
      → s.data_center_id < 2 ^ 5
      → Step epoch s (i, s', rest)
      → Fits epoch s'
  Step-Fits s i s' rest m d (_, _, _, begun, within, small, machine, center) = record {
    machine = omega arith;
    data_center = omega arith;
    sequence = small;
    begun = begun;
    within = within;
  }

  id_of-Later :
      (s s' : Snowflake)
      → Fits epoch s
      → Fits epoch s'
      → s'.machine_id ≡ s.machine_id
      → s'.data_center_id ≡ s.data_center_id
      → Later s s'
      → id_of epoch s < id_of epoch s'
  id_of-Later s s' f g m d later =
      let small : s.sequence < 2 ^ 12 = f.sequence in
      let machine : s.machine_id < 2 ^ 5 = f.machine in
      let center : s.data_center_id < 2 ^ 5 = f.data_center in
      let begun : epoch ≤ s.last_time_point = f.begun in
      elim later [
        | inl time ↦ omega (arith, id_of-sum epoch s f, id_of-sum epoch s' g)
        | inr (same, more) ↦ omega (arith, id_of-sum epoch s f, id_of-sum epoch s' g)
      ]

  -- Calls of `Generate` in a row.
  unfoldable pub generate_all : ℕ → Snowflake → List ℕ → Option (List ℕ)
  generate_all zero s readings = some []
  generate_all (suc n) s readings = elim (generate epoch s readings) [
    | none ↦ none
    | some (i, s', rest) ↦ elim (generate_all n s' rest) [ none ↦ none | some ids ↦ some (i ∷ ids) ]
  ]

  abbrev pub Above : ℕ → List ℕ → Type 0
  Above low [] = Unit {0}
  Above low (i ∷ ids) = (low < i) × Above i ids

  generate_all_first :
      (n : ℕ) (s : Snowflake) (readings ids : List ℕ)
      → generate_all (suc n) s readings ≡ some ids
      → (i : ℕ) × (s' : Snowflake) × (rest more : List ℕ) × (generate epoch s readings
          ≡ some (i, s', rest))
        × (generate_all n s' rest ≡ some more)
        × (ids ≡ i ∷ more)
  unfolding generate_all
  generate_all_first n s readings ids e = elim (Option-cases (generate epoch s readings)) [
    | inl out ↦ ground (arith, e, out)
    | inr ((i, s', rest), made) ↦ elim (Option-cases (generate_all n s' rest)) [
      | inl out ↦ ground (arith, e, made, out)
      | inr (more, all) ↦ (i, s', rest, more, made, all, ground (arith, e, made, all))
    ]
  ]

  generate_all-Above :
      (n : ℕ) (s : Snowflake) (readings ids : List ℕ)
      → Fits epoch s
      → Readings epoch s.last_time_point readings
      → generate_all n s readings ≡ some ids
      → Above (id_of epoch s) ids × (length ids ≡ n)
  generate_all-Above zero s readings ids f r e = unfold generate_all in ground (arith, e)
  generate_all-Above (suc n) s readings ids f r e =
      let (i, s', rest, more, made, all, whole) = generate_all_first n s readings ids e in
      let step : Step epoch s (i, s', rest) = generate-Step s readings _ f.sequence r made in
      let f' : Fits epoch s' = Step-Fits s i s' rest f.machine f.data_center step in
      let (same, later, r', _, _, _, m, d) = step in
      let (above, len) = generate_all-Above n s' rest more f' r' all in
      let higher : id_of epoch s < id_of epoch s' = id_of-Later s s' f f' m d later in
      rw (whole, same) ((higher, above), omega arith)

  -- Calls of `Generate` in a row on one generator, new or used, give as many ids as calls, each larger
  -- than the one before, when the machine and the data center fit their five bits and the sequence
  -- number its twelve, the clock does not go back, its readings are not before the epoch and less than
  -- `2 ^ 42` after it, and they suffice for all the calls.
  pub ids_increase :
      (n : ℕ) (s : Snowflake) (readings ids : List ℕ)
      → s.machine_id < 2 ^ 5
      → s.data_center_id < 2 ^ 5
      → s.sequence < 2 ^ 12
      → Readings epoch s.last_time_point readings
      → generate_all (suc n) s readings ≡ some ids
      → (i : ℕ) × (more : List ℕ) × (ids ≡ i ∷ more) × Above i more × (length ids ≡ suc n)
  ids_increase n s readings ids m d small r e =
      let (i, s', rest, more, made, all, whole) = generate_all_first n s readings ids e in
      let step : Step epoch s (i, s', rest) = generate-Step s readings _ small r made in
      let f' : Fits epoch s' = Step-Fits s i s' rest m d step in
      let (same, _, r', _, _, _, _, _) = step in
      let (above, len) = generate_all-Above n s' rest more f' r' all in
      (i, more, whole, rw same above, rw whole (omega arith))
