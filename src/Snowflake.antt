-- ===== src/Snowflake.antt =====
-- zerosugar/shared/snowflake/snowflake.h: ids of 64 bits from the time, the machine and a sequence
-- number. The clock is the list of its readings; `none` means that they have run out.
pub mod Bits
pub mod Increase
pub mod Arrive
use zerosugar.Prelude.{
  ℕ, zero, suc, ◌+◌, ◌-◌, ◌*◌, ◌/◌, ◌%◌, ◌^◌, ◌==◌, Option, none, some, List, [], ◌∷◌,
  if◌then◌else◌, leb, max,
}

-- `a | b` on the lowest `n` bits, and `a << k` of 64 bits.
unfoldable pub bit_or : ℕ → ℕ → ℕ → ℕ
bit_or zero a b = 0
bit_or (suc n) a b = max (a % 2) (b % 2) + 2 * bit_or n (a / 2) (b / 2)

abbrev pub shift_left : ℕ → ℕ → ℕ
shift_left a k = a * 2 ^ k % 2 ^ 64

pub record Snowflake : Type 0 where
  pub machine_id : ℕ
  pub data_center_id : ℕ
  pub sequence : ℕ
  pub last_time_point : ℕ

-- The loop that waits for a later time.
unfoldable pub wait : ℕ → List ℕ → Option (ℕ × List ℕ)
wait last [] = none
wait last (t ∷ readings) =
    let later : Option (ℕ × List ℕ) = wait last readings in
    if leb t last then later else some (t, readings)

module _ (epoch : ℕ) where
  -- The expression that is returned.
  unfoldable pub id_of : Snowflake → ℕ
  id_of s =
      bit_or 64
        (bit_or 64
          (bit_or 64 (shift_left ((s.last_time_point + 2 ^ 64 - epoch) % 2 ^ 64) 22)
            (shift_left s.data_center_id 17))
          (shift_left s.machine_id 12))
        s.sequence

  abbrev pub stamped : Snowflake → ℕ → ℕ → List ℕ → ℕ × Snowflake × List ℕ
  stamped s time_point sequence readings =
      let s' = record s { sequence = sequence; last_time_point = time_point } in
      (id_of s', s', readings)

  -- `Generate()`; the mask of the sequence number is `2 ^ 12 - 1`.
  unfoldable pub generate : Snowflake → List ℕ → Option (ℕ × Snowflake × List ℕ)
  unfolding wait
  generate s [] = none
  generate s (t ∷ readings) =
      let sequence = (s.sequence + 1) % 2 ^ 12 in
      let waited : Option (ℕ × Snowflake × List ℕ) = elim (wait s.last_time_point readings) [
        | none ↦ none
        | some (later, rest) ↦ some (stamped s later sequence rest)
      ] in
      if t == s.last_time_point
      then if sequence == 0 then waited else some (stamped s t sequence readings)
      else some (stamped s t 0 readings)
