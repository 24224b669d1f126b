-- ===== src/Snowflake/Bits.antt =====
-- The fields of an id of zerosugar/shared/snowflake/snowflake.h.
use native.Mathlib.Nat.{pow-suc}
use zerosugar.Prelude.{
  ℕ, zero, suc, ◌+◌, ◌-◌, ◌*◌, ◌/◌, ◌%◌, ◌^◌, ◌<◌, ◌≤◌, ◌≡◌, arith, ap, ◌∙◌, refl,
}
use zerosugar.Snowflake.{bit_or, Snowflake, id_of}

bit_or_zero : (n a : ℕ) → a < 2 ^ n → bit_or n a 0 ≡ a
unfolding bit_or
bit_or_zero zero a h = omega arith
bit_or_zero (suc n) a h =
    omega (arith, pow-suc 2 n, bit_or_zero n (a / 2) (omega (arith, pow-suc 2 n)))

pub bit_or_disjoint :
    (n k a b : ℕ) → b < 2 ^ k → a * 2 ^ k + b < 2 ^ n → bit_or n (a * 2 ^ k) b ≡ a * 2 ^ k + b
unfolding bit_or
bit_or_disjoint zero k a b p q = omega arith
bit_or_disjoint (suc n) zero a b p q =
    let e : b ≡ 0 = omega arith in
    let one : a * 2 ^ 0 ≡ a = omega arith in
    rw (e, one) (bit_or_zero (suc n) a (omega arith) ∙ omega arith)
bit_or_disjoint (suc n) (suc k) a b p q =
    let double : a * 2 ^ suc k ≡ 2 * (a * 2 ^ k) =
      omega (arith, ap (λ (t : ℕ). a * t) (pow-suc 2 k)) in
    let half : a * 2 ^ suc k / 2 ≡ a * 2 ^ k = omega arith in
    let rest =
      bit_or_disjoint n k a (b / 2) (omega (arith, pow-suc 2 k)) (omega (arith, pow-suc 2 n)) in
    rw half (omega (arith, rest))

-- A generator whose parts fit their fields, at a time that the id can tell.
pub record Fits (epoch : ℕ) (s : Snowflake) : Type 0 where
  pub machine : s.machine_id < 2 ^ 5
  pub data_center : s.data_center_id < 2 ^ 5
  pub sequence : s.sequence < 2 ^ 12
  pub begun : epoch ≤ s.last_time_point
  pub within : s.last_time_point < epoch + 2 ^ 42

joined : (v a k b : ℕ) → v ≡ a * 2 ^ k → b < 2 ^ k → v + b < 2 ^ 64 → bit_or 64 v b ≡ v + b
joined v a k b e p q = rw e (bit_or_disjoint 64 k a b p (rw e at q))

pub id_of-sum :
    (epoch : ℕ) (s : Snowflake)
    → Fits epoch s
    → id_of epoch s
      ≡ (s.last_time_point - epoch) * 2 ^ 22
        + s.data_center_id * 2 ^ 17
        + s.machine_id * 2 ^ 12
        + s.sequence
unfolding id_of
id_of-sum epoch s f =
    let small_machine : s.machine_id < 2 ^ 5 = f.machine in
    let small_center : s.data_center_id < 2 ^ 5 = f.data_center in
    let small_sequence : s.sequence < 2 ^ 12 = f.sequence in
    let begun : epoch ≤ s.last_time_point = f.begun in
    let within : s.last_time_point < epoch + 2 ^ 42 = f.within in
    let x : ℕ = s.last_time_point - epoch in
    let y : ℕ = x * 2 ^ 22 + s.data_center_id * 2 ^ 17 in
    let z : ℕ = y + s.machine_id * 2 ^ 12 in
    let passed : (s.last_time_point + 2 ^ 64 - epoch) % 2 ^ 64 ≡ x = omega arith in
    let time : x * 2 ^ 22 % 2 ^ 64 ≡ x * 2 ^ 22 = omega arith in
    let center : s.data_center_id * 2 ^ 17 % 2 ^ 64 ≡ s.data_center_id * 2 ^ 17 = omega arith in
    let machine : s.machine_id * 2 ^ 12 % 2 ^ 64 ≡ s.machine_id * 2 ^ 12 = omega arith in
    let first : bit_or 64 (x * 2 ^ 22) (s.data_center_id * 2 ^ 17) ≡ y =
      joined (x * 2 ^ 22) x 22 (s.data_center_id * 2 ^ 17) refl (omega arith) (omega arith) in
    let second : bit_or 64 y (s.machine_id * 2 ^ 12) ≡ z =
      joined y (x * 2 ^ 5 + s.data_center_id) 17 (s.machine_id * 2 ^ 12) (omega arith) (omega arith)
        (omega arith) in
    let third : bit_or 64 z s.sequence ≡ z + s.sequence =
      joined z ((x * 2 ^ 5 + s.data_center_id) * 2 ^ 5 + s.machine_id) 12 s.sequence (omega arith)
        (omega arith) (omega arith) in
    rw (passed, time, center, machine, first, second, third)
