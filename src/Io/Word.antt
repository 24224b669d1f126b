-- ===== src/Io/Word.antt =====
-- Fixed-width integers as the source converts them: a value of `8 * k` bits is a bit pattern, a
-- number below `2 ^ (8 * k)`, and a signed type reads the upper half as negative.
use zerosugar.Prelude.{ℕ, ◌-◌, ◌%◌, ◌^◌, ◌<◌, ◌≡◌, arith, ltb, if◌then◌else◌}
use zerosugar.Prelude.Int.{ℤ, pos, negsuc}

-- The bit patterns of an `int16_t` and an `int32_t`.
abbrev pub pattern16 : ℤ → ℕ
pattern16 (pos n) = n % 2 ^ 16
pattern16 (negsuc n) = 2 ^ 16 - 1 - n % 2 ^ 16

abbrev pub pattern32 : ℤ → ℕ
pattern32 (pos n) = n % 2 ^ 32
pattern32 (negsuc n) = 2 ^ 32 - 1 - n % 2 ^ 32

-- The integers that the patterns stand for.
abbrev pub signed16 : ℕ → ℤ
signed16 w = if ltb w (2 ^ 15) then pos w else negsuc (2 ^ 16 - w - 1)

abbrev pub signed32 : ℕ → ℤ
signed32 w = if ltb w (2 ^ 31) then pos w else negsuc (2 ^ 32 - w - 1)

pub signed16-pattern16 : (n : ℕ) → n < 2 ^ 15 → signed16 (pattern16 (pos n)) ≡ pos n
signed16-pattern16 n h = ground arith

pub signed32-pattern32 : (n : ℕ) → n < 2 ^ 31 → signed32 (pattern32 (pos n)) ≡ pos n
signed32-pattern32 n h = ground arith

-- A negative size goes over the wire as it is.
pub signed32-pattern32_negsuc : (n : ℕ) → n < 2 ^ 31 → signed32 (pattern32 (negsuc n)) ≡ negsuc n
signed32-pattern32_negsuc n h = ground arith
