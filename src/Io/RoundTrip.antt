-- ===== src/Io/RoundTrip.antt =====
-- Reading with zerosugar/shared/io/stream_reader.h what stream_writer.h wrote.
use native.Mathlib.Nat.{pow-suc}
use zerosugar.Prelude.{
  ℕ, zero, suc, ◌+◌, ◌*◌, ◌/◌, ◌%◌, ◌^◌, ◌<◌, ◌≡◌, refl, ◌∙◌, ap, some, List, [], ◌∷◌, ◌++◌, arith,
  length, length-append, true, ◌≢◌,
}
use zerosugar.Prelude.Int.{pos, ◌-ℤ◌}
use zerosugar.Io.Reader.{
  ok, Reader, read_loop, read, take_loop, trim_null, read_string, can_read, advance,
}
use zerosugar.Io.Writer.{bytes_of}

-- What is left to read is what lies ahead.
abbrev pub IsSynced : Reader → Type 0
IsSynced r = r.remain_size ≡ pos (length r.rest)

pub length-bytes_of : (size v : ℕ) → length (bytes_of size v) ≡ size
unfolding bytes_of
length-bytes_of zero v = refl
length-bytes_of (suc n) v = ap suc (length-bytes_of n (v / 256))

read_loop-bytes_of :
    (n v scale acc : ℕ) (rest : List ℕ)
    → v < 256 ^ n
    → read_loop n scale acc (bytes_of n v ++ rest) ≡ some (acc + v * scale, rest)
unfolding read_loop bytes_of
read_loop-bytes_of zero v scale acc rest p =
    let e : v ≡ 0 = omega arith in ap (λ t. some (t, rest)) (rw e (omega arith))
read_loop-bytes_of (suc n) v scale acc rest p =
    let low : v % 256 % 256 ≡ v % 256 = omega arith in
    let parts : v ≡ v / 256 * 256 + v % 256 = omega arith in
    read_loop-bytes_of n (v / 256) (scale * 256) (acc + v % 256 % 256 * scale) rest
      (omega (arith, pow-suc 256 n))
    ∙ ap (λ t. some (t, rest))
        (omega (arith, ap (λ (t : ℕ). t * scale) low, ap (λ (t : ℕ). t * scale) parts))

-- The reader behind `size` bytes.
sub-size : (size n : ℕ) → pos (size + n) -ℤ pos size ≡ pos n
unfolding ◌-ℤ◌
sub-size size n = ground arith

pub advance-IsSynced :
    (r : Reader) (size : ℕ) (bs rest : List ℕ)
    → IsSynced r
    → length bs ≡ size
    → r.rest ≡ bs ++ rest
    → IsSynced (advance r size rest)
advance-IsSynced r size bs rest s e q =
    rw s (rw q (rw (length-append bs rest, e) (sub-size size (length rest))))

can_read_ahead :
    (r : Reader) (size : ℕ) (bs rest : List ℕ)
    → IsSynced r
    → length bs ≡ size
    → r.rest ≡ bs ++ rest
    → can_read r size ≡ true
can_read_ahead r size bs rest s e q = rw s (rw q (rw (length-append bs rest) (ground arith)))

-- A reader that counts rightly and has the bytes of an integer ahead reads this integer, stands behind
-- them, and counts rightly again.
pub read-bytes_of :
    (size v : ℕ) (r : Reader) (rest : List ℕ)
    → v < 256 ^ size
    → IsSynced r
    → r.rest ≡ bytes_of size v ++ rest
    → (r' : Reader) × (read size r ≡ ok (v, r')) × IsSynced r' × (r'.rest ≡ rest)
unfolding read
read-bytes_of size v r rest p s q = (
  advance r size rest,
  (let e : read_loop size 1 0 r.rest ≡ some (0 + v * 1, rest) =
        rw q (read_loop-bytes_of size v 1 0 rest p) in
      let same : 0 + v * 1 ≡ v = omega arith in
      ground (arith, e, can_read_ahead r size (bytes_of size v) rest s (length-bytes_of size v) q)),
  advance-IsSynced r size (bytes_of size v) rest s (length-bytes_of size v) q,
  refl,
)

take_loop-append : (bs rest : List ℕ) → take_loop (length bs) (bs ++ rest) ≡ some (bs, rest)
unfolding take_loop
take_loop-append [] rest = refl
take_loop-append (b ∷ bs) rest = rw (take_loop-append bs rest)

-- A text whose last byte is not null.
abbrev pub Ends : List ℕ → Type 0
Ends [] = Unit {0}
Ends (b ∷ []) = b ≢ 0
Ends (b ∷ c ∷ bs) = Ends (c ∷ bs)

trim_null-Ends : (bs : List ℕ) → Ends bs → trim_null bs ≡ bs
unfolding trim_null
trim_null-Ends [] e = refl
trim_null-Ends (b ∷ []) e = ground arith
trim_null-Ends (b ∷ c ∷ bs) e = ap (◌∷◌ b) (trim_null-Ends (c ∷ bs) e)

-- `ReadString(size)` of a reader that counts rightly gives back the text of that size that lies ahead,
-- when it does not end in a null byte, stands behind it, and counts rightly again.
pub read_string-length :
    (bs : List ℕ) (r : Reader) (rest : List ℕ)
    → Ends bs
    → IsSynced r
    → r.rest ≡ bs ++ rest
    → (r' : Reader) × (read_string (pos (length bs)) r ≡ ok (bs, r'))
      × IsSynced r'
      × (r'.rest ≡ rest)
unfolding read_string
read_string-length [] r rest ends s q = (r, refl, s, q)
read_string-length (b ∷ bs) r rest ends s q = (
  advance r (length (b ∷ bs)) rest,
  (let e : take_loop (length (b ∷ bs)) r.rest ≡ some (b ∷ bs, rest) =
        rw q (take_loop-append (b ∷ bs) rest) in
      ground (
        arith,
        e,
        trim_null-Ends (b ∷ bs) ends,
        can_read_ahead r (length (b ∷ bs)) (b ∷ bs) rest s refl q,
      )),
  advance-IsSynced r (length (b ∷ bs)) (b ∷ bs) rest s refl q,
  refl,
)
