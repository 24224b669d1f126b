-- ===== src/Io/Reader.antt =====
-- zerosugar/shared/io/stream_reader.h: `StreamReader` over a sequence of bytes. A call throws, or
-- is undefined where it reads past the end, or gives its result and the reader after it.
use zerosugar.Prelude.{
  ℕ, zero, suc, ◌+◌, ◌*◌, ◌%◌, Bool, false, Option, none, some, List, [], ◌∷◌, ltb, leb, ◌==◌,
  if◌then◌else◌, length, drop,
}
use zerosugar.Prelude.Int.{ℤ, pos, negsuc, ◌-ℤ◌}

pub data Outcome {ℓ} (A : Type ℓ) : Type ℓ where
  ok : A → Outcome A
  threw : Outcome A
  undefined : Outcome A

-- `_begin` up to `_end`, `_iter` up to `_end`, `_readSize` and `_remainSize`.
pub record Reader : Type 0 where
  pub whole : List ℕ
  pub rest : List ℕ
  pub read_size : ℕ
  pub remain_size : ℤ

abbrev pub R : Type 0 → Type 0
R A = Reader → Outcome (A × Reader)

infixl 5 ◌>>=◌
abbrev pub ◌>>=◌ : {A B : Type 0} → R A → (A → R B) → R B
◌>>=◌ m f r = elim (m r) [ ok (a, r') ↦ f a r' | threw ↦ threw | undefined ↦ undefined ]

abbrev pub pure : {A : Type 0} → A → R A
pure a r = ok (a, r)

-- `StreamReader(begin, end)`.
unfoldable pub reader : List ℕ → Reader
reader bytes = record {
  whole = bytes;
  rest = bytes;
  read_size = 0;
  remain_size = pos (length bytes);
}

abbrev pub empty : Reader → Bool
empty r = elim r.remain_size [ pos n ↦ n == 0 | negsuc n ↦ false ]

-- `_remainSize >= size`.
abbrev pub can_read : Reader → ℕ → Bool
can_read r size = elim r.remain_size [ pos n ↦ leb size n | negsuc n ↦ false ]

-- `_readSize += size; _remainSize -= size;` behind the bytes that were taken.
abbrev pub advance : Reader → ℕ → List ℕ → Reader
advance r size rest = record r {
  rest = rest;
  read_size = r.read_size + size;
  remain_size = r.remain_size -ℤ pos size;
}

-- The loop of `Read<U>`: byte `i` is shifted to `scale`, which is `2 ^ (8 * i)`.
unfoldable pub read_loop : ℕ → ℕ → ℕ → List ℕ → Option (ℕ × List ℕ)
read_loop zero scale result rest = some (result, rest)
read_loop (suc n) scale result [] = none
read_loop (suc n) scale result (b ∷ rest) =
    read_loop n (scale * 256) (result + b % 256 * scale) rest

-- `Read<U>` for an integral `U` of `size` bytes: its bit pattern.
unfoldable pub read : ℕ → R ℕ
unfolding read_loop ◌-ℤ◌
read size r =
    if can_read r size
    then elim (read_loop size 1 0 r.rest) [
      | none ↦ undefined
      | some (v, rest) ↦ ok (v, advance r size rest)
    ]
    else threw

-- The loop of `ReadString(size)` and of `ReadBuffer`.
unfoldable pub take_loop : ℕ → List ℕ → Option (List ℕ × List ℕ)
take_loop zero rest = some ([], rest)
take_loop (suc n) [] = none
take_loop (suc n) (b ∷ rest) = elim (take_loop n rest) [
  | none ↦ none
  | some (bs, r) ↦ some (b ∷ bs, r)
]

-- `if (!result.empty() && result.back() == '\0') result.pop_back();`
unfoldable pub trim_null : List ℕ → List ℕ
trim_null [] = []
trim_null (b ∷ []) = if b == 0 then [] else b ∷ []
trim_null (b ∷ c ∷ bs) = b ∷ trim_null (c ∷ bs)

read_positive : ℕ → R (List ℕ)
unfolding take_loop trim_null ◌-ℤ◌
read_positive size r =
    if can_read r size
    then elim (take_loop size r.rest) [
      | none ↦ undefined
      | some (bs, rest) ↦ ok (trim_null bs, advance r size rest)
    ]
    else threw

-- `ReadString(size)`.
unfoldable pub read_string : ℤ → R (List ℕ)
unfolding read_positive
read_string (negsuc n) = pure []
read_string (pos size) = if size == 0 then pure [] else read_positive size

-- The loop of `ReadString()`: how many bytes there are up to a null byte, it included.
null_distance : ℕ → List ℕ → Option ℕ
null_distance size [] = none
null_distance size (b ∷ bs) =
    let further : Option ℕ = null_distance (size + 1) bs in
    if b == 0 then some (size + 1) else further

-- `ReadString()`: the bytes before the next null byte, or nothing where there is none.
unfoldable pub read_terminated : R (List ℕ)
unfolding null_distance read_string
read_terminated r = elim (null_distance 0 r.rest) [
  | none ↦ ok ([], r)
  | some size ↦ read_string (pos size) r
]

-- `ReadBuffer(buffer, size)`: the bytes that reach the buffer, if any.
unfoldable pub read_buffer : ℕ → R (List ℕ)
unfolding take_loop ◌-ℤ◌
read_buffer size r =
    if can_read r size
    then elim (take_loop size r.rest) [
      | none ↦ undefined
      | some (bs, rest) ↦ ok (bs, advance r size rest)
    ]
    else ok ([], r)

-- `Skip(size)`.
unfoldable pub skip : ℤ → R (Unit {0})
unfolding take_loop ◌-ℤ◌
skip (negsuc n) r = ok (tt, r)
skip (pos size) r =
    if size == 0
    then ok (tt, r)
    else if can_read r size
    then elim (take_loop size r.rest) [
      | none ↦ undefined
      | some (bs, rest) ↦ ok (tt, advance r size rest)
    ]
    else threw

-- `SetOffset(offset)`: the bound is taken from the place of the reader, and the offset is taken off
-- once more from what is left behind it.
unfoldable pub set_offset : ℤ → Reader → Outcome Reader
unfolding ◌-ℤ◌
set_offset (negsuc n) r = threw
set_offset (pos offset) r =
    if ltb (length r.rest) offset
    then threw
    else ok (record r {
      rest = drop offset r.whole;
      read_size = offset;
      remain_size = pos (length (drop offset r.whole)) -ℤ pos offset;
    })
