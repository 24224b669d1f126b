-- ===== src/Io/Offset.antt =====
-- `Read` and `SetOffset` of zerosugar/shared/io/stream_reader.h, and the count of what is left.
use zerosugar.Prelude.{
  ℕ, zero, suc, ◌+◌, ◌≤◌, ◌<◌, ◌≡◌, refl, sym, some, List, [], ◌∷◌, arith, length, drop, leb,
  Bool-cases, inl, inr, ◌⊎◌, length-drop, take, take-append-drop, length-take,
}
use zerosugar.Prelude.Int.{pos, ◌-ℤ◌}
use zerosugar.Io.Reader.{ok, threw, Reader, reader, read_loop, read, advance, set_offset}
use zerosugar.Io.RoundTrip.{IsSynced, advance-IsSynced}

read_loop_total :
    (size scale acc : ℕ) (xs : List ℕ)
    → size ≤ length xs
    → (v : ℕ) × (read_loop size scale acc xs ≡ some (v, drop size xs))
unfolding read_loop
read_loop_total zero scale acc xs p = (acc, refl)
read_loop_total (suc n) scale acc [] p = absurd (omega arith)
read_loop_total (suc n) scale acc (x ∷ xs) p = read_loop_total n _ _ xs (omega arith)

advance-drop :
    (r : Reader) (size : ℕ)
    → IsSynced r
    → size ≤ length r.rest
    → IsSynced (advance r size (drop size r.rest))
advance-drop r size s p =
    advance-IsSynced r size (take size r.rest) (drop size r.rest) s
      (omega (arith, length-take size r.rest)) (sym (take-append-drop size r.rest))

-- `Read` of a reader that counts rightly throws when too few bytes are left, and else takes its
-- bytes off the front and counts rightly again; it never reads past the end.
pub read_safe :
    (size : ℕ) (r : Reader)
    → IsSynced r
    → ((length r.rest < size) × (read size r ≡ threw))
      ⊎ ((v : ℕ) × (r' : Reader) × (size ≤ length r.rest)
          × (read size r ≡ ok (v, r'))
          × (r'.rest ≡ drop size r.rest)
          × (r'.read_size ≡ r.read_size + size)
          × IsSynced r')
unfolding read
read_safe size r s = elim (Bool-cases (leb size (length r.rest))) [
  | inl enough ↦
      let fits : size ≤ length r.rest = ground arith in
      let (v, e) = read_loop_total size 1 0 r.rest fits in
      inr (
        v,
        advance r size (drop size r.rest),
        fits,
        ground (arith, e),
        refl,
        refl,
        advance-drop r size s fits,
      )
  | inr short ↦ inl (ground arith, ground arith)
]

-- `SetOffset` of a positive offset within its bytes puts a fresh reader at that byte, but the count of
-- what is left no longer agrees with what lies ahead.
pub set_offset-miscounts :
    (bytes : List ℕ) (offset : ℕ)
    → 0 < offset
    → offset ≤ length bytes
    → (r : Reader) × (set_offset (pos offset) (reader bytes) ≡ ok r)
      × (r.rest ≡ drop offset bytes)
      × (r.read_size ≡ offset)
      × ¬ IsSynced r
unfolding set_offset reader ◌-ℤ◌
set_offset-miscounts bytes offset p q = (
  record {
    whole = bytes;
    rest = drop offset bytes;
    read_size = offset;
    remain_size = pos (length (drop offset bytes)) -ℤ pos offset;
  },
  ground arith,
  refl,
  refl,
  λ e. ground arith,
)

-- After `SetOffset` of a fresh reader, the next `Read` throws with all of its bytes there, when the
-- bytes that lie ahead are fewer than the offset and the size together.
pub set_offset-refuses :
    (bytes : List ℕ) (offset size : ℕ)
    → 0 < size
    → offset + size ≤ length bytes
    → length bytes < offset + offset + size
    → (r : Reader) × (set_offset (pos offset) (reader bytes) ≡ ok r)
      × (size ≤ length r.rest)
      × (read size r ≡ threw)
unfolding set_offset reader ◌-ℤ◌ read
set_offset-refuses bytes offset size z p q = (
  record {
    whole = bytes;
    rest = drop offset bytes;
    read_size = offset;
    remain_size = pos (length (drop offset bytes)) -ℤ pos offset;
  },
  ground arith,
  omega (arith, length-drop offset bytes),
  ground (arith, length-drop offset bytes),
)
