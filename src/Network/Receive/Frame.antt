-- ===== src/Network/Receive/Frame.antt =====
-- Packets on the wire, zerosugar/xr/network/packet.cpp: the size of the whole packet in four bytes, then
-- its opcode and content.
use native.Mathlib.Decide.{dec_lt}
use zerosugar.Prelude.{
  ℕ, ◌+◌, ◌^◌, ◌<◌, ◌≡◌, refl, ◌∙◌, Option, some, List, ◌++◌, arith, length, length-append,
  append_assoc, drop, append_cut,
}
use zerosugar.Prelude.Int.{pos}
use zerosugar.Io.Word.{pattern32, signed32-pattern32}
use zerosugar.Io.Reader.{ok, Reader, R, reader}
use zerosugar.Io.Writer.{bytes_of}
use zerosugar.Io.RoundTrip.{IsSynced, read-bytes_of, length-bytes_of}
use zerosugar.Network.Receive.{incomplete, packet, read_round}

-- What the loop needs of a family of packets: `create_from` reads back what the sender wrote behind
-- the size, whatever follows it, and a packet's size fits its field.
pub record Codec (P : Type 0) : Type 1 where
  pub create_from : R (Option P)
  pub body : P → List ℕ
  pub Fits : P → Type 0
  pub small : (p : P) → Fits p → 4 + length (body p) < 2 ^ 31
  pub decode :
      (p : P) (r : Reader) (rest : List ℕ)
      → Fits p
      → IsSynced r
      → r.rest ≡ body p ++ rest
      → (r' : Reader) × (create_from r ≡ ok (some p, r'))

module _ {P : Type 0} (c : Codec P) where
  -- `Packet::ToBuffer`.
  abbrev pub frame : P → List ℕ
  frame p = bytes_of 4 (pattern32 (pos (4 + length (c.body p)))) ++ c.body p

  pub length-frame : (p : P) → length (frame p) ≡ 4 + length (c.body p)
  length-frame p = omega (
    arith,
    length-append (bytes_of 4 (pattern32 (pos (4 + length (c.body p))))) (c.body p),
    length-bytes_of 4 (pattern32 (pos (4 + length (c.body p)))),
  )

  -- A buffer that begins with a whole packet.
  pub read_round-frame :
      (p : P) (rest : List ℕ)
      → c.Fits p
      → read_round c.create_from (frame p ++ rest) ≡ packet (pos (length (frame p))) (some p)
  unfolding read_round
  read_round-frame p rest fits =
      let n : ℕ = 4 + length (c.body p) in
      let small : n < 2 ^ 31 = c.small p fits in
      let r : Reader = reader (frame p ++ rest) in
      let (r', e, s, q) =
        read-bytes_of 4 (pattern32 (pos n)) r (c.body p ++ rest) (omega arith) refl
          (append_assoc (bytes_of 4 (pattern32 (pos n))) (c.body p) rest) in
      let (r'', d) = c.decode p r' rest fits s q in
      ground (arith, e, d, signed32-pattern32 n small, length-append (frame p) rest, length-frame p)

  -- A buffer that holds less than the packet with which the stream goes on.
  pub read_round-prefix :
      (p : P) (buffer future rest : List ℕ)
      → c.Fits p
      → buffer ++ future ≡ frame p ++ rest
      → length buffer < length (frame p)
      → read_round c.create_from buffer ≡ incomplete
  unfolding read_round
  read_round-prefix p buffer future rest fits e short = elim (dec_lt (length buffer) 4) [
    | yes less ↦ ground arith
    | no more ↦
        let n : ℕ = 4 + length (c.body p) in
        let small : n < 2 ^ 31 = c.small p fits in
        let size : List ℕ = bytes_of 4 (pattern32 (pos n)) in
        let (cut, _) =
          append_cut buffer future size (c.body p ++ rest) (e ∙ append_assoc size (c.body p) rest)
            (omega (arith, length-bytes_of 4 (pattern32 (pos n)))) in
        let (r', q, _, _) =
          read-bytes_of 4 (pattern32 (pos n)) (reader buffer) (drop (length size) buffer)
            (omega arith) refl cut in
        ground (arith, q, signed32-pattern32 n small, length-frame p)
  ]

-- Fewer than four bytes are not read.
pub read_round-short :
    {P : Type 0} (create_from : R (Option P)) (buffer : List ℕ)
    → length buffer < 4
    → read_round create_from buffer ≡ incomplete
unfolding read_round
read_round-short create_from buffer h = ground arith
