-- ===== src/Network/Receive/Spin.antt =====
-- The receive loop on a packet whose size field is zero or negative.
use zerosugar.Prelude.{
  ℕ, zero, suc, ◌^◌, ◌<◌, ◌≡◌, refl, ◌∙◌, Bool, some, List, ◌++◌, arith, length, length-append,
  append_assoc, true, false,
}
use zerosugar.Prelude.Int.{ℤ, pos, negsuc, ltb_ℤ}
use zerosugar.Io.Word.{pattern32, signed32, signed32-pattern32_negsuc}
use zerosugar.Io.Reader.{reader}
use zerosugar.Io.Writer.{bytes_of}
use zerosugar.Io.RoundTrip.{read-bytes_of, length-bytes_of}
use zerosugar.Network.Receive.{State, Status, spinning, packet, read_round, process, slice}
use zerosugar.Network.Receive.Frame.{Codec}

-- A size of `-k`.
abbrev pub minus : ℕ → ℤ
minus zero = pos 0
minus (suc k) = negsuc k

-- The state after the same packet has been handled `n` times.
unfoldable pub handle_times : {S P : Type 0} → (S → P → S × Bool) → P → ℕ → S → S
handle_times on_event p zero s = s
handle_times on_event p (suc n) s = handle_times on_event p n (on_event s p).0

slice-minus : (k : ℕ) (buffer : List ℕ) → slice buffer (minus k) ≡ buffer
slice-minus zero buffer = ground arith
slice-minus (suc k) buffer = refl

signed32-minus : (k : ℕ) → k < 2 ^ 31 → signed32 (pattern32 (minus k)) ≡ minus k
signed32-minus zero h = refl
signed32-minus (suc k) h = signed32-pattern32_negsuc k (omega arith)

fits-minus : (k n : ℕ) → ltb_ℤ (pos n) (minus k) ≡ false
fits-minus zero n = ground arith
fits-minus (suc k) n = ground arith

pattern32-lt : (k : ℕ) → pattern32 (minus k) < 2 ^ 32
pattern32-lt zero = omega arith
pattern32-lt (suc k) = omega arith

module _ {P : Type 0} (c : Codec P) where
  -- A packet with a size field of `-k`.
  abbrev pub bad_frame : ℕ → P → List ℕ
  bad_frame k p = bytes_of 4 (pattern32 (minus k)) ++ c.body p

  read_round-bad_frame :
      (k : ℕ) (p : P) (rest : List ℕ)
      → k < 2 ^ 31
      → c.Fits p
      → read_round c.create_from (bad_frame k p ++ rest) ≡ packet (minus k) (some p)
  unfolding read_round
  read_round-bad_frame k p rest small fits =
      let buffer : List ℕ = bad_frame k p ++ rest in
      let (r', e, s, q) =
        read-bytes_of 4 (pattern32 (minus k)) (reader buffer) (c.body p ++ rest) (pattern32-lt k)
          refl (append_assoc (bytes_of 4 (pattern32 (minus k))) (c.body p) rest) in
      let (r'', d) = c.decode p r' rest fits s q in
      ground (
        arith,
        e,
        d,
        signed32-minus k small,
        fits-minus k (length buffer),
        length-append (bytes_of 4 (pattern32 (minus k))) (c.body p),
        length-append (bad_frame k p) rest,
        length-bytes_of 4 (pattern32 (minus k)),
      )

module _ {S P : Type 0} (c : Codec P) (on_event : S → P → S × Bool) where
  turn :
      (n : ℕ) (st : State S) (k : ℕ) (p : P)
      → read_round c.create_from st.receive_buffer ≡ packet (minus k) (some p)
      → (on_event st.session p).1 ≡ true
      → process c.create_from on_event (suc n) st
        ≡ process c.create_from on_event n (record st { session = (on_event st.session p).0 })
  unfolding process
  turn n st k p r more = rw (r, process) (rw (slice-minus k st.receive_buffer, more) refl)

  -- Where a buffer begins with a packet whose size field is zero or negative, and the handler goes on
  -- after this packet in every state that it can be in, the inner loop does not end: after any number
  -- of turns it has handled the packet that often, the buffer is what it was, and it is not done.
  pub process_spins :
      (Inv : S → Type 0) (n : ℕ) (s : S) (k : ℕ) (p : P) (rest : List ℕ) (status : Status)
      → k < 2 ^ 31
      → c.Fits p
      → ((t : S) → Inv t → ((on_event t p).1 ≡ true) × Inv (on_event t p).0)
      → Inv s
      → process c.create_from on_event n
          (record { receive_buffer = bad_frame c k p ++ rest; session = s; status = status })
        ≡ record {
          receive_buffer = bad_frame c k p ++ rest;
          session = handle_times on_event p n s;
          status = spinning;
        }
  unfolding handle_times
  process_spins Inv zero s k p rest status small fits more v = unfold process in refl
  process_spins Inv (suc n) s k p rest status small fits more v =
      turn n _ k p (read_round-bad_frame c k p rest small fits) (more s v).0
      ∙ process_spins Inv n (on_event s p).0 k p rest status small fits more (more s v).1
