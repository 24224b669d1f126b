-- ===== src/Network/Receive.antt =====
-- The loop that cuts packets out of what a session receives: `Run` of
-- zerosugar/xr/server/login/login_session_state_machine.cpp and
-- zerosugar/xr/server/lobby/lobby_session_state_machine.cpp, over what the two differ in, the packets
-- and the states. The receive buffer is the bytes of a `Buffer`: `MergeBack` appends, and
-- `SliceFront` of 1 to `GetSize()` bytes takes them off the front and else does nothing
-- (`Buffer.Slice`, `Buffer.Contents`).
pub mod Frame
pub mod Chunks
pub mod Keeps
pub mod Spin
use zerosugar.Prelude.{
  ℕ, zero, suc, Bool, true, false, not, Option, none, some, List, [], ◌∷◌, ◌++◌, ltb, if◌then◌else◌,
  length, drop,
}
use zerosugar.Prelude.Int.{ℤ, pos, negsuc, ltb_ℤ}
use zerosugar.Io.Word.{signed32}
use zerosugar.Io.Reader.{Outcome, ok, threw, undefined, Reader, R, reader, read}

-- Whether the loop waits for bytes, or why it has returned: the session is gone or shut down, a
-- packet is unknown or its handler threw (`exited`), or reading a packet threw. `spinning` is the
-- model's own: the fuel is used up.
pub data Status : Type 0 where
  waiting stopped exited thrown spinning : Status

pub record State (S : Type 0) : Type 0 where
  pub receive_buffer : List ℕ
  pub session : S
  pub status : Status

-- One buffer from the channel, and whether the session still lives and is not shut down.
pub record Arrival : Type 0 where
  pub bytes : List ℕ
  pub alive : Bool

-- `receiveBuffer.SliceFront(temp, packetSize)`, whose answer is only asserted.
abbrev pub slice : List ℕ → ℤ → List ℕ
slice buffer (pos n) = if ltb (length buffer) n then buffer else drop n buffer
slice buffer (negsuc n) = buffer

-- What a round has read: the size that the packet claims, and the packet, if it is known.
pub data Round (P : Type 0) : Type 0 where
  incomplete : Round P
  failed : Round P
  packet : ℤ → Option P → Round P

module _ {P : Type 0} (create_from : R (Option P)) where
  abbrev read_packet : List ℕ → ℤ → Reader → Round P
  read_packet buffer size r =
      if ltb_ℤ (pos (length buffer)) size
      then incomplete
      else elim (create_from r) [ ok (p, _) ↦ packet size p | threw ↦ failed | undefined ↦ failed ]

  unfoldable pub read_round : List ℕ → Round P
  unfolding read reader
  read_round buffer = if ltb (length buffer) 4 then incomplete else elim (read 4 (reader buffer)) [
    | ok (v, r) ↦ read_packet buffer (signed32 v) r
    | threw ↦ failed
    | undefined ↦ failed
  ]

module _ {S P : Type 0} (create_from : R (Option P)) (on_event : S → P → S × Bool) where
  -- The inner `while`, on fuel. `on_event` gives the session's new state and whether the loop goes on.
  unfoldable pub process : ℕ → State S → State S
  process zero st = record st { status = spinning }
  process (suc n) st = elim (read_round create_from st.receive_buffer) [
    | incomplete ↦ st
    | failed ↦ record st { status = thrown }
    | packet size p ↦
        let buffer : List ℕ = slice st.receive_buffer size in
        elim p [
          | none ↦ record st { receive_buffer = buffer; status = exited }
          | some q ↦
              let (s', more) = on_event st.session q in
              let st' : State S = record st { receive_buffer = buffer; session = s' } in
              let further : State S = process n st' in
              if more then further else record st' { status = exited }
        ]
  ]

  -- One turn of the outer `while`.
  unfoldable pub receive : State S → Arrival → State S
  unfolding process
  receive st a = elim st.status [
    | waiting ↦
        if not a.alive
        then record st { status = stopped }
        else process (suc (length (st.receive_buffer ++ a.bytes)))
            (record st { receive_buffer = st.receive_buffer ++ a.bytes })
    | _ ↦ st
  ]

  unfoldable pub run : State S → List Arrival → State S
  unfolding receive
  run st [] = st
  run st (a ∷ rest) = run (receive st a) rest
