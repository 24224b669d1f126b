-- ===== src/Login/Packet.antt =====
-- The packets that a client sends to the login server,
-- zerosugar/xr/network/model/generated/login_cs_message.cpp, through the reader and the writer of
-- zerosugar/xr/network/packet_reader.cpp and packet_writer.cpp. A text is its bytes.
pub mod RoundTrip
use zerosugar.Prelude.{ℕ, ◌+◌, ◌==◌, if◌then◌else◌, Option, none, some, List, [], ◌∷◌, ◌++◌, length}
use zerosugar.Prelude.Int.{ℤ, pos, negsuc}
use zerosugar.Io.Word.{pattern16, pattern32, signed16}
use zerosugar.Io.Reader.{R, ◌>>=◌, pure, read, read_string}
use zerosugar.Io.Writer.{bytes_of}

pub data Packet : Type 0 where
  create_account : List ℕ → List ℕ → Packet
  login : List ℕ → List ℕ → Packet

-- `GetOpcode()`.
abbrev pub opcode : Packet → ℕ
opcode (create_account account password) = 0
opcode (login account password) = 1

-- `PacketReader::ReadString`.
unfoldable pub read_text : R (List ℕ)
read_text = do v ← read 2; read_string (signed16 v)

-- `PacketWriter::Write(std::string_view)`: the size is cast to `int16_t`.
unfoldable pub write_text : List ℕ → List ℕ
write_text text = bytes_of 2 (pattern16 (pos (length text))) ++ text

-- The two `Deserialize` methods read the same fields.
deserialize : (List ℕ → List ℕ → Packet) → R (Option Packet)
unfolding read_text
deserialize make = do account ← read_text; password ← read_text; pure (some (make account password))

-- The `switch` of `CreateFrom`.
create_of : ℤ → R (Option Packet)
unfolding deserialize
create_of (negsuc n) = pure none
create_of (pos n) =
    if n == 0 then deserialize create_account else if n == 1 then deserialize login else pure none

-- `CreateFrom`.
unfoldable pub create_from : R (Option Packet)
unfolding create_of
create_from = do v ← read 2; create_of (signed16 v)

-- `Serialize`.
unfoldable pub serialize : Packet → List ℕ
unfolding write_text
serialize (create_account account password) = write_text account ++ write_text password
serialize (login account password) = write_text account ++ write_text password

-- What `Packet::ToBuffer` writes behind the size: the opcode and the content.
unfoldable pub body : Packet → List ℕ
unfolding serialize
body p = bytes_of 2 (pattern16 (pos (opcode p))) ++ serialize p

-- `Packet::ToBuffer`.
unfoldable pub to_buffer : Packet → List ℕ
unfolding serialize
to_buffer p =
    bytes_of 4 (pattern32 (pos (4 + 2 + length (serialize p))))
    ++ (bytes_of 2 (pattern16 (pos (opcode p))) ++ serialize p)
