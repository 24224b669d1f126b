-- ===== src/Io/Writer.antt =====
-- zerosugar/shared/io/stream_writer.h: `StreamWriter` appends to a container of bytes.
use zerosugar.Prelude.{
  ℕ, zero, suc, ◌+◌, ◌/◌, ◌%◌, ◌||◌, List, [], ◌∷◌, ◌++◌, ltb, if◌then◌else◌, length, take, drop,
}
use zerosugar.Prelude.Int.{ℤ, pos, negsuc}
use zerosugar.Io.Reader.{Outcome, ok, threw}

pub record Writer : Type 0 where
  pub container : List ℕ
  pub write_size : ℕ

-- The object representation of an integer of `size` bytes, lowest byte first.
unfoldable pub bytes_of : ℕ → ℕ → List ℕ
bytes_of zero v = []
bytes_of (suc n) v = (v % 256) ∷ bytes_of n (v / 256)

-- `Write<U>(value)`.
unfoldable pub write : ℕ → ℕ → Writer → Writer
unfolding bytes_of
write size v w = record {
  container = w.container ++ bytes_of size v;
  write_size = w.write_size + size;
}

-- `WriteString(str)`.
unfoldable pub write_string : List ℕ → Writer → Writer
write_string str w = record {
  container = w.container ++ (str ++ (0 ∷ []));
  write_size = w.write_size + (length str + 1);
}

-- `WriteBuffer(buffer)`.
unfoldable pub write_buffer : List ℕ → Writer → Writer
write_buffer buffer w = record {
  container = w.container ++ buffer;
  write_size = w.write_size + length buffer;
}

-- `Write<U>(value, offset)`: over the bytes from `offset` on.
unfoldable pub write_at : ℕ → ℕ → ℤ → Writer → Outcome Writer
unfolding bytes_of
write_at size v (negsuc n) w = threw
write_at size v (pos offset) w =
    if ltb (length w.container) offset || ltb (length w.container) (offset + size)
    then threw
    else ok (record w {
      container = take offset w.container ++ (bytes_of size v ++ drop (offset + size) w.container);
    })
