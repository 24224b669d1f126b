-- ===== src/Tests/Io.antt =====
-- Runs of zerosugar/shared/io.
use zerosugar.Prelude.{ℕ, ◌+◌, ◌<◌, ◌≤◌, ◌≡◌, refl, ◌++◌, [], ◌∷◌, length, arith, ◌⊎◌, drop}
use zerosugar.Prelude.Int.{pos}
use zerosugar.Io.Reader.{ok, threw, Reader, reader, read, set_offset}
use zerosugar.Io.Writer.{bytes_of}
use zerosugar.Io.RoundTrip.{IsSynced, read-bytes_of}
use zerosugar.Io.Offset.{read_safe, set_offset-miscounts}

read-bytes_of_example :
    (r' : Reader) × (read 4 (reader (bytes_of 4 70000 ++ (5 ∷ []))) ≡ ok (70000, r'))
    × IsSynced r'
    × (r'.rest ≡ 5 ∷ [])
read-bytes_of_example =
    read-bytes_of 4 70000 (reader (bytes_of 4 70000 ++ (5 ∷ []))) (5 ∷ []) (omega arith)
      (unfold reader in refl) (unfold reader in refl)

abbrev three : Reader
three = record { whole = 1 ∷ 2 ∷ 3 ∷ []; rest = 1 ∷ 2 ∷ 3 ∷ []; read_size = 0; remain_size = pos 3 }

read_safe_example :
    ((length three.rest < 2) × (read 2 three ≡ threw))
    ⊎ ((v : ℕ) × (r' : Reader) × (2 ≤ length three.rest)
        × (read 2 three ≡ ok (v, r'))
        × (r'.rest ≡ drop 2 three.rest)
        × (r'.read_size ≡ three.read_size + 2)
        × IsSynced r')
read_safe_example = read_safe 2 three refl

set_offset-miscounts_example :
    (r : Reader) × (set_offset (pos 1) (reader (1 ∷ 2 ∷ 3 ∷ [])) ≡ ok r)
    × (r.rest ≡ drop 1 (1 ∷ 2 ∷ 3 ∷ []))
    × (r.read_size ≡ 1)
    × ¬ IsSynced r
set_offset-miscounts_example = set_offset-miscounts (1 ∷ 2 ∷ 3 ∷ []) 1 (omega arith) (omega arith)
