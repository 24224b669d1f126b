-- ===== src/Network/Buffer/Iteration.antt =====
-- Reading a buffer of zerosugar/shared/network/buffer/buffer.cpp from `begin()` to `end()`.
use zerosugar.Prelude.{
  ℕ, zero, suc, ◌+◌, ◌-◌, ◌≤◌, ◌<◌, ◌≡◌, refl, ◌∙◌, ap, some, List, [], ◌∷◌, ◌++◌, arith, All,
  length, drop, get_elem?,
}
use native.Mathlib.Decide.{dec_lt}
use zerosugar.Network.Memory.{Heap}
use zerosugar.Network.Fragment.{Fragment, get_span}
use zerosugar.Network.Fragment.Ownership.{Live, Live-impl}
use zerosugar.Network.Buffer.{
  Buffer, Iterator, calculate_size, skip_empty, advance, iterator_at, begin, iterate,
}
use zerosugar.Network.Buffer.Contents.{contents, IsValid, length-get_span}

get_elem?-drop :
    (xs : List ℕ) (i : ℕ)
    → i < length xs
    → (c : ℕ) × (get_elem? xs i ≡ some c) × (drop i xs ≡ c ∷ drop (suc i) xs)
get_elem?-drop [] i p = elim p [ ]
get_elem?-drop (x ∷ xs) zero p = (x, refl, refl)
get_elem?-drop (x ∷ xs) (suc i) p = get_elem?-drop xs i (omega arith)

drop_all : (xs : List ℕ) (i : ℕ) → length xs ≤ i → drop i xs ≡ []
drop_all [] zero p = refl
drop_all [] (suc i) p = refl
drop_all (x ∷ xs) zero p = absurd (omega arith)
drop_all (x ∷ xs) (suc i) p = drop_all xs i (omega arith)

skip_empty-Live : (h : Heap) (fs : List Fragment) → All (Live h) fs → skip_empty fs ≡ fs
unfolding skip_empty
skip_empty-Live h [] l = refl
skip_empty-Live h (f ∷ fs) l =
    let (a, b, e, c, fits, some_bytes) = Live-impl h f l.0 in ground arith

-- The bytes from an iterator on.
abbrev ahead : Heap → Iterator → List ℕ
ahead h it = elim it.rest [ [] ↦ [] | f ∷ fs ↦ drop it.index (get_span h f) ++ contents h fs ]

abbrev left : Iterator → ℕ
left it = elim it.rest [ [] ↦ 0 | f ∷ fs ↦ f.size - it.index + calculate_size fs ]

-- An iterator points into a fragment's bytes, or is the end.
abbrev Points : Iterator → Type 0
Points it = elim it.rest [ [] ↦ it.index ≡ 0 | f ∷ fs ↦ it.index < f.size ]

Points-start :
    (h : Heap) (fs : List Fragment) → All (Live h) fs → Points (record { rest = fs; index = 0 })
Points-start h [] l = refl
Points-start h (f ∷ fs) l = let (a, b, e, c, fits, some_bytes) = Live-impl h f l.0 in some_bytes

ahead-start :
    (h : Heap) (fs : List Fragment) → ahead h (record { rest = fs; index = 0 }) ≡ contents h fs
ahead-start h [] = refl
ahead-start h (f ∷ fs) = refl

left-start : (fs : List Fragment) → left (record { rest = fs; index = 0 }) ≡ calculate_size fs
left-start [] = refl
left-start (f ∷ fs) = omega arith

advance_in :
    (f : Fragment) (fs : List Fragment) (i : ℕ)
    → i + 1 < f.size
    → advance (record { rest = f ∷ fs; index = i }) ≡ record { rest = f ∷ fs; index = suc i }
unfolding advance
advance_in f fs i p = ground arith

advance_over :
    (h : Heap) (f : Fragment) (fs : List Fragment) (i : ℕ)
    → f.size ≤ i + 1
    → All (Live h) fs
    → advance (record { rest = f ∷ fs; index = i }) ≡ record { rest = fs; index = 0 }
unfolding advance
advance_over h f fs i p l = ground (arith, skip_empty-Live h fs l)

start_at :
    (h : Heap) (fs : List Fragment)
    → All (Live h) fs
    → iterator_at fs 0 ≡ record { rest = fs; index = 0 }
unfolding iterator_at
start_at h [] l = refl
start_at h (f ∷ fs) l = let (a, b, e, c, fits, some_bytes) = Live-impl h f l.0 in ground arith

-- One turn of the loop, with what the turns after it give.
iterate_turn :
    (n : ℕ) (h : Heap) (f : Fragment) (fs : List Fragment) (i c : ℕ) (it : Iterator) (cs : List ℕ)
    → get_elem? (get_span h f) i ≡ some c
    → advance (record { rest = f ∷ fs; index = i }) ≡ it
    → iterate n h it ≡ some cs
    → iterate (suc n) h (record { rest = f ∷ fs; index = i }) ≡ some (c ∷ cs)
unfolding iterate
iterate_turn n h f fs i c it cs e q r = ground arith

iterate_lem :
    (n : ℕ) (h : Heap) (fs : List Fragment) (i : ℕ)
    → All (Live h) fs
    → Points (record { rest = fs; index = i })
    → left (record { rest = fs; index = i }) ≤ n
    → iterate n h (record { rest = fs; index = i })
      ≡ some (ahead h (record { rest = fs; index = i }))
iterate_lem zero h [] i l p q = unfold iterate in ground arith
iterate_lem (suc n) h [] i l p q = unfold iterate in ground arith
iterate_lem zero h (f ∷ fs) i l p q = absurd (omega arith)
iterate_lem (suc n) h (f ∷ fs) i l p q =
    let (c, e, d) = get_elem?-drop (get_span h f) i (omega (arith, length-get_span h f l.0)) in
    elim (dec_lt (i + 1) f.size) [
      | yes more ↦ rw d (
          iterate_turn n h f fs i c _ _ e (advance_in f fs i more)
            (iterate_lem n h (f ∷ fs) (suc i) l (omega arith) (omega arith)))
      | no last ↦
          rw (d, drop_all (get_span h f) (suc i) (omega (arith, length-get_span h f l.0)))
            (iterate_turn n h f fs i c _ _ e (advance_over h f fs i (omega arith) l.1) (
              iterate_lem n h fs 0 l.1 (Points-start h fs l.1) (omega (arith, left-start fs))
              ∙ ap some (ahead-start h fs)))
    ]

-- Reading a well formed buffer from `begin()` to `end()` gives its bytes, each once and in order, when
-- the fuel is at least the number of bytes.
pub iterate-begin :
    (n : ℕ) (h : Heap) (others : ℕ → ℕ) (b : Buffer)
    → IsValid h others b
    → b.size ≤ n
    → iterate n h (begin b) ≡ some (contents h b.fragments)
unfolding begin
iterate-begin n h others b v p =
    let start : iterator_at b.fragments 0 ≡ record { rest = b.fragments; index = 0 } =
      start_at h b.fragments v.live in
    rw start (
      iterate_lem n h b.fragments 0 v.live (Points-start h b.fragments v.live)
        (omega (arith, left-start b.fragments, v.size_sum))
      ∙ ap some (ahead-start h b.fragments))
