-- ===== src/Network/Buffer.antt =====
-- zerosugar/shared/network/buffer/buffer.h and buffer.cpp: a buffer is a sequence of fragments with
-- its size kept beside. A method returns `*this` beside its result. `_size` is a sum of sizes of
-- objects in memory, so it is a plain number that does not overflow.
pub mod Contents
pub mod Slice
pub mod Copy
pub mod Iteration
use zerosugar.Prelude.{
  ℕ, zero, suc, ◌+◌, ◌-◌, ◌≡◌, Bool, true, false, ◌&&◌, ◌||◌, Option, none, some, List, [], ◌∷◌,
  ◌++◌, ltb, leb, ◌==◌, if◌then◌else◌, get_elem?, map,
}
use zerosugar.Prelude.Int.{ℤ, pos, negsuc}
use zerosugar.Network.Memory.{Heap, M, ◌>>=◌, ◌>>◌, pure, value}
use zerosugar.Network.Fragment
use zerosugar.Network.Fragment.{Fragment, is_valid, get_span}

pub record Buffer : Type 0 where
  pub size : ℕ
  pub fragments : List Fragment

abbrev pub empty_buffer : Buffer
empty_buffer = record { size = 0; fragments = [] }

-- `CalculateSize`, and `std::accumulate` in it.
abbrev pub calculate_size : List Fragment → ℕ
calculate_size [] = 0
calculate_size (f ∷ fs) = f.size + calculate_size fs

-- The destructors of the fragments of a container, in order.
unfoldable pub destroy_all : List Fragment → M (Unit {0})
destroy_all [] = pure tt
destroy_all (f ∷ fs) = Fragment.destroy f >> destroy_all fs

-- An invalid fragment is an argument that dies at the end of the call.
unfoldable pub add : Buffer → Fragment → M Buffer
add b f =
    if is_valid f
    then pure (record { size = b.size + f.size; fragments = b.fragments ++ (f ∷ []) })
    else Fragment.destroy f >> pure b

-- The loop of `SliceFront`: what goes to the new buffer and what stays, or `none` where the loop
-- ends without a `break`.
pub scan : ℕ → ℕ → List Fragment → M (Option (List Fragment × List Fragment))
scan size sum [] = pure none
scan size sum (f ∷ fs) =
    let rest : M (Option (List Fragment × List Fragment)) = scan size (sum + f.size) fs in
    if ltb size (sum + f.size)
    then (do
      (new, f') ← Fragment.slice_front f (size - sum)
      g ← value new
      pure (some (g ∷ [], f' ∷ fs)))
    else if size == sum + f.size
    then pure (some (f ∷ [], fs))
    else (do r ← rest; pure (elim r [ none ↦ none | some (front, back) ↦ some (f ∷ front, back) ]))

-- The new buffer and the new `*this`, after the loop.
abbrev split_buffer : Buffer → ℕ → Option (List Fragment × List Fragment) → Buffer × Buffer
split_buffer this n none = (empty_buffer, record this { size = this.size - n })
split_buffer this n (some (front, back)) =
    (record { size = n; fragments = front }, record { size = this.size - n; fragments = back })

slice_positive : Buffer → Buffer → ℕ → M (Bool × Buffer × Buffer)
unfolding scan destroy_all
slice_positive this result n = if ltb this.size n then pure (false, this, result) else (do
  r ← scan n 0 this.fragments
  destroy_all result.fragments
  pure (true, (split_buffer this n r).1, (split_buffer this n r).0))

-- `SliceFront(result, size)`: the answer, `*this` and `result`. The new buffer is moved into
-- `result`, whose own fragments die.
pub slice_front : Buffer → Buffer → ℤ → M (Bool × Buffer × Buffer)
unfolding slice_positive
slice_front this result (negsuc n) = pure (false, this, result)
slice_front this result (pos n) =
    if n == 0 then pure (false, this, result) else slice_positive this result n

unfoldable pub merge_back : Buffer → Buffer → Buffer
merge_back this buffer = record {
  size = this.size + buffer.size;
  fragments = this.fragments ++ buffer.fragments;
}

copy_all : List Fragment → M (List Fragment)
copy_all [] = pure []
copy_all (f ∷ fs) = do g ← Fragment.shallow_copy f; gs ← copy_all fs; pure (g ∷ gs)

pub shallow_copy : Buffer → M Buffer
unfolding copy_all
shallow_copy b = do fs ← copy_all b.fragments; pure (record { size = b.size; fragments = fs })

abbrev is_empty {ℓ} : {A : Type ℓ} → List A → Bool
is_empty [] = true
is_empty (x ∷ xs) = false

unfoldable pub empty : Buffer → Bool
empty b = b.size == 0 && is_empty b.fragments

unfoldable pub clear : Buffer → M Buffer
unfolding destroy_all
clear b = destroy_all b.fragments >> pure empty_buffer

-- `iterator` and `const_iterator`: the fragments from `_iter` to `_end`, and `_index`.
pub record Iterator : Type 0 where
  pub rest : List Fragment
  pub index : ℕ

-- The loop of `operator++`, which passes over fragments of no size.
pub skip_empty : List Fragment → List Fragment
skip_empty [] = []
skip_empty (f ∷ fs) = if ltb 0 f.size then f ∷ fs else skip_empty fs

-- `operator++`; past the end it is undefined, and stays there.
pub advance : Iterator → Iterator
unfolding skip_empty
advance it = elim it.rest [
  | [] ↦ it
  | f ∷ fs ↦
      if leb f.size (it.index + 1)
      then record { rest = skip_empty fs; index = 0 }
      else record it { index = it.index + 1 }
]

-- The constructor.
pub iterator_at : List Fragment → ℕ → Iterator
unfolding advance
iterator_at rest index = elim rest [
  | [] ↦ record { rest = []; index = index }
  | f ∷ fs ↦
      if leb f.size index
      then advance (record { rest = f ∷ fs; index = index })
      else record { rest = f ∷ fs; index = index }
]

pub begin : Buffer → Iterator
unfolding iterator_at
begin b = iterator_at b.fragments 0

pub end : Buffer → Iterator
unfolding iterator_at
end b = iterator_at [] 0

-- `operator*`; `none` at the end, or outside the fragment's bytes.
pub deref : Heap → Iterator → Option ℕ
deref h it = elim it.rest [ [] ↦ none | f ∷ fs ↦ get_elem? (get_span h f) it.index ]

-- `operator==` with the end: two iterators of one buffer agree at the end only with index 0.
at_end : Iterator → Bool
at_end it = is_empty it.rest && it.index == 0

-- `for (char c : *this)`, on fuel.
pub iterate : ℕ → Heap → Iterator → Option (List ℕ)
unfolding at_end deref advance
iterate zero h it = if at_end it then some [] else none
iterate (suc n) h it =
    let more : Option (List ℕ) = iterate n h (advance it) in
    if at_end it then some [] else elim (deref h it) [
      | none ↦ none
      | some c ↦ elim more [ none ↦ none | some cs ↦ some (c ∷ cs) ]
    ]
