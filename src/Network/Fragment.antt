-- ===== src/Network/Fragment.antt =====
-- zerosugar/shared/network/buffer/fragment.h and fragment.cpp. A method returns `*this` beside its
-- result. Sizes and offsets are nonnegative in every object that these methods build, so they are
-- plain numbers; the additions are of parts of one allocation and do not overflow.
pub mod Ownership
use zerosugar.Prelude.{
  ℕ, ◌+◌, ◌-◌, ◌≡◌, Bool, true, false, ◌&&◌, Option, none, some, List, [], ◌++◌, ltb, leb, ◌==◌,
  if◌then◌else◌, length, take, drop,
}
use zerosugar.Network.Memory.{Block, Heap, M, ◌>>=◌, ◌>>◌, pure, value, load, store, free, allocate}

-- `_impl` (an address, or null), `_startOffset`, `_size`.
pub record Fragment : Type 0 where
  pub impl : Option ℕ
  pub start_offset : ℕ
  pub size : ℕ

-- The default constructor, and what a move leaves behind.
abbrev pub null_fragment : Fragment
null_fragment = record { impl = none; start_offset = 0; size = 0 }

abbrev pub is_some {ℓ} : {A : Type ℓ} → Option A → Bool
is_some none = false
is_some (some a) = true

abbrev pub is_valid : Fragment → Bool
is_valid f = is_some f.impl && ltb 0 f.size

-- `_impl->header.refCount.fetch_add(1)`.
unfoldable pub add_ref : Option ℕ → M (Unit {0})
unfolding load store
add_ref impl = do a ← value impl; b ← load a; store a (record b { ref_count = b.ref_count + 1 })

unfoldable pub slice_front : Fragment → ℕ → M (Option Fragment × Fragment)
unfolding add_ref
slice_front f size =
    if leb f.size size
    then pure (none, f)
    else add_ref f.impl
      >> pure (
        some (record f { size = size }),
        record f { start_offset = f.start_offset + size; size = f.size - size },
      )

unfoldable pub shallow_copy : Fragment → M Fragment
unfolding add_ref
shallow_copy f = if is_valid f then (do add_ref f.impl; pure f) else pure null_fragment

-- `~Fragment()`: the last owner frees the block.
release : ℕ → M (Unit {0})
unfolding load store free
release a = do
  b ← load a
  if b.ref_count == 1 then free a else store a (record b { ref_count = b.ref_count - 1 })

unfoldable pub destroy : Fragment → M (Unit {0})
unfolding release
destroy f = elim f.impl [ none ↦ pure tt | some a ↦ release a ]

-- `operator=(Fragment&&)`: the new `*this` and the moved-from `other`.
unfoldable pub move_assign : Fragment → Fragment → M (Fragment × Fragment)
unfolding destroy
move_assign this other = do destroy this; pure (other, null_fragment)

-- `Create(size)`; the argument is the memory behind the header, `size` bytes that the allocator
-- hands out.
unfoldable pub create : List ℕ → M Fragment
unfolding allocate
create memory = do
  a ← allocate (record { ref_count = 1; size = length memory; bytes = memory })
  pure (record { impl = some a; start_offset = 0; size = length memory })

abbrev pub overwrite : List ℕ → ℕ → List ℕ → List ℕ
overwrite bytes start span = take start bytes ++ span ++ drop (start + length span) bytes

-- `CreateFrom(span)`, over the memory that the allocator hands out.
unfoldable pub create_from : List ℕ → List ℕ → M Fragment
unfolding create load store
create_from memory span = do
  f ← create memory
  a ← value f.impl
  b ← load a
  store a (record b { bytes = overwrite b.bytes f.start_offset span })
  pure f

-- The bytes of `GetSpan()`: `_size` of them from `GetData()` on. (`abbrev`: statements are about it.)
abbrev pub get_span : Heap → Fragment → List ℕ
get_span h f = elim f.impl [
  | none ↦ []
  | some a ↦ elim (h.cell a) [ none ↦ [] | some b ↦ take f.size (drop f.start_offset b.bytes) ]
]

abbrev pub get_ref_count : Heap → Fragment → ℕ
get_ref_count h f = elim f.impl [
  | none ↦ 0
  | some a ↦ elim (h.cell a) [ none ↦ 0 | some b ↦ b.ref_count ]
]
