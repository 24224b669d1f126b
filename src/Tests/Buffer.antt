-- ===== src/Tests/Buffer.antt =====
-- Runs of zerosugar/shared/network/buffer: a block of three bytes, in two fragments that share it.
use zerosugar.Prelude.{
  ℕ, ◌+◌, ◌≡◌, refl, ◌++◌, true, none, some, [], ◌∷◌, length, ◌==◌, if◌then◌else◌, arith,
}
use zerosugar.Prelude.Int.{pos}
use zerosugar.Network.Memory.{Block, Heap}
use zerosugar.Network.Fragment.{Fragment}
use zerosugar.Network.Fragment.Ownership.{Owned, Keeps, holders, points_at}
use zerosugar.Network.Buffer.{
  Buffer, merge_back, shallow_copy, add, clear, empty, iterate, begin, empty_buffer,
}
use zerosugar.Network.Buffer
use zerosugar.Network.Buffer.Contents.{contents, IsValid}
use zerosugar.Network.Buffer.Slice.{slice_front_splits}
use zerosugar.Network.Buffer.Copy.{shallow_copy_shares, clear_releases}

abbrev block : ℕ → Block
block n = record { ref_count = n; size = 3; bytes = 7 ∷ 8 ∷ 9 ∷ [] }

abbrev heap : Heap
heap = record { cell = λ a. if a == 0 then some (block 2) else none; next = 1 }

abbrev first_part : Fragment
first_part = record { impl = some 0; start_offset = 0; size = 2 }

abbrev last_part : Fragment
last_part = record { impl = some 0; start_offset = 2; size = 1 }

abbrev both : Buffer
both = record { size = 3; fragments = first_part ∷ last_part ∷ [] }

abbrev nobody : ℕ → ℕ
nobody a = 0

heap-Owned : Owned heap (λ a. points_at a first_part + (points_at a last_part + 0))
heap-Owned = record { counted = λ a. ground arith; alive = λ a b e. ground arith }

both-IsValid : IsValid heap (λ a. 0 + nobody a) both
both-IsValid = record {
  size_sum = refl;
  live = (ground arith, (ground arith, tt));
  owned = record { counted = λ a. ground arith; alive = λ a b e. ground arith };
}

nothing-IsValid : IsValid heap (λ a. holders a both.fragments + nobody a) empty_buffer
nothing-IsValid = record {
  size_sum = refl;
  live = tt;
  owned = record { counted = λ a. ground arith; alive = λ a b e. ground arith };
}

slice_front_splits_example :
    (h' : Heap) × (this' result' : Buffer) × (Buffer.slice_front both empty_buffer (pos 1) heap
      ≡ some ((true, this', result'), h'))
    × IsValid h' (λ a. holders a result'.fragments + nobody a) this'
    × IsValid h' (λ a. holders a this'.fragments + nobody a) result'
    × (contents h' result'.fragments ++ contents h' this'.fragments ≡ contents heap both.fragments)
    × (length (contents h' result'.fragments) ≡ 1)
    × Keeps heap h'
slice_front_splits_example =
    slice_front_splits both empty_buffer 1 heap nobody both-IsValid nothing-IsValid (omega arith)
      (omega arith)

-- The two parts as buffers of their own.
abbrev front_buffer : Buffer
front_buffer = record { size = 2; fragments = first_part ∷ [] }

abbrev back_buffer : Buffer
back_buffer = record { size = 1; fragments = last_part ∷ [] }

front-IsValid : IsValid heap (λ a. holders a back_buffer.fragments + nobody a) front_buffer
front-IsValid = record {
  size_sum = refl;
  live = (ground arith, tt);
  owned = record { counted = λ a. ground arith; alive = λ a b e. ground arith };
}

back-IsValid : IsValid heap (λ a. holders a front_buffer.fragments + nobody a) back_buffer
back-IsValid = record {
  size_sum = refl;
  live = (ground arith, tt);
  owned = record { counted = λ a. ground arith; alive = λ a b e. ground arith };
}

both_alone : IsValid heap nobody both
both_alone = record {
  size_sum = refl;
  live = both-IsValid.live;
  owned = record { counted = λ a. ground arith; alive = λ a b e. ground arith };
}

shallow_copy_shares_example :
    (h' : Heap) × (copy : Buffer) × (shallow_copy both heap ≡ some (copy, h'))
    × (copy.fragments ≡ both.fragments)
    × (copy.size ≡ both.size)
    × IsValid h' (λ a. holders a copy.fragments + nobody a) both
    × IsValid h' (λ a. holders a both.fragments + nobody a) copy
    × (contents h' copy.fragments ≡ contents heap both.fragments)
    × (contents h' both.fragments ≡ contents heap both.fragments)
    × Keeps heap h'
shallow_copy_shares_example = shallow_copy_shares both heap nobody both_alone

front_waits : IsValid heap (λ a. points_at a last_part + nobody a) front_buffer
front_waits = record {
  size_sum = refl;
  live = (ground arith, tt);
  owned = record { counted = λ a. ground arith; alive = λ a b e. ground arith };
}

clear_releases_example :
    (h' : Heap) × (b' : Buffer) × (clear both heap ≡ some (b', h'))
    × (empty b' ≡ true)
    × Owned h' nobody
    × Keeps heap h'
clear_releases_example = clear_releases both heap nobody both_alone
