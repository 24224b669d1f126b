-- ===== src/Network/Buffer/Copy.antt =====
-- `ShallowCopy`, `Add` and `Clear` of zerosugar/shared/network/buffer/buffer.cpp.
use zerosugar.Prelude.{
  ℕ, ◌+◌, ◌≡◌, refl, ◌∙◌, ap, true, some, List, [], ◌∷◌, ◌++◌, arith, All, All-append, append-nil,
}
use zerosugar.Network.Memory.{Heap}
use zerosugar.Network.Fragment.{Fragment, get_span}
use zerosugar.Network.Fragment.Ownership.{
  Owned, Live, Keeps, Keeps-refl, Keeps-trans, points_at, holders, holders-append, shallow_copy_lem,
  Live-impl,
}
use zerosugar.Network.Buffer.{Buffer, empty_buffer, copy_all, shallow_copy, add, clear, empty}
use zerosugar.Network.Buffer.Contents.{
  contents, contents-append, calculate_size-append, IsValid, Owned-eq, Keeps-All, destroy_all_lem,
}

copy_all_lem :
    (fs : List Fragment) (h : Heap) (r : ℕ → ℕ)
    → All (Live h) fs
    → Owned h (λ a. holders a fs + r a)
    → (h' : Heap) × (copy_all fs h ≡ some (fs, h'))
      × Owned h' (λ a. holders a fs + (holders a fs + r a))
      × Keeps h h'
unfolding copy_all
copy_all_lem [] h r l o = (h, refl, Owned-eq h _ _ (λ a. omega arith) o, Keeps-refl h)
copy_all_lem (f ∷ fs) h r l o =
    let (k, e, _, _, o', keep) =
      shallow_copy_lem f h (λ a. holders a fs + r a) l.0 (Owned-eq h _ _ (λ a. omega arith) o) in
    let (h', e', o'', keep') =
      copy_all_lem fs k (λ a. points_at a f + (points_at a f + r a))
        (Keeps-All h k _ fs keep o' (λ a. omega arith) l.1).0
        (Owned-eq k _ _ (λ a. omega arith) o') in
    (
      h',
      ground (arith, e, e'),
      Owned-eq h' _ _ (λ a. omega arith) o'',
      Keeps-trans h k h' keep keep',
    )

-- `ShallowCopy` of a well formed buffer shares every block: the copy has the same fragments, of the
-- same blocks, and the same size, it reads the same bytes, the original stays well formed, each count grows by the copy's shares, and
-- nobody's bytes change.
pub shallow_copy_shares :
    (b : Buffer) (h : Heap) (others : ℕ → ℕ)
    → IsValid h others b
    → (h' : Heap) × (copy : Buffer) × (shallow_copy b h ≡ some (copy, h'))
      × (copy.fragments ≡ b.fragments)
      × (copy.size ≡ b.size)
      × IsValid h' (λ a. holders a copy.fragments + others a) b
      × IsValid h' (λ a. holders a b.fragments + others a) copy
      × (contents h' copy.fragments ≡ contents h b.fragments)
      × (contents h' b.fragments ≡ contents h b.fragments)
      × Keeps h h'
unfolding shallow_copy
shallow_copy_shares b h others v =
    let (h', e, o, keep) = copy_all_lem b.fragments h others v.live v.owned in
    let (live, same) = Keeps-All h h' _ b.fragments keep o (λ a. omega arith) v.live in
    let valid : IsValid h' (λ a. holders a b.fragments + others a) b = record {
      size_sum = v.size_sum;
      live = live;
      owned = o;
    } in
    (h', b, ground (arith, e), refl, refl, valid, valid, same, same, keep)

-- `Add` of a live fragment to a well formed buffer appends its bytes, and the buffer stays well
-- formed, with the fragment among its owners.
pub add-IsValid :
    (b : Buffer) (f : Fragment) (h : Heap) (others : ℕ → ℕ)
    → IsValid h (λ a. points_at a f + others a) b
    → Live h f
    → (b' : Buffer) × (add b f h ≡ some (b', h))
      × IsValid h others b'
      × (contents h b'.fragments ≡ contents h b.fragments ++ get_span h f)
unfolding add
add-IsValid b f h others v l = (
  record { size = b.size + f.size; fragments = b.fragments ++ (f ∷ []) },
  (let (a, c, e, _, _, _) = Live-impl h f l in ground arith),
  record {
    size_sum = omega (arith, v.size_sum, calculate_size-append b.fragments (f ∷ []));
    live = All-append (Live h) b.fragments (f ∷ []) v.live (l, tt);
    owned = Owned-eq h _ _ (λ a. omega (arith, holders-append a b.fragments (f ∷ []))) v.owned;
  },
  contents-append h b.fragments (f ∷ [])
      ∙ ap (◌++◌ (contents h b.fragments)) (append-nil (get_span h f)),
)

-- `Clear` of a well formed buffer gives up every share of the buffer, so that each count is the number
-- of the other owners, leaves it empty, and changes no block that somebody still owns.
pub clear_releases :
    (b : Buffer) (h : Heap) (others : ℕ → ℕ)
    → IsValid h others b
    → (h' : Heap) × (b' : Buffer) × (clear b h ≡ some (b', h'))
      × (empty b' ≡ true)
      × Owned h' others
      × Keeps h h'
unfolding clear empty
clear_releases b h others v =
    let (h', e, o, keep) = destroy_all_lem b.fragments h others v.live v.owned in
    (h', empty_buffer, ground (arith, e), refl, o, keep)
