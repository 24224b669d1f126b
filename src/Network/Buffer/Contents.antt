-- ===== src/Network/Buffer/Contents.antt =====
-- The bytes that a buffer of zerosugar/shared/network/buffer/buffer.cpp stands for, when it is well formed,
-- and `MergeBack`.
use zerosugar.Prelude.{
  ℕ, ◌+◌, ◌≤◌, ◌≡◌, refl, sym, ◌∙◌, List, [], ◌∷◌, ◌++◌, length, drop, arith, All, All-append,
  length-append, length-take, length-drop, append_assoc, some,
}
use zerosugar.Network.Memory.{Heap}
use zerosugar.Network.Fragment.{Fragment, get_span}
use zerosugar.Network.Fragment.Ownership.{
  Owned, Live, Keeps, Keeps-refl, Keeps-trans, Keeps-Live, Live-impl, holders, holders-append,
  destroy_lem,
}
use zerosugar.Network.Buffer.{Buffer, calculate_size, destroy_all, merge_back}

abbrev pub contents : Heap → List Fragment → List ℕ
contents h [] = []
contents h (f ∷ fs) = get_span h f ++ contents h fs

-- A buffer whose size is that of its fragments, all of them live. `others` counts the owners of
-- blocks outside the buffer.
pub record IsValid (h : Heap) (others : ℕ → ℕ) (b : Buffer) : Type 0 where
  pub size_sum : b.size ≡ calculate_size b.fragments
  pub live : All (Live h) b.fragments
  pub owned : Owned h (λ a. holders a b.fragments + others a)

pub Owned-eq : (h : Heap) (m n : ℕ → ℕ) → ((a : ℕ) → m a ≡ n a) → Owned h m → Owned h n
Owned-eq h m n e o = record { counted = λ a. o.counted a ∙ e a; alive = o.alive }

pub length-get_span : (h : Heap) (f : Fragment) → Live h f → length (get_span h f) ≡ f.size
length-get_span h f l =
    let (a, b, e, c, fits, _) = Live-impl h f l in
    ground
      (arith, length-take f.size (drop f.start_offset b.bytes), length-drop f.start_offset b.bytes)

pub length-contents :
    (h : Heap) (fs : List Fragment) → All (Live h) fs → length (contents h fs) ≡ calculate_size fs
length-contents h [] l = refl
length-contents h (f ∷ fs) l = omega (
  arith,
  length-append (get_span h f) (contents h fs),
  length-get_span h f l.0,
  length-contents h fs l.1,
)

pub contents-append :
    (h : Heap) (fs gs : List Fragment) → contents h (fs ++ gs) ≡ contents h fs ++ contents h gs
contents-append h [] gs = refl
contents-append h (f ∷ fs) gs =
    rw (contents-append h fs gs) (sym (append_assoc (get_span h f) (contents h fs) (contents h gs)))

pub calculate_size-append :
    (fs gs : List Fragment) → calculate_size (fs ++ gs) ≡ calculate_size fs + calculate_size gs
calculate_size-append [] gs = omega arith
calculate_size-append (f ∷ fs) gs = omega (arith, calculate_size-append fs gs)

-- Fragments that are counted as owners keep their bytes.
pub Keeps-All :
    (h h' : Heap) (n : ℕ → ℕ) (fs : List Fragment)
    → Keeps h h'
    → Owned h' n
    → ((a : ℕ) → holders a fs ≤ n a)
    → All (Live h) fs
    → All (Live h') fs × (contents h' fs ≡ contents h fs)
Keeps-All h h' n [] k o le l = (tt, refl)
Keeps-All h h' n (f ∷ fs) k o le l =
    let (a, b, e, c, fits, _) = Live-impl h f l.0 in
    let one : Live h' f × (get_span h' f ≡ get_span h f) =
      Keeps-Live h h' f a k e (ground (arith, o.counted a, le a)) l.0 in
    let rest : All (Live h') fs × (contents h' fs ≡ contents h fs) =
      Keeps-All h h' n fs k o (λ x. omega (arith, le x)) l.1 in
    ((one.0, rest.0), rw (one.1, rest.1))

-- The destructors of a container give up its shares.
pub destroy_all_lem :
    (fs : List Fragment) (h : Heap) (r : ℕ → ℕ)
    → All (Live h) fs
    → Owned h (λ a. holders a fs + r a)
    → (h' : Heap) × (destroy_all fs h ≡ some (tt, h')) × Owned h' r × Keeps h h'
unfolding destroy_all
destroy_all_lem [] h r l o = (h, refl, Owned-eq h _ r (λ a. omega arith) o, Keeps-refl h)
destroy_all_lem (f ∷ fs) h r l o =
    let (k, e, o', keep) =
      destroy_lem f h (λ a. holders a fs + r a) l.0 (Owned-eq h _ _ (λ a. omega arith) o) in
    let (h', e', o'', keep') =
      destroy_all_lem fs k r (Keeps-All h k _ fs keep o' (λ a. omega arith) l.1).0 o' in
    (h', ground arith, o'', Keeps-trans h k h' keep keep')

-- `MergeBack` of two well formed buffers is one, with the bytes of the second after the first's.
pub merge_back-IsValid :
    (h : Heap) (others : ℕ → ℕ) (b c : Buffer)
    → IsValid h (λ a. holders a c.fragments + others a) b
    → IsValid h (λ a. holders a b.fragments + others a) c
    → IsValid h others (merge_back b c)
      × (contents h (merge_back b c).fragments ≡ contents h b.fragments ++ contents h c.fragments)
unfolding merge_back
merge_back-IsValid h others b c v w = (
  record {
    size_sum = omega (arith, v.size_sum, w.size_sum, calculate_size-append b.fragments c.fragments);
    live = All-append (Live h) b.fragments c.fragments v.live w.live;
    owned = Owned-eq h _ _ (λ a. omega (arith, holders-append a b.fragments c.fragments)) v.owned;
  },
  contents-append h b.fragments c.fragments,
)
