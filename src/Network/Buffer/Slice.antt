-- ===== src/Network/Buffer/Slice.antt =====
-- `SliceFront` of zerosugar/shared/network/buffer/buffer.cpp: its loop, and the whole call.
use zerosugar.Prelude.{
  ℕ, ◌+◌, ◌-◌, ◌≤◌, ◌<◌, ◌≡◌, refl, sym, ◌∙◌, true, false, some, List, [], ◌∷◌, ◌++◌, ltb, ◌==◌,
  length, arith, All, append_assoc, append-nil, Bool-cases, inl, inr, ◌⊎◌,
}
use zerosugar.Prelude.Int.{ℤ, pos, negsuc}
use zerosugar.Network.Memory.{Heap}
use zerosugar.Network.Fragment.{Fragment, get_span}
use zerosugar.Network.Fragment.Ownership.{
  Owned, Live, Keeps, Keeps-refl, Keeps-trans, points_at, holders, slice_front_lem,
}
use zerosugar.Network.Buffer.{Buffer, calculate_size, scan, slice_positive, slice_front}
use zerosugar.Network.Buffer.Contents.{
  contents, IsValid, Owned-eq, Keeps-All, destroy_all_lem, length-contents,
}

-- What the loop has reached when it breaks: `n` bytes in front, and the rest behind.
record Cut (h h' : Heap) (r : ℕ → ℕ) (fs : List Fragment) (n : ℕ) (front back : List Fragment)
    : Type 0 where
  front_size : calculate_size front ≡ n
  back_size : calculate_size front + calculate_size back ≡ calculate_size fs
  front_live : All (Live h') front
  back_live : All (Live h') back
  same_bytes : contents h' front ++ contents h' back ≡ contents h fs
  owned : Owned h' (λ a. holders a front + (holders a back + r a))
  keeps : Keeps h h'

abbrev Scans : ℕ → ℕ → List Fragment → Heap → (ℕ → ℕ) → Type 0
Scans size sum fs h r =
    (h' : Heap) × (front back : List Fragment) × (scan size sum fs h
      ≡ some (some (front, back), h'))
    × Cut h h' r fs (size - sum) front back

module _ (size sum : ℕ) (f : Fragment) (fs : List Fragment) (h : Heap) (r : ℕ → ℕ)
    (l : All (Live h) (f ∷ fs)) (o : Owned h (λ a. holders a (f ∷ fs) + r a)) (p : sum < size) where
  scan_inside : size < sum + f.size → Scans size sum (f ∷ fs) h r
  unfolding scan
  scan_inside q =
      let (h', front, back, e, s, t, lf, lb, same, o', keep) =
        slice_front_lem f (size - sum) h (λ a. holders a fs + r a) l.0 (omega arith) (omega arith)
          (Owned-eq h _ _ (λ a. omega arith) o) in
      let (live, same') = Keeps-All h h' _ fs keep o' (λ a. omega arith) l.1 in
      (
        h',
        front ∷ [],
        back ∷ fs,
        ground (arith, e),
        record {
          front_size = omega arith;
          back_size = omega arith;
          front_live = (lf, tt);
          back_live = (lb, live);
          same_bytes =
              rw (append-nil (get_span h' front), same', ← same)
                (sym (append_assoc (get_span h' front) (get_span h' back) (contents h fs)));
          owned = Owned-eq h' _ _ (λ a. omega arith) o';
          keeps = keep;
        },
      )

  scan_end : size ≡ sum + f.size → Scans size sum (f ∷ fs) h r
  unfolding scan
  scan_end q = (
    h,
    f ∷ [],
    fs,
    ground arith,
    record {
      front_size = omega arith;
      back_size = omega arith;
      front_live = (l.0, tt);
      back_live = l.1;
      same_bytes = rw (append-nil (get_span h f));
      owned = Owned-eq h _ _ (λ a. omega arith) o;
      keeps = Keeps-refl h;
    },
  )

  scan_past :
      sum + f.size < size
      → Scans size (sum + f.size) fs h (λ a. points_at a f + r a)
      → Scans size sum (f ∷ fs) h r
  unfolding scan
  scan_past q (h', front, back, e, c) =
      let (live, same) = Keeps-All h h' _ (f ∷ []) c.keeps c.owned (λ a. omega arith) (l.0, tt) in
      (
        h',
        f ∷ front,
        back,
        ground (arith, e),
        record {
          front_size = omega (arith, c.front_size);
          back_size = omega (arith, c.back_size);
          front_live = (live.0, c.front_live);
          back_live = c.back_live;
          same_bytes =
              let span : get_span h' f ≡ get_span h f =
                sym (append-nil (get_span h' f)) ∙ same ∙ append-nil (get_span h f) in
              append_assoc (get_span h' f) (contents h' front) (contents h' back)
              ∙ rw (span, c.same_bytes) refl;
          owned = Owned-eq h' _ _ (λ a. omega arith) c.owned;
          keeps = c.keeps;
        },
      )

scan_lem :
    (size sum : ℕ) (fs : List Fragment) (h : Heap) (r : ℕ → ℕ)
    → All (Live h) fs
    → Owned h (λ a. holders a fs + r a)
    → sum < size
    → size ≤ sum + calculate_size fs
    → Scans size sum fs h r
scan_lem size sum [] h r l o p q = absurd (omega arith)
scan_lem size sum (f ∷ fs) h r l o p q = elim (Bool-cases (ltb size (sum + f.size))) [
  | inl inside ↦ scan_inside size sum f fs h r l o p (ground arith)
  | inr beyond ↦ elim (Bool-cases (size == sum + f.size)) [
    | inl here ↦ scan_end size sum f fs h r l o p (ground arith)
    | inr past ↦
        let further : sum + f.size < size = ground arith in
        scan_past size sum f fs h r l o p further (
          scan_lem size (sum + f.size) fs h (λ a. points_at a f + r a) l.1
            (Owned-eq h _ _ (λ a. omega arith) o) further (omega arith))
  ]
]

slice_positive_lem :
    (this result : Buffer) (n : ℕ) (h : Heap) (others : ℕ → ℕ)
    → IsValid h (λ a. holders a result.fragments + others a) this
    → IsValid h (λ a. holders a this.fragments + others a) result
    → 0 < n
    → n ≤ this.size
    → (h' : Heap) × (this' result' : Buffer) × (slice_positive this result n h
        ≡ some ((true, this', result'), h'))
      × IsValid h' (λ a. holders a result'.fragments + others a) this'
      × IsValid h' (λ a. holders a this'.fragments + others a) result'
      × (contents h' result'.fragments ++ contents h' this'.fragments ≡ contents h this.fragments)
      × (result'.size ≡ n)
      × Keeps h h'
unfolding slice_positive
slice_positive_lem this result n h others v w p q =
    let (k, front, back, e, c) =
      scan_lem n 0 this.fragments h _ v.live v.owned p (omega (arith, v.size_sum)) in
    let (live, same) = Keeps-All h k _ result.fragments c.keeps c.owned (λ a. omega arith) w.live in
    let (h', e', o, keep) =
      destroy_all_lem result.fragments k (λ a. holders a front + (holders a back + others a)) live
        (Owned-eq k _ _ (λ a. omega arith) c.owned) in
    let (front_live, front_same) = Keeps-All k h' _ front keep o (λ a. omega arith) c.front_live in
    let (back_live, back_same) = Keeps-All k h' _ back keep o (λ a. omega arith) c.back_live in
    (
      h',
      record { size = this.size - n; fragments = back },
      record { size = n; fragments = front },
      ground (arith, e, e'),
      record {
        size_sum = omega (arith, v.size_sum, c.front_size, c.back_size);
        live = back_live;
        owned = Owned-eq h' _ _ (λ a. omega arith) o;
      },
      record {
        size_sum = omega (arith, c.front_size);
        live = front_live;
        owned = Owned-eq h' _ _ (λ a. omega arith) o;
      },
      rw (front_same, back_same) c.same_bytes,
      refl,
      Keeps-trans h k h' c.keeps keep,
    )

-- `SliceFront` of 1 to `GetSize()` bytes succeeds: the result holds exactly the first `n` bytes of
-- the buffer, the buffer keeps the rest, both are well formed, the old fragments of `result` are
-- given up, every reference count is again the number of owners, and nobody else's bytes change.
pub slice_front_splits :
    (this result : Buffer) (n : ℕ) (h : Heap) (others : ℕ → ℕ)
    → IsValid h (λ a. holders a result.fragments + others a) this
    → IsValid h (λ a. holders a this.fragments + others a) result
    → 0 < n
    → n ≤ this.size
    → (h' : Heap) × (this' result' : Buffer) × (slice_front this result (pos n) h
        ≡ some ((true, this', result'), h'))
      × IsValid h' (λ a. holders a result'.fragments + others a) this'
      × IsValid h' (λ a. holders a this'.fragments + others a) result'
      × (contents h' result'.fragments ++ contents h' this'.fragments ≡ contents h this.fragments)
      × (length (contents h' result'.fragments) ≡ n)
      × Keeps h h'
unfolding slice_front
slice_front_splits this result n h others v w p q =
    let (h', this', result', e, v', w', same, size, keep) =
      slice_positive_lem this result n h others v w p q in
    (
      h',
      this',
      result',
      ground (arith, e),
      v',
      w',
      same,
      omega (arith, length-contents h' result'.fragments w'.live, w'.size_sum),
      keep,
    )

abbrev OutOfRange : Buffer → ℤ → Type 0
OutOfRange b (pos n) = (n ≡ 0) ⊎ (b.size < n)
OutOfRange b (negsuc n) = Unit {0}

-- `SliceFront` of a size that is not positive, or of more than there is, answers false and changes
-- nothing.
pub slice_front_refuses :
    (this result : Buffer) (size : ℤ) (h : Heap)
    → OutOfRange this size
    → slice_front this result size h ≡ some ((false, this, result), h)
unfolding slice_front slice_positive
slice_front_refuses this result (pos n) h out = ground arith
slice_front_refuses this result (negsuc n) h out = refl
