-- ===== src/Network/Fragment/Ownership.antt =====
-- Fragments of zerosugar/shared/network/buffer/fragment.cpp and the memory: when a fragment is live, and
-- the books of the reference counts, in which `holders` counts the fragments that point at an address.
use zerosugar.Prelude.{
  ℕ, ◌+◌, ◌-◌, ◌≤◌, ◌<◌, ◌≡◌, refl, ◌∙◌, ap, Option, none, some, List, [], ◌∷◌, ◌++◌, ◌==◌,
  if◌then◌else◌, length, take, drop, arith, take-append-take-drop, drop-drop,
}
use zerosugar.Network.Memory.{Block, Heap, update}
use zerosugar.Network.Fragment.{Fragment, add_ref, slice_front, shallow_copy, destroy, get_span}

abbrev pub refs : Heap → ℕ → ℕ
refs h a = elim (h.cell a) [ none ↦ 0 | some b ↦ b.ref_count ]

abbrev pub bytes_at : Heap → ℕ → Option (List ℕ)
bytes_at h a = elim (h.cell a) [ none ↦ none | some b ↦ some b.bytes ]

abbrev pub points_at : ℕ → Fragment → ℕ
points_at a f = elim f.impl [ none ↦ 0 | some k ↦ if a == k then 1 else 0 ]

abbrev pub holders : ℕ → List Fragment → ℕ
holders a [] = 0
holders a (f ∷ fs) = points_at a f + holders a fs

pub holders-append :
    (a : ℕ) (fs gs : List Fragment) → holders a (fs ++ gs) ≡ holders a fs + holders a gs
holders-append a [] gs = omega arith
holders-append a (f ∷ fs) gs = omega (arith, holders-append a fs gs)

-- Every count is the number of owners, and a block that nobody owns is freed.
pub record Owned (h : Heap) (n : ℕ → ℕ) : Type 0 where
  pub counted : (a : ℕ) → refs h a ≡ n a
  pub alive : (a : ℕ) (b : Block) → h.cell a ≡ some b → 0 < b.ref_count

-- The fragment's bytes lie inside a block that is there, and are not none.
abbrev pub Live : Heap → Fragment → Type 0
Live h f = elim f.impl [
  | none ↦ ⊥
  | some a ↦ elim (h.cell a) [
    | none ↦ ⊥
    | some b ↦ (f.start_offset + f.size ≤ length b.bytes) × (0 < f.size)
  ]
]

-- No block is written or given out again; one may be freed.
abbrev pub Keeps : Heap → Heap → Type 0
Keeps h h' = (a : ℕ) → 0 < refs h' a → (bytes_at h' a ≡ bytes_at h a) × (0 < refs h a)

pub Keeps-refl : (h : Heap) → Keeps h h
Keeps-refl h a p = (refl, p)

pub Keeps-trans : (h k l : Heap) → Keeps h k → Keeps k l → Keeps h l
Keeps-trans h k l p q a r = ((q a r).0 ∙ (p a (q a r).1).0, (p a (q a r).1).1)

-- A fragment that still has an owner stays as it was.
pub Keeps-Live :
    (h h' : Heap) (f : Fragment) (a : ℕ)
    → Keeps h h'
    → f.impl ≡ some a
    → 0 < refs h' a
    → Live h f
    → Live h' f × (get_span h' f ≡ get_span h f)
Keeps-Live h h' f a keep e r l = ground (arith, keep a r)

abbrev bump : Heap → ℕ → Block → Heap
bump h a b = record h { cell = update h.cell a (some (record b { ref_count = b.ref_count + 1 })) }

add_ref_lem :
    (a : ℕ) (b : Block) (h : Heap) → h.cell a ≡ some b → add_ref (some a) h ≡ some (tt, bump h a b)
unfolding add_ref
add_ref_lem a b h e = ground arith

bump-Keeps :
    (a : ℕ) (b : Block) (h : Heap) → h.cell a ≡ some b → 0 < b.ref_count → Keeps h (bump h a b)
bump-Keeps a b h e p k r = (ground arith, ground arith)

bump-refs :
    (a : ℕ) (b : Block) (h : Heap) (k : ℕ)
    → h.cell a ≡ some b
    → refs (bump h a b) k ≡ refs h k + (if k == a then 1 else 0)
bump-refs a b h k e = ground arith

pub Live-impl :
    (h : Heap) (f : Fragment)
    → Live h f
    → (a : ℕ) × (b : Block) × (f.impl ≡ some a)
      × (h.cell a ≡ some b)
      × (f.start_offset + f.size ≤ length b.bytes)
      × (0 < f.size)
Live-impl h f l = ground arith

bump-Owned :
    (a : ℕ) (b : Block) (h : Heap) (m n : ℕ → ℕ)
    → h.cell a ≡ some b
    → ((k : ℕ) → n k ≡ (if k == a then 1 else 0) + m k)
    → Owned h m
    → Owned (bump h a b) n
bump-Owned a b h m n e q o = record {
  counted = λ k. ground (arith, o.counted k, q k);
  alive = λ k b' e'. ground (arith, o.alive k b');
}

abbrev front_part : Fragment → ℕ → Fragment
front_part f n = record f { size = n }

abbrev back_part : Fragment → ℕ → Fragment
back_part f n = record f { start_offset = f.start_offset + n; size = f.size - n }

cut-bytes :
    (n s k : ℕ) (xs : List ℕ)
    → n ≤ k
    → take n (drop s xs) ++ take (k - n) (drop (s + n) xs) ≡ take k (drop s xs)
cut-bytes n s k xs p =
    rw (← drop-drop s n xs)
      (take-append-take-drop n (k - n) (drop s xs) ∙ ap (λ m. take m (drop s xs)) (omega arith))

-- `SliceFront` of a positive size less than that of a live fragment cuts its bytes in two; both parts
-- are live, each is counted as an owner, and no block is written.
pub slice_front_lem :
    (f : Fragment) (n : ℕ) (h : Heap) (r : ℕ → ℕ)
    → Live h f
    → 0 < n
    → n < f.size
    → Owned h (λ a. points_at a f + r a)
    → (h' : Heap) × (front back : Fragment) × (slice_front f n h ≡ some ((some front, back), h'))
      × (front.size ≡ n)
      × (back.size ≡ f.size - n)
      × Live h' front
      × Live h' back
      × (get_span h' front ++ get_span h' back ≡ get_span h f)
      × Owned h' (λ a. points_at a front + (points_at a back + r a))
      × Keeps h h'
unfolding slice_front
slice_front_lem f n h r l p q o =
    let (a, b, e, c, fits, _) = Live-impl h f l in
    (
      bump h a b,
      front_part f n,
      back_part f n,
      ground (arith, add_ref_lem a b h c),
      refl,
      refl,
      ground arith,
      ground arith,
      ground (arith, cut-bytes n f.start_offset f.size b.bytes),
      bump-Owned a b h _ _ c (λ k. ground arith) o,
      bump-Keeps a b h c (o.alive a b c),
    )

-- `ShallowCopy` of a live fragment is one more owner of the same bytes.
pub shallow_copy_lem :
    (f : Fragment) (h : Heap) (r : ℕ → ℕ)
    → Live h f
    → Owned h (λ a. points_at a f + r a)
    → (h' : Heap) × (shallow_copy f h ≡ some (f, h'))
      × Live h' f
      × (get_span h' f ≡ get_span h f)
      × Owned h' (λ a. points_at a f + (points_at a f + r a))
      × Keeps h h'
unfolding shallow_copy
shallow_copy_lem f h r l o =
    let (a, b, e, c, fits, _) = Live-impl h f l in
    (
      bump h a b,
      ground (arith, add_ref_lem a b h c),
      ground arith,
      ground arith,
      bump-Owned a b h _ _ c (λ k. ground arith) o,
      bump-Keeps a b h c (o.alive a b c),
    )

abbrev drop_ref : Heap → ℕ → Block → Heap
drop_ref h a b =
    if b.ref_count == 1
    then record h { cell = update h.cell a none }
    else record h { cell = update h.cell a (some (record b { ref_count = b.ref_count - 1 })) }

-- The destructor gives up one share, and the block goes with the last.
pub destroy_lem :
    (f : Fragment) (h : Heap) (r : ℕ → ℕ)
    → Live h f
    → Owned h (λ a. points_at a f + r a)
    → (h' : Heap) × (destroy f h ≡ some (tt, h')) × Owned h' r × Keeps h h'
unfolding destroy
destroy_lem f h r l o =
    let (a, b, e, c, fits, _) = Live-impl h f l in
    (
      drop_ref h a b,
      ground arith,
      record {
        counted = λ k. ground (arith, o.counted k, o.counted a);
        alive = λ k b' e'. ground (arith, o.alive k b', o.alive a b);
      },
      λ k p. (ground (arith, o.alive a b), ground (arith, o.alive a b)),
    )
