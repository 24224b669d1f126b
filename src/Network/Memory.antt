-- ===== src/Network/Memory.antt =====
-- The memory behind the fragments of zerosugar/shared/network/buffer/fragment.cpp: each address
-- holds the `Impl` that one `scalable_malloc` gave, its header and the bytes behind it. A program
-- over it may fault: it reads through an address that holds nothing, or takes a value of an empty
-- option.
use zerosugar.Prelude.{ℕ, suc, Option, none, some, List, ◌==◌, if◌then◌else◌}

-- `Fragment::Header` with the payload behind it.
pub record Block : Type 0 where
  pub ref_count : ℕ
  pub size : ℕ
  pub bytes : List ℕ

pub record Heap : Type 0 where
  pub cell : ℕ → Option Block
  pub next : ℕ

-- A program: `none` is a fault.
abbrev pub M : Type 0 → Type 0
M Result = Heap → Option (Result × Heap)

abbrev pub fault : {X : Type 0} → M X
fault before = none

infixl 5 ◌>>=◌
abbrev pub ◌>>=◌ : {X Y : Type 0} → M X → (X → M Y) → M Y
◌>>=◌ run next before = elim (run before) [ none ↦ none | some (x, after) ↦ next x after ]

abbrev pub pure : {X : Type 0} → X → M X
pure x before = some (x, before)

infixl 5 ◌>>◌
abbrev pub ◌>>◌ : {X : Type 0} → M (Unit {0}) → M X → M X
first >> second = first >>= λ _. second

-- `std::optional::value`.
abbrev pub value : {A : Type 0} → Option A → M A
value none = fault
value (some a) = pure a

abbrev pub update : (ℕ → Option Block) → ℕ → Option Block → ℕ → Option Block
update cell a b k = if k == a then b else cell k

unfoldable pub load : ℕ → M Block
load a h = elim (h.cell a) [ none ↦ none | some b ↦ some (b, h) ]

unfoldable pub store : ℕ → Block → M (Unit {0})
store a b h = some (tt, record h { cell = update h.cell a (some b) })

unfoldable pub free : ℕ → M (Unit {0})
free a h = some (tt, record h { cell = update h.cell a none })

-- A block at an address that was never given before.
unfoldable pub allocate : Block → M ℕ
allocate b h = some (h.next, record h { cell = update h.cell h.next (some b); next = suc h.next })
