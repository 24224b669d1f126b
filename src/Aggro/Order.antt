-- ===== src/Aggro/Order.antt =====
-- When a container of zerosugar/xr/server/game/instance/ai/aggro/aggro_container.cpp is
-- well formed, and how its entries are counted.
use zerosugar.Prelude.{
  ℕ, suc, ◌+◌, ◌≤◌, ◌≡◌, refl, Bool, none, some, List, [], ◌∷◌, arith, length, ◌⊎◌, inl, inr,
  Bool-cases, ◌==◌, if◌then◌else◌,
}
use zerosugar.Prelude.Int.{◌≤ℤ◌}
use zerosugar.Aggro.{Aggro, max_aggro_manage_count, compare_aggro_value, rejoin, find, rise}

abbrev pub Below : Aggro → List Aggro → Type 0
Below a [] = Unit {0}
Below a (b ∷ s) = b.value ≤ℤ a.value

-- No entry is followed by a larger one.
abbrev pub Desc : List Aggro → Type 0
Desc [] = Unit {0}
Desc (a ∷ s) = Below a s × Desc s

-- How many entries pass a test.
abbrev pub one : (Aggro → Bool) → Aggro → ℕ
one test a = if test a then 1 else 0

abbrev pub count : (Aggro → Bool) → List Aggro → ℕ
count test [] = 0
count test (a ∷ s) = one test a + count test s

abbrev pub of_source : ℕ → Aggro → Bool
of_source id a = a.source_id == id

pub record IsValid (s : List Aggro) : Type 0 where
  pub sorted : Desc s
  pub bounded : length s ≤ max_aggro_manage_count
  pub distinct : (id : ℕ) → count (of_source id) s ≤ 1

pub count-rejoin :
    (test : Aggro → Bool) (before after : List Aggro)
    → count test (rejoin before after) ≡ count test before + count test after
count-rejoin test [] after = omega arith
count-rejoin test (a ∷ before) after = omega (arith, count-rejoin test before (a ∷ after))

pub length-rejoin :
    (before after : List Aggro) → length (rejoin before after) ≡ length before + length after
length-rejoin [] after = omega arith
length-rejoin (a ∷ before) after = omega (arith, length-rejoin before (a ∷ after))

-- The part behind an iterator is in order, and may be exchanged for another that starts alike.
pub Desc-after : (before after : List Aggro) → Desc (rejoin before after) → Desc after
Desc-after [] after h = h
Desc-after (a ∷ before) after h = (Desc-after before (a ∷ after) h).1

pub Desc-exchange :
    (before after new : List Aggro) (a : Aggro)
    → Desc (rejoin before (a ∷ after))
    → Desc (a ∷ new)
    → Desc (rejoin before (a ∷ new))
Desc-exchange [] after new a h k = k
Desc-exchange (b ∷ before) after new a h k =
    Desc-exchange before (a ∷ after) (a ∷ new) b h ((Desc-after before (b ∷ a ∷ after) h).0, k)

pub Below-trans : (a b : Aggro) (s : List Aggro) → b.value ≤ℤ a.value → Below b s → Below a s
Below-trans a b [] p q = tt
Below-trans a b (c ∷ s) p q = omega arith

-- An entry may be taken out.
pub Desc-erase :
    (before after : List Aggro) (a : Aggro)
    → Desc (rejoin before (a ∷ after))
    → Desc (rejoin before after)
Desc-erase [] after a h = h.1
Desc-erase (b ∷ before) after a h =
    let (lower, (below, rest)) = Desc-after before (b ∷ a ∷ after) h in
    Desc-exchange before (a ∷ after) after b h (Below-trans b a after lower below, rest)

pub find_cases :
    (id : ℕ) (before s : List Aggro)
    → ((find id before s ≡ none) × (count (of_source id) s ≡ 0))
      ⊎ ((front : List Aggro) × (a : Aggro) × (back : List Aggro) × (find id before s
            ≡ some (front, a, back))
          × (a.source_id ≡ id)
          × (rejoin before s ≡ rejoin front (a ∷ back)))
unfolding find
find_cases id before [] = inl (refl, refl)
find_cases id before (a ∷ s) = elim (Bool-cases (id == a.source_id)) [
  | inl same ↦ inr (before, a, s, ground arith, ground arith, refl)
  | inr other ↦ elim (find_cases id (a ∷ before) s) [
    | inl (e, c) ↦ inl (ground (arith, e), ground (arith, c))
    | inr (front, b, back, e, i, j) ↦ inr (front, b, back, ground (arith, e), i, j)
  ]
]

pub rise-Desc :
    (a : Aggro) (before after : List Aggro)
    → Desc (rejoin before after)
    → Below a after
    → Desc (rise a before after)
unfolding rise
rise-Desc a [] after h b = (b, h)
rise-Desc a (p ∷ before) after h b = elim (Bool-cases (compare_aggro_value a p)) [
  | inl more ↦ rw more (rise-Desc a before (p ∷ after) h (ground arith))
  | inr less ↦ rw less (
      Desc-exchange before after (a ∷ after) p h
        (ground arith, (b, (Desc-after before (p ∷ after) h).1)))
]

pub count-rise :
    (test : Aggro → Bool) (a : Aggro) (before after : List Aggro)
    → count test (rise a before after) ≡ one test a + (count test before + count test after)
unfolding rise
count-rise test a [] after = omega arith
count-rise test a (p ∷ before) after = elim (Bool-cases (compare_aggro_value a p)) [
  | inl more ↦ rw more (omega (arith, count-rise test a before (p ∷ after)))
  | inr less ↦ rw less (omega (arith, count-rejoin test before (p ∷ a ∷ after)))
]

pub length-rise :
    (a : Aggro) (before after : List Aggro)
    → length (rise a before after) ≡ suc (length before + length after)
unfolding rise
length-rise a [] after = omega arith
length-rise a (p ∷ before) after = elim (Bool-cases (compare_aggro_value a p)) [
  | inl more ↦ rw more (omega (arith, length-rise a before (p ∷ after)))
  | inr less ↦ rw less (omega (arith, length-rejoin before (p ∷ a ∷ after)))
]
