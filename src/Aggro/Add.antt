-- ===== src/Aggro/Add.antt =====
-- `Add` of zerosugar/xr/server/game/instance/ai/aggro/aggro_container.cpp with a positive value.
use zerosugar.Prelude.{
  ℕ, suc, ◌+◌, ◌≤◌, ◌<◌, ◌≡◌, refl, Bool, none, some, List, [], ◌∷◌, arith, length, ◌⊎◌, inl, inr,
  Bool-cases, ◌==◌, All,
}
use zerosugar.Prelude.Int.{pos, ◌≤ℤ◌, +ℤ_parts}
use zerosugar.Aggro.{
  Aggro, max_aggro_manage_count, compare_aggro_value, rejoin, find, rise, insert, pop_back,
  with_more, trimmed, add,
}
use zerosugar.Aggro.Order.{
  Below, Desc, one, count, of_source, IsValid, count-rejoin, length-rejoin, Desc-after, Desc-erase,
  Below-trans, find_cases, rise-Desc, count-rise, length-rise,
}

Below-insert :
    (b a : Aggro) (s : List Aggro) → a.value ≤ℤ b.value → Below b s → Below b (insert a s)
unfolding insert
Below-insert b a [] p q = p
Below-insert b a (c ∷ s) p q = ground arith

insert-Desc : (a : Aggro) (s : List Aggro) → Desc s → Desc (insert a s)
unfolding insert
insert-Desc a [] h = (tt, tt)
insert-Desc a (b ∷ s) h = elim (Bool-cases (compare_aggro_value b a)) [
  | inl more ↦ rw more (Below-insert b a s (ground arith) h.0, insert-Desc a s h.1)
  | inr less ↦ rw less (ground arith, h)
]

count-insert :
    (test : Aggro → Bool) (a : Aggro) (s : List Aggro)
    → count test (insert a s) ≡ one test a + count test s
unfolding insert
count-insert test a [] = refl
count-insert test a (b ∷ s) = elim (Bool-cases (compare_aggro_value b a)) [
  | inl more ↦ rw more (omega (arith, count-insert test a s))
  | inr less ↦ rw less refl
]

length-insert : (a : Aggro) (s : List Aggro) → length (insert a s) ≡ suc (length s)
unfolding insert
length-insert a [] = refl
length-insert a (b ∷ s) = elim (Bool-cases (compare_aggro_value b a)) [
  | inl more ↦ rw more (omega (arith, length-insert a s))
  | inr less ↦ rw less refl
]

-- The last entry is the lowest.
abbrev pub Last : List Aggro → Aggro → Type 0
Last s a =
    ((test : Aggro → Bool) → count test (pop_back s) + one test a ≡ count test s)
    × All (λ b. a.value ≤ℤ b.value) s
    × (suc (length (pop_back s)) ≡ length s)
    × Desc (pop_back s)

pop_back_lem : (a : Aggro) (s : List Aggro) → Desc (a ∷ s) → (b : Aggro) × Last (a ∷ s) b
unfolding pop_back
pop_back_lem a [] h = (a, ((λ test. omega arith), (omega arith, tt), refl, tt))
pop_back_lem a (c ∷ s) h =
    let (b, (counts, (least, lower), len, sorted)) = pop_back_lem c s h.1 in
    (
      b,
      (
        (λ test. omega (arith, counts test)),
        (omega arith, (least, lower)),
        omega arith,
        (Below-pop_back a c s h.0, sorted),
      ),
    )
  where
    Below-pop_back :
        (a c : Aggro) (s : List Aggro) → c.value ≤ℤ a.value → Below a (pop_back (c ∷ s))
    Below-pop_back a c [] p = tt
    Below-pop_back a c (d ∷ s) p = p

-- The entries of the container after the call: `a` is gone and `b` has come.
abbrev pub Replaced : List Aggro → List Aggro → Aggro → Aggro → Type 0
Replaced s s' a b = (test : Aggro → Bool) → count test s' + one test a ≡ count test s + one test b

abbrev pub Inserted : List Aggro → List Aggro → Aggro → Type 0
Inserted s s' b = (test : Aggro → Bool) → count test s' ≡ count test s + one test b

add_found :
    (s : List Aggro) (id n : ℕ) (before : List Aggro) (a : Aggro) (after : List Aggro)
    → find id [] s ≡ some (before, a, after)
    → add s id (pos (suc n)) ≡ rise (with_more a (pos (suc n))) before after
unfolding add
add_found s id n before a after e = ground (arith, e)

add_missing :
    (s : List Aggro) (id n : ℕ)
    → find id [] s ≡ none
    → add s id (pos (suc n)) ≡ insert (record { source_id = id; value = pos (suc n) }) (trimmed s)
unfolding add
add_missing s id n e = ground (arith, e)

module _ (s : List Aggro) (id : ℕ) (n : ℕ) (v : IsValid s) where
  known :
      (before : List Aggro) (a : Aggro) (after : List Aggro)
      → find id [] s ≡ some (before, a, after)
      → a.source_id ≡ id
      → s ≡ rejoin before (a ∷ after)
      → let s' = add s id (pos (suc n)) in
        let b = with_more a (pos (suc n)) in IsValid s' × Replaced s s' a b
  known before a after e same whole =
      let b : Aggro = with_more a (pos (suc n)) in
      let more : a.value ≤ℤ b.value = omega (arith, +ℤ_parts a.value (pos (suc n))) in
      let sorted : Desc (rejoin before (a ∷ after)) = rw whole at v.sorted in
      let below : Below b after =
        Below-trans b a after more (Desc-after before (a ∷ after) sorted).0 in
      let counts : (test : Aggro → Bool)
          → count test s ≡ count test before + (one test a + count test after) =
        λ test. rw whole (count-rejoin test before (a ∷ after)) in
      rw (add_found s id n before a after e) (
        record {
          sorted = rise-Desc b before after (Desc-erase before after a sorted) below;
          bounded = omega (
            arith,
            length-rise b before after,
            rw whole at v.bounded,
            length-rejoin before (a ∷ after),
          );
          distinct = λ i.
              ground (
                arith,
                count-rise (of_source i) b before after,
                counts (of_source i),
                v.distinct i,
              );
        },
        λ test. omega (arith, count-rise test b before after, counts test),
      )

  abbrev newcomer : Aggro
  newcomer = record { source_id = id; value = pos (suc n) }

  insert-IsValid :
      (t : List Aggro)
      → Desc t
      → length t < max_aggro_manage_count
      → ((i : ℕ) → count (of_source i) t ≤ count (of_source i) s)
      → count (of_source id) s ≡ 0
      → IsValid (insert newcomer t)
  insert-IsValid t sorted short fewer absent = record {
    sorted = insert-Desc newcomer t sorted;
    bounded = omega (arith, length-insert newcomer t);
    distinct =
        λ i. ground (arith, count-insert (of_source i) newcomer t, fewer i, v.distinct i, absent);
  }

  with_room :
      find id [] s ≡ none
      → count (of_source id) s ≡ 0
      → length s < max_aggro_manage_count
      → IsValid (add s id (pos (suc n))) × Inserted s (add s id (pos (suc n))) newcomer
  with_room e absent short =
      let same : trimmed s ≡ s = ground arith in
      rw (add_missing s id n e, same)
        (
          insert-IsValid s v.sorted short (λ i. omega arith) absent,
          λ test. omega (arith, count-insert test newcomer s),
        )

  without_room :
      (last : Aggro)
      → find id [] s ≡ none
      → count (of_source id) s ≡ 0
      → length s ≡ max_aggro_manage_count
      → Last s last
      → IsValid (add s id (pos (suc n))) × Replaced s (add s id (pos (suc n))) last newcomer
  without_room last e absent full (counts, _, len, sorted) =
      let cut : trimmed s ≡ pop_back s = ground arith in
      rw (add_missing s id n e, cut)
        (
          insert-IsValid (pop_back s) sorted (omega arith)
              (λ i. omega (arith, counts (of_source i))) absent,
          λ test. omega (arith, count-insert test newcomer (pop_back s), counts test),
        )

lowest_if_full :
    (s : List Aggro) → Desc s → length s ≡ max_aggro_manage_count → (b : Aggro) × Last s b
lowest_if_full [] h e = absurd (omega arith)
lowest_if_full (a ∷ s) h e = pop_back_lem a s h

-- `Add` of a positive value to a well formed container (from the largest value to the smallest, each
-- source once, at most 16 entries) leaves it well formed. A source that is there has its value
-- raised, and all other entries stay. A source that is not there gets an entry; in a full container
-- a lowest entry goes for it, and all others stay.
pub add_positive_cases :
    (s : List Aggro) (id n : ℕ)
    → IsValid s
    → let s' = add s id (pos (suc n)) in
      let new : Aggro = record { source_id = id; value = pos (suc n) } in
      IsValid s'
      × (((a : Aggro) × (a.source_id ≡ id) × Replaced s s' a (with_more a (pos (suc n))))
          ⊎ ((count (of_source id) s ≡ 0)
              × (((length s < max_aggro_manage_count) × Inserted s s' new)
                  ⊎ ((last : Aggro) × (length s ≡ max_aggro_manage_count)
                      × All (λ b. last.value ≤ℤ b.value) s
                      × Replaced s s' last new))))
add_positive_cases s id n v = elim (find_cases id [] s) [
  | inr (before, a, after, e, same, whole) ↦
      let (valid, counts) = known s id n v before a after e same whole in
      (valid, inl (a, same, counts))
  | inl (e, absent) ↦ elim (Bool-cases (length s == max_aggro_manage_count)) [
    | inl full ↦
        let (last, lowest) = lowest_if_full s v.sorted (ground arith) in
        let (valid, counts) = without_room s id n v last e absent (ground arith) lowest in
        (valid, inr (absent, inr (last, ground arith, lowest.1, counts)))
    | inr room ↦
        let short : length s < max_aggro_manage_count = ground (arith, v.bounded) in
        let (valid, counts) = with_room s id n v e absent short in
        (valid, inr (absent, inl (short, counts)))
  ]
]
