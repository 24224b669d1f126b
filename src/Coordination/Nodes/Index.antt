-- ===== src/Coordination/Nodes/Index.antt =====
-- The servers of zerosugar/xr/service/coordination/node/node_container.cpp, in the map, in the vector and
-- in the index by address.
use zerosugar.Prelude.{
  ℕ, ◌+◌, ◌-◌, ◌≡◌, ◌≢◌, refl, ◌==◌, true, false, ◌&&◌, Option, none, some, List, [], ◌∷◌,
  if◌then◌else◌, arith, count, count-append, count-erase, Option-cases, inl, inr, ◌⊎◌,
}
use zerosugar.Coordination.Nodes.{
  GameServer, NodeContainer, key_of, erase_entry, add_server, remove_server,
}

-- How often an entry stands in the index.
abbrev pub count_entry : ℕ → ℕ → List (ℕ × ℕ) → ℕ
count_entry key id [] = 0
count_entry key id ((k, j) ∷ rest) =
    (if (k == key) && (j == id) then 1 else 0) + count_entry key id rest

count_entry-erase_entry :
    (key id k j : ℕ) (entries : List (ℕ × ℕ))
    → count_entry k j (erase_entry key id entries)
      ≡ (if (k == key) && (j == id) then count_entry k j entries - 1 else count_entry k j entries)
unfolding erase_entry
count_entry-erase_entry key id k j [] = ground arith
count_entry-erase_entry key id k j ((k', j') ∷ rest) =
    ground (arith, count_entry-erase_entry key id k j rest)

-- How often the server of an id, if there is one, is to stand in the vector, and under a key.
abbrev pub times : Option GameServer → ℕ
times none = 0
times (some g) = 1

abbrev pub times_under : ℕ → Option GameServer → ℕ
times_under key none = 0
times_under key (some g) = if key == key_of g then 1 else 0

module _ {Instance : Type 0} where
  -- Every server of the map carries its id, is once in the vector, and once in the index, under the key of
  -- its address; and there is nothing else in either.
  pub record IsIndexed (s : NodeContainer Instance) : Type 0 where
    pub named : (id : ℕ) (g : GameServer) → s.servers id ≡ some g → g.id ≡ id
    pub listed : (id : ℕ) → count id s.servers_for_iteration ≡ times (s.servers id)
    pub indexed :
        (key id : ℕ) → count_entry key id s.server_address_index ≡ times_under key (s.servers id)

  -- `Add` of a server whose id is not there answers true and adds the server alone; of one that is there,
  -- it answers false and changes nothing. The map, the vector and the index agree as before.
  pub add_server_keeps :
      (s : NodeContainer Instance) (g : GameServer)
      → IsIndexed s
      → let (done, s') = add_server s g in
        IsIndexed s'
        × ((j : ℕ) → j ≢ g.id → s'.servers j ≡ s.servers j)
        × (((s.servers g.id ≡ none) × (done ≡ true) × (s'.servers g.id ≡ some g))
            ⊎ ((old : GameServer) × (s.servers g.id ≡ some old) × (done ≡ false) × (s' ≡ s)))
  unfolding add_server
  add_server_keeps s g v = elim (Option-cases (s.servers g.id)) [
    | inr (old, e) ↦ rw (e, add_server) (v, (λ j ne. refl), inr (old, refl, refl, refl))
    | inl e ↦
        rw (e, add_server)
          (
            record {
              named = λ id h there. ground (arith, v.named id h, there);
              listed = λ id.
                  ground
                    (arith, e, v.listed id, count-append id s.servers_for_iteration (g.id ∷ []));
              indexed = λ key id. ground (arith, e, v.indexed key id);
            },
            (λ j ne. ground arith),
            inl (refl, refl, ground arith),
          )
  ]

  -- `Remove` of a server that is there answers true and takes away this server alone; of one that is not, it
  -- answers false and changes nothing. The map, the vector and the index agree as before.
  pub remove_server_keeps :
      (s : NodeContainer Instance) (id : ℕ)
      → IsIndexed s
      → let (done, s') = remove_server s id in
        IsIndexed s'
        × ((j : ℕ) → j ≢ id → s'.servers j ≡ s.servers j)
        × (((g : GameServer) × (s.servers id ≡ some g) × (done ≡ true) × (s'.servers id ≡ none))
            ⊎ ((s.servers id ≡ none) × (done ≡ false) × (s' ≡ s)))
  unfolding remove_server
  remove_server_keeps s id v = elim (Option-cases (s.servers id)) [
    | inl e ↦ rw (e, remove_server) (v, (λ j ne. refl), inr (refl, refl, refl))
    | inr (g, e) ↦
        rw (e, remove_server)
          (
            record {
              named = λ j h there. ground (arith, v.named j h, there);
              listed = λ j. ground (arith, e, v.listed j, count-erase id j s.servers_for_iteration);
              indexed = λ key j. ground (
                arith,
                e,
                v.indexed key j,
                count_entry-erase_entry (key_of g) id key j s.server_address_index,
              );
            },
            (λ j ne. ground arith),
            inl (g, refl, refl, ground arith),
          )
  ]
