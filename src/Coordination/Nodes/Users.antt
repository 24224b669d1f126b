-- ===== src/Coordination/Nodes/Users.antt =====
-- `FindGameUser` of zerosugar/xr/service/coordination/node/node_container.cpp after any calls.
use zerosugar.Prelude.{
  ℕ, ◌≡◌, ◌≢◌, refl, sym, none, some, List, [], ◌∷◌, arith, ◌⊎◌, Option-cases, inl, inr,
}
use zerosugar.Coordination.Nodes.{
  GameUser, NodeContainer, add_server, remove_server, add_instance, remove_instance, add_user,
  remove_user, find_game_user,
}
use zerosugar.Coordination.Nodes.Tokens.{
  IsKnown, find_game_user_cases, add_user_keeps, remove_user_keeps,
}
use zerosugar.Coordination.Nodes.History.{
  Call, adds_server, removes_server, adds_instance, removes_instance, adds_user, removes_user,
  new_container, call, call_all,
}

module _ {Instance : Type 0} where
  -- A user comes with a token that no other user has.
  abbrev pub IsFresh : NodeContainer Instance → Call Instance → Type 0
  IsFresh s (adds_user u) = s.user_auth_token_index u.auth_token ≡ none
  IsFresh s (adds_server g) = Unit
  IsFresh s (removes_server id) = Unit
  IsFresh s (adds_instance id instance_) = Unit
  IsFresh s (removes_instance id) = Unit
  IsFresh s (removes_user id) = Unit

  abbrev pub AllFresh : NodeContainer Instance → List (Call Instance) → Type 0
  AllFresh s [] = Unit
  AllFresh s (c ∷ cs) = IsFresh s c × AllFresh (call s c) cs

  elsewhere-IsKnown :
      (s t : NodeContainer Instance)
      → t.users ≡ s.users
      → t.user_auth_token_index ≡ s.user_auth_token_index
      → IsKnown s
      → IsKnown t
  elsewhere-IsKnown s t a b v = record {
    named = λ id u e. v.named id u (rw (sym a) e);
    found = λ token id e. rw a (v.found token id (rw (sym b) e));
    listed = λ id u e. rw b (v.listed id u (rw (sym a) e));
  }

  users_rest :
      (s : NodeContainer Instance) (c : Call Instance)
      → ((u : GameUser) → c ≢ adds_user u)
      → ((id : ℕ) → c ≢ removes_user id)
      → ((call s c).users ≡ s.users) × ((call s c).user_auth_token_index ≡ s.user_auth_token_index)
  unfolding add_server remove_server add_instance remove_instance
  users_rest s (adds_server g) a b = elim (Option-cases (s.servers g.id)) [
    | inl e ↦ rw (e, add_server, call) (refl, refl)
    | inr (old, e) ↦ rw (e, add_server, call) (refl, refl)
  ]
  users_rest s (removes_server id) a b = elim (Option-cases (s.servers id)) [
    | inl e ↦ rw (e, remove_server, call) (refl, refl)
    | inr (old, e) ↦ rw (e, remove_server, call) (refl, refl)
  ]
  users_rest s (adds_instance id instance_) a b = elim (Option-cases (s.instances id)) [
    | inl e ↦ rw (e, add_instance, call) (refl, refl)
    | inr (old, e) ↦ rw (e, add_instance, call) (refl, refl)
  ]
  users_rest s (removes_instance id) a b = elim (Option-cases (s.instances id)) [
    | inl e ↦ rw (e, remove_instance, call) (refl, refl)
    | inr (old, e) ↦ rw (e, remove_instance, call) (refl, refl)
  ]
  users_rest s (adds_user u) a b = ground (arith, a u refl)
  users_rest s (removes_user id) a b = ground (arith, b id refl)

  add_user-IsKnown :
      (s : NodeContainer Instance) (u : GameUser)
      → s.user_auth_token_index u.auth_token ≡ none
      → IsKnown s
      → IsKnown (add_user s u).1
  unfolding add_user
  add_user-IsKnown s u new v = elim (Option-cases (s.users u.id)) [
    | inl e ↦ (add_user_keeps s u v new e).1
    | inr (old, e) ↦ rw (e, add_user) v
  ]

  remove_user-IsKnown :
      (s : NodeContainer Instance) (id : ℕ) → IsKnown s → IsKnown (remove_user s id).1
  unfolding remove_user
  remove_user-IsKnown s id v = elim (Option-cases (s.users id)) [
    | inl e ↦ rw (e, remove_user) v
    | inr (u, e) ↦ (remove_user_keeps s id u v e).1
  ]

  rest-IsKnown :
      (s : NodeContainer Instance) (c : Call Instance)
      → ((u : GameUser) → c ≢ adds_user u)
      → ((id : ℕ) → c ≢ removes_user id)
      → IsKnown s
      → IsKnown (call s c)
  rest-IsKnown s c a b v =
      let (users, tokens) = users_rest s c a b in elsewhere-IsKnown s (call s c) users tokens v

  call-IsKnown :
      (s : NodeContainer Instance) (c : Call Instance)
      → IsFresh s c
      → IsKnown s
      → IsKnown (call s c)
  call-IsKnown s (adds_user u) new v = add_user-IsKnown s u new v
  call-IsKnown s (removes_user id) new v = remove_user-IsKnown s id v
  call-IsKnown s (adds_server g) new v = rest-IsKnown s (adds_server g) (λ u e. cc) (λ i e. cc) v
  call-IsKnown s (removes_server id) new v =
      rest-IsKnown s (removes_server id) (λ u e. cc) (λ i e. cc) v
  call-IsKnown s (adds_instance id instance_) new v =
      rest-IsKnown s (adds_instance id instance_) (λ u e. cc) (λ i e. cc) v
  call-IsKnown s (removes_instance id) new v =
      rest-IsKnown s (removes_instance id) (λ u e. cc) (λ i e. cc) v

  call_all-IsKnown :
      (s : NodeContainer Instance) (cs : List (Call Instance))
      → AllFresh s cs
      → IsKnown s
      → IsKnown (call_all s cs)
  call_all-IsKnown s [] fresh v = v
  call_all-IsKnown s (c ∷ cs) fresh v =
      call_all-IsKnown (call s c) cs fresh.1 (call-IsKnown s c fresh.0 v)

  new_container-IsKnown : IsKnown (new_container {Instance = Instance})
  new_container-IsKnown = record {
    named = λ id u e. cc;
    found = λ token id e. cc;
    listed = λ id u e. cc;
  }

  -- After any calls on a new container in which every user comes with a token that no user of the
  -- container has, `FindGameUser` gives the user of the map that has the token, and nobody where there
  -- is none.
  pub tokens_answer :
      (cs : List (Call Instance)) (token : List ℕ)
      → AllFresh new_container cs
      → let s = call_all new_container cs in
        ((u : GameUser) × (find_game_user s token ≡ some u)
          × (s.users u.id ≡ some u)
          × (u.auth_token ≡ token))
        ⊎ ((find_game_user s token ≡ none)
            × ((id : ℕ) (u : GameUser) → s.users id ≡ some u → u.auth_token ≢ token))
  tokens_answer cs token fresh =
      find_game_user_cases (call_all new_container cs) token
        (call_all-IsKnown new_container cs fresh new_container-IsKnown)
