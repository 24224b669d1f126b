-- ===== src/Coordination/Nodes/Tokens.antt =====
-- The users of zerosugar/xr/service/coordination/node/node_container.cpp and their tokens.
use zerosugar.Prelude.{
  same_text, same_text_eq, same_text_self, ℕ, ◌≡◌, ◌≢◌, refl, sym, subst, ap, ◌∙◌, true, false,
  none, some, List, arith, Option-cases, Bool-cases, inl, inr, ◌⊎◌, ==_self, ◌==◌,
}
use zerosugar.Coordination.Nodes.{
  GameUser, NodeContainer, update, update_text, with_token, add_user, remove_user, find_game_user,
}

module _ {Instance : Type 0} where
  -- The index of the tokens and the map of the users say the same.
  pub record IsKnown (s : NodeContainer Instance) : Type 0 where
    pub named : (id : ℕ) (u : GameUser) → s.users id ≡ some u → u.id ≡ id
    pub found :
        (token : List ℕ) (id : ℕ)
        → s.user_auth_token_index token ≡ some id
        → (u : GameUser) × (s.users id ≡ some u) × (u.auth_token ≡ token)
    pub listed :
        (id : ℕ) (u : GameUser)
        → s.users id ≡ some u
        → s.user_auth_token_index u.auth_token ≡ some id

  -- Where the index and the map agree, `FindGameUser` gives the user of the map that has the token, and
  -- nobody where there is none.
  pub find_game_user_cases :
      (s : NodeContainer Instance) (token : List ℕ)
      → IsKnown s
      → ((u : GameUser) × (find_game_user s token ≡ some u)
          × (s.users u.id ≡ some u)
          × (u.auth_token ≡ token))
        ⊎ ((find_game_user s token ≡ none)
            × ((id : ℕ) (u : GameUser) → s.users id ≡ some u → u.auth_token ≢ token))
  find_game_user_cases s token v = elim (Option-cases (s.user_auth_token_index token)) [
    | inl e ↦ inr (
      rw (e, find_game_user) refl,
      λ id u there same. ground (arith, v.listed id u there, same, e),
    )
    | inr (id, e) ↦
        let (u, there, same) = v.found token id e in
        inl (
          u,
          rw (e, there, find_game_user) refl,
          subst (λ i. s.users i ≡ some u) (sym (v.named id u there)) there,
          same,
        )
  ]

  with_new : NodeContainer Instance → GameUser → NodeContainer Instance
  with_new s u = record s {
    users = update s.users u.id (some u);
    user_auth_token_index = update_text s.user_auth_token_index u.auth_token (some u.id);
  }

  added-IsKnown :
      (s : NodeContainer Instance) (u : GameUser)
      → IsKnown s
      → s.user_auth_token_index u.auth_token ≡ none
      → s.users u.id ≡ none
      → IsKnown (with_new s u)
  unfolding with_new
  added-IsKnown s u v new absent = record {
    named = λ id w there. ground (arith, v.named id w, there);
    found = λ token id h. elim (Bool-cases (same_text token u.auth_token)) [
      | inl same ↦
          let at : u.id ≡ id = ground (arith, same, h) in
          (u, ground (arith, at), sym (same_text_eq token u.auth_token same))
      | inr other ↦
          let (w, there, e) = v.found token id (ground (arith, other, h)) in
          (w, ground (arith, there, absent), e)
    ];
    listed = λ id w there. elim (Bool-cases (id == u.id)) [
      | inl same ↦
          let e : u ≡ w = ground (arith, same, there) in
          subst
            (λ x.
              update_text s.user_auth_token_index u.auth_token (some u.id) x.auth_token ≡ some id)
            e (rw (same_text_self u.auth_token) (ground (arith, same)))
      | inr other ↦
          let before : s.users id ≡ some w = ground (arith, other, there) in
          let known : s.user_auth_token_index w.auth_token ≡ some id = v.listed id w before in
          elim (Bool-cases (same_text w.auth_token u.auth_token)) [
            | inl same ↦
                let e : w.auth_token ≡ u.auth_token = same_text_eq w.auth_token u.auth_token same in
                let gone : s.user_auth_token_index w.auth_token ≡ none = rw e new in
                ground (arith, known, gone)
            | inr apart ↦ rw apart known
          ]
    ];
  }

  added_lem :
      (s : NodeContainer Instance) (u : GameUser)
      → s.user_auth_token_index u.auth_token ≡ none
      → s.users u.id ≡ none
      → add_user s u ≡ (true, with_new s u)
  unfolding add_user with_new
  added_lem s u new absent = rw (absent, new, with_token, add_user) refl

  -- `Add` of a user whose id and token are not there answers true; the user is found by the token
  -- from then on, and the index and the map agree as before.
  pub add_user_keeps :
      (s : NodeContainer Instance) (u : GameUser)
      → IsKnown s
      → s.user_auth_token_index u.auth_token ≡ none
      → s.users u.id ≡ none
      → let (done, s') = add_user s u in
        (done ≡ true) × IsKnown s' × (find_game_user s' u.auth_token ≡ some u)
  unfolding with_new
  add_user_keeps s u v new absent = rw (added_lem s u new absent) (
    refl,
    added-IsKnown s u v new absent,
    rw (same_text_self u.auth_token, ==_self u.id, find_game_user) refl,
  )

  -- `Remove` of a user that is there answers true; nobody is found by the token from then on, and the index
  -- and the map agree as before.
  pub remove_user_keeps :
      (s : NodeContainer Instance) (id : ℕ) (u : GameUser)
      → IsKnown s
      → s.users id ≡ some u
      → let (done, s') = remove_user s id in
        (done ≡ true) × IsKnown s' × (find_game_user s' u.auth_token ≡ none)
  unfolding remove_user
  remove_user_keeps s id u v e =
      rw (e, remove_user)
        (
          refl,
          record {
            named = λ j w there. ground (arith, v.named j w, there);
            found = λ token j h. elim (Bool-cases (same_text token u.auth_token)) [
              | inl same ↦ ground (arith, same, h)
              | inr other ↦
                  let (w, there, t) = v.found token j (ground (arith, other, h)) in
                  let apart : (j == id) ≡ false = elim (Bool-cases (j == id)) [
                    | inr apart ↦ apart
                    | inl same ↦
                        let wu : w ≡ u = ground (arith, same, there, e) in
                        let tt : token ≡ u.auth_token = sym t ∙ ap (λ x. x.auth_token) wu in
                        let yes_ : same_text token u.auth_token ≡ true =
                          rw tt (same_text_self u.auth_token) in
                        ground (arith, other, yes_)
                  ] in
                  (w, ground (arith, there, apart), t)
            ];
            listed = λ j w there.
                let before : s.users j ≡ some w = ground (arith, there) in
                elim (Bool-cases (same_text w.auth_token u.auth_token)) [
                  | inr other ↦ rw other (v.listed j w before)
                  | inl same ↦
                      let tt : w.auth_token ≡ u.auth_token =
                        same_text_eq w.auth_token u.auth_token same in
                      let its : s.user_auth_token_index u.auth_token ≡ some j =
                        rw (sym tt) (v.listed j w before) in
                      ground (arith, its, v.listed id u e, there)
                ];
          },
          rw (same_text_self u.auth_token, find_game_user) refl,
        )
