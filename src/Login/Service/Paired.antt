-- ===== src/Login/Service/Paired.antt =====
-- The accounts that are logged in, and their tokens, in
-- zerosugar/xr/service/login/login_service.cpp.
use zerosugar.Prelude.{
  ℕ, ◌≡◌, ◌≢◌, refl, sym, ◌∙◌, ◌==◌, true, false, Option, none, some, List, arith, same_text,
  same_text_eq, same_text_self, Bool-cases, Option-cases, inl, inr, ◌⊎◌,
}
use zerosugar.Login.Service.{LoginService, new_service, with_token, remove_auth, granted}

pub record IsPaired (s : LoginService) : Type 0 where
  pub logged :
      (t : List ℕ) (id : ℕ)
      → s.authentication_tokens t ≡ some id
      → s.logged_in_account_ids id ≡ true
  pub single :
      (t u : List ℕ) (id : ℕ)
      → s.authentication_tokens t ≡ some id
      → s.authentication_tokens u ≡ some id
      → t ≡ u
  pub held :
      (id : ℕ)
      → s.logged_in_account_ids id ≡ true
      → (t : List ℕ) × (s.authentication_tokens t ≡ some id)

pub new_service-IsPaired : IsPaired new_service
new_service-IsPaired = record {
  logged = λ t id e. cc;
  single = λ t u id e f. cc;
  held = λ id e. cc;
}

-- What the table of the tokens gives, after a change at one of them.
pub with_token_cases :
    (tokens : List ℕ → Option ℕ) (token t : List ℕ) (change : Option ℕ)
    → ((t ≡ token) × (with_token tokens token change t ≡ change))
      ⊎ ((t ≢ token) × (with_token tokens token change t ≡ tokens t))
with_token_cases tokens token t change = elim (Bool-cases (same_text t token)) [
  | inl same ↦ inl (same_text_eq t token same, rw same refl)
  | inr other ↦ inr ((λ e. apart e other), rw other refl)
]
  where
    apart : t ≡ token → same_text t token ≢ false
    apart e other =
        let yes_ : same_text t token ≡ true = rw e (same_text_self token) in
        ground (arith, other, yes_)

pub granted-IsPaired :
    (s : LoginService) (id : ℕ) (token : List ℕ)
    → IsPaired s
    → s.logged_in_account_ids id ≡ false
    → s.authentication_tokens token ≡ none
    → IsPaired (granted s id token)
granted-IsPaired s id token v out free = record {
  logged = λ t j e. elim (with_token_cases s.authentication_tokens token t (some id)) [
    | inl (_, now) ↦ ground (arith, e, now)
    | inr (_, now) ↦ ground (arith, v.logged t j (sym now ∙ e))
  ];
  single = λ t u j e f. elim (with_token_cases s.authentication_tokens token t (some id)) [
    | inl (a, now) ↦ elim (with_token_cases s.authentication_tokens token u (some id)) [
      | inl (b, then_) ↦ a ∙ sym b
      | inr (_, then_) ↦ ground (arith, e, now, out, v.logged u j (sym then_ ∙ f))
    ]
    | inr (_, now) ↦ elim (with_token_cases s.authentication_tokens token u (some id)) [
      | inl (_, then_) ↦ ground (arith, f, then_, out, v.logged t j (sym now ∙ e))
      | inr (_, then_) ↦ v.single t u j (sym now ∙ e) (sym then_ ∙ f)
    ]
  ];
  held = λ j e. elim (Bool-cases (j == id)) [
    | inl same ↦ (token, rw (same_text_self token) (ground (arith, same)))
    | inr other ↦
        let (t, there) = v.held j (ground (arith, e, other)) in
        elim (with_token_cases s.authentication_tokens token t (some id)) [
          | inl (a, _) ↦
              let gone : s.authentication_tokens t ≡ none = rw a free in ground (arith, gone, there)
          | inr (_, now) ↦ (t, now ∙ there)
        ]
  ];
}

pub remove_auth-IsPaired :
    (s : LoginService) (token : List ℕ) → IsPaired s → IsPaired (remove_auth s token).1
unfolding remove_auth
remove_auth-IsPaired s token v = elim (Option-cases (s.authentication_tokens token)) [
  | inl e ↦ rw (e, remove_auth) v
  | inr (id, e) ↦
      rw (e, remove_auth)
        (record {
          logged = λ t j f. elim (with_token_cases s.authentication_tokens token t none) [
            | inl (_, now) ↦ ground (arith, f, now)
            | inr (ne, now) ↦
                let there : s.authentication_tokens t ≡ some j = sym now ∙ f in
                elim (Bool-cases (j == id)) [
                  | inl same ↦
                      let both : s.authentication_tokens token ≡ some j = ground (arith, e, same) in
                      ground (arith, ne, v.single t token j there both)
                  | inr other ↦ rw other (v.logged t j there)
                ]
          ];
          single = λ t u j f g. elim (with_token_cases s.authentication_tokens token t none) [
            | inl (_, now) ↦ ground (arith, f, now)
            | inr (_, now) ↦ elim (with_token_cases s.authentication_tokens token u none) [
              | inl (_, then_) ↦ ground (arith, g, then_)
              | inr (_, then_) ↦ v.single t u j (sym now ∙ f) (sym then_ ∙ g)
            ]
          ];
          held = λ j f. elim (Bool-cases (j == id)) [
            | inl same ↦ ground (arith, same, f)
            | inr other ↦
                let (t, there) = v.held j (ground (arith, f, other)) in
                elim (with_token_cases s.authentication_tokens token t none) [
                  | inl (a, _) ↦
                      let its : s.authentication_tokens token ≡ some j = rw (sym a) there in
                      ground (arith, its, e, other)
                  | inr (_, now) ↦ (t, now ∙ there)
                ]
          ];
        })
]
