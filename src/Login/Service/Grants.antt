-- ===== src/Login/Service/Grants.antt =====
-- `LoginAsync` and `RemoveAuthAsync` in any order, in
-- zerosugar/xr/service/login/login_service.cpp.
use zerosugar.Prelude.{
  ℕ, ◌≡◌, ◌≢◌, refl, subst, ◌∙◌, true, false, Option, none, some, List, [], ◌∷◌, arith,
  same_text_eq, same_text_self, Bool-cases, Option-cases, inl, inr, ◌⊎◌,
}
use zerosugar.Login.Service.{
  Account, LoginService, authenticate, draw, admits, granted, login, Reach, begins, logs_in,
  removes,
}
use zerosugar.Login.Service.Paired.{
  IsPaired, new_service-IsPaired, with_token_cases, granted-IsPaired, remove_auth-IsPaired,
}

granted_at :
    (s : LoginService) (id : ℕ) (token : List ℕ) → authenticate (granted s id token) token ≡ some id
granted_at s id token = rw (same_text_self token) refl

granted_other :
    (s : LoginService) (id : ℕ) (token u : List ℕ)
    → u ≢ token
    → authenticate (granted s id token) u ≡ authenticate s u
granted_other s id token u ne = elim (with_token_cases s.authentication_tokens token u (some id)) [
  | inl (a, _) ↦ absurd (ne a)
  | inr (_, now) ↦ now
]

module _ (encode : List ℕ → List ℕ) (token_of : List ℕ → ℕ → List ℕ) where
  draw-free :
      (s : LoginService) (account ns token : List ℕ)
      → draw encode token_of s account ns ≡ some token
      → s.authentication_tokens token ≡ none
  unfolding draw
  draw-free s account [] token e = cc
  draw-free s account (n ∷ ns) token e =
      elim (Option-cases (s.authentication_tokens (token_of account n))) [
        | inl free ↦
            let same : token_of account n ≡ token = ground (arith, e, free) in
            subst (λ x. s.authentication_tokens x ≡ none) same free
        | inr (id, taken) ↦ draw-free s account ns token (ground (arith, e, taken))
      ]

  admits_lem :
      (s : LoginService) (dto : Account) (password : List ℕ)
      → admits encode token_of s dto password ≡ true
      → (dto.banned ≡ false)
        × (dto.deleted ≡ false)
        × (encode password ≡ dto.password)
        × (s.logged_in_account_ids dto.account_id ≡ false)
  admits_lem s dto password e = (
    ground (arith, e),
    ground (arith, e),
    same_text_eq (encode password) dto.password (ground (arith, e)),
    ground (arith, e),
  )

  -- What `login` answers, where it answers.
  abbrev Answers : LoginService → List ℕ → Option Account → LoginService → Option (List ℕ) → Type 0
  Answers s password answer t token =
      ((t ≡ s) × (token ≡ none))
      ⊎ ((dto : Account) × (fresh : List ℕ) × (answer ≡ some dto)
          × (admits encode token_of s dto password ≡ true)
          × (s.authentication_tokens fresh ≡ none)
          × (t ≡ granted s dto.account_id fresh)
          × (token ≡ some fresh))

  pair_eq :
      (s t : LoginService) (a b : Option (List ℕ))
      → ◌≡◌ {A = Option (LoginService × Option (List ℕ))} (some (s, a)) (some (t, b))
      → (t ≡ s) × (b ≡ a)
  pair_eq s t a b e = (cc, cc)

  login-Answers :
      (s t : LoginService) (account password ns : List ℕ) (answer : Option Account)
      (token : Option (List ℕ))
      → login encode token_of s account password answer ns ≡ some (t, token)
      → Answers s password answer t token
  unfolding login
  login-Answers s t account password ns none token = λ e. inl (pair_eq s t none token e)
  login-Answers s t account password ns (some dto) token =
      elim (Bool-cases (admits encode token_of s dto password)) [
        | inr no_ ↦ rw (no_, login) (λ e. inl (pair_eq s t none token e))
        | inl yes_ ↦ elim (Option-cases (draw encode token_of s account ns)) [
          | inl out ↦ rw (yes_, out, login) (λ e. cc)
          | inr (fresh, drawn) ↦
              rw (yes_, drawn, login)
                (λ e.
                  let (same, its) =
                    pair_eq (granted s dto.account_id fresh) t (some fresh) token e in
                  inr (dto, fresh, refl, yes_, draw-free s account ns fresh drawn, same, its))
        ]
      ]

  Reach-IsPaired : {s : LoginService} → Reach encode token_of s → IsPaired s
  Reach-IsPaired begins = new_service-IsPaired
  Reach-IsPaired (removes {s} token before) = remove_auth-IsPaired s token (Reach-IsPaired before)
  Reach-IsPaired (logs_in {s} {t} account password answer ns token before e) =
      let v : IsPaired s = Reach-IsPaired before in
      elim (login-Answers s t account password ns answer token e) [
        | inl (same, _) ↦ rw same v
        | inr (dto, fresh, _, yes_, free, same, _) ↦
            let (_, _, _, out) = admits_lem s dto password yes_ in
            rw same (granted-IsPaired s dto.account_id fresh v out free)
      ]

  -- In every state that the service reaches, by logins and removals in any order, an account that is
  -- logged in has exactly one token that `AuthenticateAsync` takes for it, and one that is not has none.
  pub accounts_paired :
      {s : LoginService} (id : ℕ)
      → Reach encode token_of s
      → ((s.logged_in_account_ids id ≡ true)
          × ((t : List ℕ) × (authenticate s t ≡ some id)
              × ((u : List ℕ) → authenticate s u ≡ some id → u ≡ t)))
        ⊎ ((s.logged_in_account_ids id ≡ false) × ((t : List ℕ) → authenticate s t ≢ some id))
  accounts_paired {s} id reach =
      let v : IsPaired s = Reach-IsPaired reach in
      elim (Bool-cases (s.logged_in_account_ids id)) [
        | inl here ↦ let (t, e) = v.held id here in inl (here, (t, e, λ u f. v.single u t id f e))
        | inr out ↦ inr (out, λ t e. ground (arith, out, v.logged t id e))
      ]

  -- A login that gives a token is one of an account that the database has, that is neither banned nor
  -- deleted nor logged in, with its password; the token was no other account's, and from then on it is
  -- this account's, and every other token is whose it was.
  pub login_grants :
      (s t : LoginService) (account password ns token : List ℕ) (answer : Option Account)
      → login encode token_of s account password answer ns ≡ some (t, some token)
      → (dto : Account) × (answer ≡ some dto)
        × (dto.banned ≡ false)
        × (dto.deleted ≡ false)
        × (encode password ≡ dto.password)
        × (s.logged_in_account_ids dto.account_id ≡ false)
        × (authenticate s token ≡ none)
        × (authenticate t token ≡ some dto.account_id)
        × ((u : List ℕ) → u ≢ token → authenticate t u ≡ authenticate s u)
  login_grants s t account password ns token answer e =
      elim (login-Answers s t account password ns answer (some token) e) [
        | inl (_, no_) ↦ cc
        | inr (dto, fresh, has, yes_, free, same, its) ↦
            let (a, b, c, d) = admits_lem s dto password yes_ in
            let at : fresh ≡ token = cc in
            (
              dto,
              has,
              a,
              b,
              c,
              d,
              subst (λ x. authenticate s x ≡ none) at free,
              rw same (
                  subst (λ x. authenticate (granted s dto.account_id fresh) x ≡ some dto.account_id)
                    at (granted_at s dto.account_id fresh)),
              (λ u ne. rw same (granted_other s dto.account_id fresh u (λ a. ne (a ∙ at)))),
            )
      ]
