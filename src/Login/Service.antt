-- ===== src/Login/Service.antt =====
-- The login service: zerosugar/xr/service/login/login_service.cpp, on its strand. Each operation goes on
-- alone after the database has answered; the answer is an argument. `encode` is the hash of OpenSSL
-- in hexadecimal, and `token_of` the text of an account and a random number, hashed; the numbers that
-- the generator gives are a list.
pub mod Paired
pub mod Grants
use zerosugar.Prelude.{
  ℕ, ◌≡◌, ◌==◌, Bool, true, false, not, ◌||◌, Option, none, some, List, [], ◌∷◌, if◌then◌else◌,
  same_text,
}

-- `DTOAccount`.
pub record Account : Type 0 where
  pub account_id : ℕ
  pub password : List ℕ
  pub banned : Bool
  pub deleted : Bool

pub record LoginService : Type 0 where
  pub logged_in_account_ids : ℕ → Bool
  pub authentication_tokens : List ℕ → Option ℕ

abbrev pub new_service : LoginService
new_service = record { logged_in_account_ids = λ id. false; authentication_tokens = λ token. none }

abbrev pub with_token : (List ℕ → Option ℕ) → List ℕ → Option ℕ → List ℕ → Option ℕ
with_token tokens token id other = if same_text other token then id else tokens other

abbrev pub with_account : (ℕ → Bool) → ℕ → Bool → ℕ → Bool
with_account ids id here other = if other == id then here else ids other

-- `AuthenticateAsync`: the account, or an error.
abbrev pub authenticate : LoginService → List ℕ → Option ℕ
authenticate s token = s.authentication_tokens token

-- `RemoveAuthAsync`.
unfoldable pub remove_auth : LoginService → List ℕ → Bool × LoginService
remove_auth s token = elim (s.authentication_tokens token) [
  | none ↦ (false, s)
  | some id ↦ (
    true,
    record {
      logged_in_account_ids = with_account s.logged_in_account_ids id false;
      authentication_tokens = with_token s.authentication_tokens token none;
    },
  )
]

-- The account is logged in, with the token.
abbrev pub granted : LoginService → ℕ → List ℕ → LoginService
granted s id token = record {
  logged_in_account_ids = with_account s.logged_in_account_ids id true;
  authentication_tokens = with_token s.authentication_tokens token (some id);
}

module _ (encode : List ℕ → List ℕ) (token_of : List ℕ → ℕ → List ℕ) where
  -- The loop that draws a token; `none` where the numbers run out.
  unfoldable pub draw : LoginService → List ℕ → List ℕ → Option (List ℕ)
  draw s account [] = none
  draw s account (n ∷ ns) =
      let later : Option (List ℕ) = draw s account ns in
      elim (s.authentication_tokens (token_of account n)) [
        | none ↦ some (token_of account n)
        | some id ↦ later
      ]

  -- Whether the account may log in.
  abbrev pub admits : LoginService → Account → List ℕ → Bool
  admits s dto password =
      if dto.banned || dto.deleted
      then false
      else if same_text (encode password) dto.password
      then not (s.logged_in_account_ids dto.account_id)
      else false

  -- `LoginAsync` from the answer of the database on: the service and the token, if there is one.
  unfoldable pub login :
      LoginService
      → List ℕ
      → List ℕ
      → Option Account
      → List ℕ
      → Option (LoginService × Option (List ℕ))
  unfolding draw
  login s account password none ns = some (s, none)
  login s account password (some dto) ns =
      let answer : Option (LoginService × Option (List ℕ)) = elim (draw s account ns) [
        | none ↦ none
        | some token ↦ some (granted s dto.account_id token, some token)
      ] in
      if admits s dto password then answer else some (s, none)

  -- The states of the service.
  pub data Reach : LoginService → Type 0 where
    begins : Reach new_service
    logs_in :
        {s t : LoginService} (account password : List ℕ) (answer : Option Account) (ns : List ℕ)
        (token : Option (List ℕ))
        → Reach s
        → login s account password answer ns ≡ some (t, token)
        → Reach t
    removes : {s : LoginService} (token : List ℕ) → Reach s → Reach (remove_auth s token).1
