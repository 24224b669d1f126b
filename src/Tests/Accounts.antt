-- ===== src/Tests/Accounts.antt =====
-- The login service at concrete inputs; the hash is the text itself.
use zerosugar.Prelude.{ℕ, ◌≡◌, ◌≢◌, ◌⊎◌, refl, true, false, none, some, List, [], ◌∷◌}
use zerosugar.Login.Service.{
  Account, LoginService, new_service, granted, authenticate, login, draw, begins, logs_in,
}
use zerosugar.Login.Service.Grants.{accounts_paired, login_grants}

abbrev encode : List ℕ → List ℕ
encode text = text

abbrev token_of : List ℕ → ℕ → List ℕ
token_of account n = n ∷ account

abbrev stored : Account
stored = record { account_id = 7; password = 1 ∷ 2 ∷ []; banned = false; deleted = false }

abbrev after : LoginService
after = granted new_service 7 (5 ∷ 9 ∷ [])

logs :
    login encode token_of new_service (9 ∷ []) (1 ∷ 2 ∷ []) (some stored) (5 ∷ [])
    ≡ some (after, some (5 ∷ 9 ∷ []))
unfolding login draw
logs = refl

test_again :
    login encode token_of after (9 ∷ []) (1 ∷ 2 ∷ []) (some stored) (6 ∷ []) ≡ some (after, none)
unfolding login draw
test_again = refl

accounts_paired_example :
    ((after.logged_in_account_ids 7 ≡ true)
      × ((t : List ℕ) × (authenticate after t ≡ some 7)
          × ((u : List ℕ) → authenticate after u ≡ some 7 → u ≡ t)))
    ⊎ ((after.logged_in_account_ids 7 ≡ false) × ((t : List ℕ) → authenticate after t ≢ some 7))
accounts_paired_example =
    accounts_paired encode token_of 7
      (logs_in (9 ∷ []) (1 ∷ 2 ∷ []) (some stored) (5 ∷ []) (some (5 ∷ 9 ∷ [])) begins logs)

login_grants_example :
    (dto : Account) × (some stored ≡ some dto)
    × (dto.banned ≡ false)
    × (dto.deleted ≡ false)
    × (encode (1 ∷ 2 ∷ []) ≡ dto.password)
    × (new_service.logged_in_account_ids dto.account_id ≡ false)
    × (authenticate new_service (5 ∷ 9 ∷ []) ≡ none)
    × (authenticate after (5 ∷ 9 ∷ []) ≡ some dto.account_id)
    × ((u : List ℕ) → u ≢ 5 ∷ 9 ∷ [] → authenticate after u ≡ authenticate new_service u)
login_grants_example =
    login_grants encode token_of new_service after (9 ∷ []) (1 ∷ 2 ∷ []) (5 ∷ []) (5 ∷ 9 ∷ [])
      (some stored) logs
