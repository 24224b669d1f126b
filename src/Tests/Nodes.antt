-- ===== src/Tests/Nodes.antt =====
-- The node container at concrete inputs.
use zerosugar.Prelude.{ℕ, ◌≡◌, ◌≢◌, refl, true, false, none, some, List, [], ◌∷◌, ◌⊎◌, erase}
use zerosugar.Coordination.Nodes.{
  GameServer, GameUser, add_server, remove_server, add_user, find_game_user, has_server_address,
  any_address, erase_entry,
}
use zerosugar.Coordination.Nodes.History.{
  Call, adds_server, removes_server, adds_user, call_all, new_container, addresses_answer,
}
use zerosugar.Coordination.Nodes.Users.{tokens_answer}

-- The texts "12" and "21" have one sum.
abbrev first : GameServer
first = record { id = 1; ip = 49 ∷ 50 ∷ []; port = 80 }

abbrev second : GameServer
second = record { id = 2; ip = 50 ∷ 49 ∷ []; port = 80 }

abbrev calls : List (Call ℕ)
calls = adds_server first ∷ adds_server second ∷ removes_server 1 ∷ []

test_gone : has_server_address (call_all new_container calls) first.ip 80 ≡ some false
unfolding has_server_address any_address add_server remove_server erase_entry erase
test_gone = refl

test_there : has_server_address (call_all new_container calls) second.ip 80 ≡ some true
unfolding has_server_address any_address add_server remove_server erase_entry erase
test_there = refl

addresses_answer_example :
    let s = call_all new_container calls in
    ((has_server_address s second.ip 80 ≡ some true)
      × ((id : ℕ) × (g : GameServer) × (s.servers id ≡ some g)
          × (g.ip ≡ second.ip)
          × (g.port ≡ 80)))
    ⊎ ((has_server_address s second.ip 80 ≡ some false)
        × ((id : ℕ) (g : GameServer) → s.servers id ≡ some g → g.ip ≡ second.ip → g.port ≢ 80))
addresses_answer_example = addresses_answer calls second.ip 80

abbrev player : GameUser
player = record { id = 5; auth_token = 7 ∷ 8 ∷ [] }

abbrev joins : List (Call ℕ)
joins = adds_user player ∷ adds_server first ∷ []

tokens_answer_example :
    let s = call_all new_container joins in
    ((u : GameUser) × (find_game_user s player.auth_token ≡ some u)
      × (s.users u.id ≡ some u)
      × (u.auth_token ≡ player.auth_token))
    ⊎ ((find_game_user s player.auth_token ≡ none)
        × ((id : ℕ) (u : GameUser) → s.users id ≡ some u → u.auth_token ≢ player.auth_token))
tokens_answer_example = tokens_answer joins player.auth_token (refl, (tt, tt))

test_found : find_game_user (call_all new_container joins) player.auth_token ≡ some player
unfolding add_user add_server
test_found = refl
