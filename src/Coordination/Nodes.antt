-- ===== src/Coordination/Nodes.antt =====
-- zerosugar/xr/service/coordination/node/node_container.cpp: the game servers, the instances and the users
-- that the coordination service knows, with an index of the servers by address and one of the users
-- by token. The objects in one map have different ids, so that a pointer to one of them stands here
-- as its id, and reading through a pointer looks the object up. The characters of an ip are not
-- negative; the multimap is a list of its entries.
pub mod Index
pub mod Address
pub mod History
pub mod Users
pub mod Tokens
use zerosugar.Prelude.{
  same_text, ℕ, ◌+◌, ◌==◌, Bool, true, false, ◌&&◌, Option, none, some, List, [], ◌∷◌, ◌++◌,
  if◌then◌else◌, erase,
}

-- What stays as it is in a server, and in a user.
pub record GameServer : Type 0 where
  pub id : ℕ
  pub ip : List ℕ
  pub port : ℕ

pub record GameUser : Type 0 where
  pub id : ℕ
  pub auth_token : List ℕ

pub record NodeContainer (Instance : Type 0) : Type 0 where
  pub servers : ℕ → Option GameServer
  pub server_address_index : List (ℕ × ℕ)
  pub servers_for_iteration : List ℕ
  pub instances : ℕ → Option Instance
  pub users : ℕ → Option GameUser
  pub user_auth_token_index : List ℕ → Option ℕ

abbrev pub update {ℓ} : {V : Type ℓ} → (ℕ → V) → ℕ → V → ℕ → V
update f k v j = if j == k then v else f j

abbrev pub update_text {ℓ} : {V : Type ℓ} → (List ℕ → V) → List ℕ → V → List ℕ → V
update_text f k v j = if same_text j k then v else f j

abbrev pub sum : List ℕ → ℕ
sum [] = 0
sum (c ∷ cs) = c + sum cs

-- `MakeServerAddressKey`.
abbrev pub make_server_address_key : List ℕ → ℕ → ℕ
make_server_address_key ip port = port + sum ip

abbrev pub key_of : GameServer → ℕ
key_of g = make_server_address_key g.ip g.port

-- The test of `any_of`.
abbrev pub has_address : List ℕ → ℕ → GameServer → Bool
has_address ip port g = same_text g.ip ip && (g.port == port)

-- `any_of` over the entries with the key; `none` where a pointer leads nowhere.
unfoldable pub any_address : (ℕ → Option GameServer) → List ℕ → ℕ → List (ℕ × ℕ) → Option Bool
any_address servers ip port [] = some false
any_address servers ip port ((key, id) ∷ rest) =
    let later : Option Bool = any_address servers ip port rest in
    if key == make_server_address_key ip port
    then elim (servers id) [
      | none ↦ none
      | some g ↦ if has_address ip port g then some true else later
    ]
    else later

-- The first entry of a key that leads to the server goes.
unfoldable pub erase_entry : ℕ → ℕ → List (ℕ × ℕ) → List (ℕ × ℕ)
erase_entry key id [] = []
erase_entry key id ((k, j) ∷ rest) =
    let later : List (ℕ × ℕ) = erase_entry key id rest in
    if (k == key) && (j == id) then rest else (k, j) ∷ later

module _ {Instance : Type 0} where
  -- `HasServerAddress(ip, port)`.
  unfoldable pub has_server_address : NodeContainer Instance → List ℕ → ℕ → Option Bool
  unfolding any_address
  has_server_address s ip port = any_address s.servers ip port s.server_address_index

  -- `Add(server)`.
  unfoldable pub add_server : NodeContainer Instance → GameServer → Bool × NodeContainer Instance
  add_server s g = elim (s.servers g.id) [
    | some old ↦ (false, s)
    | none ↦ (
      true,
      record s {
        servers = update s.servers g.id (some g);
        servers_for_iteration = s.servers_for_iteration ++ (g.id ∷ []);
        server_address_index = (key_of g, g.id) ∷ s.server_address_index;
      },
    )
  ]

  -- `Remove(game_server_id_type)`.
  unfoldable pub remove_server : NodeContainer Instance → ℕ → Bool × NodeContainer Instance
  unfolding erase_entry
  remove_server s id = elim (s.servers id) [
    | none ↦ (false, s)
    | some g ↦ (
      true,
      record s {
        servers = update s.servers id none;
        servers_for_iteration = erase id s.servers_for_iteration;
        server_address_index = erase_entry (key_of g) id s.server_address_index;
      },
    )
  ]

  -- `Add(instance)` and `Remove(game_instance_id_type)`.
  unfoldable pub add_instance :
      NodeContainer Instance → ℕ → Instance → Bool × NodeContainer Instance
  add_instance s id instance_ = elim (s.instances id) [
    | some old ↦ (false, s)
    | none ↦ (true, record s { instances = update s.instances id (some instance_) })
  ]

  unfoldable pub remove_instance : NodeContainer Instance → ℕ → Bool × NodeContainer Instance
  remove_instance s id = elim (s.instances id) [
    | none ↦ (false, s)
    | some old ↦ (true, record s { instances = update s.instances id none })
  ]

  -- The index of the tokens after `try_emplace`.
  abbrev pub with_token : NodeContainer Instance → GameUser → List ℕ → Option ℕ
  with_token s u = elim (s.user_auth_token_index u.auth_token) [
    | some id ↦ s.user_auth_token_index
    | none ↦ update_text s.user_auth_token_index u.auth_token (some u.id)
  ]

  -- `Add(user)`.
  unfoldable pub add_user : NodeContainer Instance → GameUser → Bool × NodeContainer Instance
  add_user s u = elim (s.users u.id) [
    | some old ↦ (false, s)
    | none ↦ (
      true,
      record s { users = update s.users u.id (some u); user_auth_token_index = with_token s u },
    )
  ]

  -- `Remove(game_user_id_type)`.
  unfoldable pub remove_user : NodeContainer Instance → ℕ → Bool × NodeContainer Instance
  remove_user s id = elim (s.users id) [
    | none ↦ (false, s)
    | some u ↦ (
      true,
      record s {
        users = update s.users id none;
        user_auth_token_index = update_text s.user_auth_token_index u.auth_token none;
      },
    )
  ]

  -- `FindGameUser(authToken)`: the object that the pointer in the index leads to.
  abbrev pub find_game_user : NodeContainer Instance → List ℕ → Option GameUser
  find_game_user s token = elim (s.user_auth_token_index token) [
    | none ↦ none
    | some id ↦ s.users id
  ]
