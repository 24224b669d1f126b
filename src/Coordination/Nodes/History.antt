-- ===== src/Coordination/Nodes/History.antt =====
-- The node container of zerosugar/xr/service/coordination/node/node_container.cpp after any calls.
use zerosugar.Prelude.{
  ℕ, ◌≡◌, ◌≢◌, refl, true, false, none, some, List, [], ◌∷◌, ◌⊎◌, sym, Option-cases, inl, inr,
}
use zerosugar.Coordination.Nodes.{
  GameServer, GameUser, NodeContainer, add_server, remove_server, add_instance, remove_instance,
  add_user, remove_user, has_server_address,
}
use zerosugar.Coordination.Nodes.Index.{IsIndexed, add_server_keeps, remove_server_keeps}
use zerosugar.Coordination.Nodes.Address.{has_server_address_cases}

pub data Call (Instance : Type 0) : Type 0 where
  adds_server : GameServer → Call Instance
  removes_server : ℕ → Call Instance
  adds_instance : ℕ → Instance → Call Instance
  removes_instance : ℕ → Call Instance
  adds_user : GameUser → Call Instance
  removes_user : ℕ → Call Instance

module _ {Instance : Type 0} where
  abbrev pub new_container : NodeContainer Instance
  new_container = record {
    servers = λ id. none;
    server_address_index = [];
    servers_for_iteration = [];
    instances = λ id. none;
    users = λ id. none;
    user_auth_token_index = λ token. none;
  }

  abbrev pub call : NodeContainer Instance → Call Instance → NodeContainer Instance
  call s (adds_server g) = (add_server s g).1
  call s (removes_server id) = (remove_server s id).1
  call s (adds_instance id instance_) = (add_instance s id instance_).1
  call s (removes_instance id) = (remove_instance s id).1
  call s (adds_user u) = (add_user s u).1
  call s (removes_user id) = (remove_user s id).1

  abbrev pub call_all : NodeContainer Instance → List (Call Instance) → NodeContainer Instance
  call_all s [] = s
  call_all s (c ∷ cs) = call_all (call s c) cs

  elsewhere-IsIndexed :
      (s t : NodeContainer Instance)
      → t.servers ≡ s.servers
      → t.servers_for_iteration ≡ s.servers_for_iteration
      → t.server_address_index ≡ s.server_address_index
      → IsIndexed s
      → IsIndexed t
  elsewhere-IsIndexed s t a b c v = record {
    named = λ id g e. v.named id g (rw (sym a) e);
    listed = λ id. rw (a, b) (v.listed id);
    indexed = λ key id. rw (a, c) (v.indexed key id);
  }

  add_instance-IsIndexed :
      (s : NodeContainer Instance) (id : ℕ) (instance_ : Instance)
      → IsIndexed s
      → IsIndexed (add_instance s id instance_).1
  unfolding add_instance
  add_instance-IsIndexed s id instance_ v = elim (Option-cases (s.instances id)) [
    | inl e ↦ rw (e, add_instance) (elsewhere-IsIndexed s _ refl refl refl v)
    | inr (old, e) ↦ rw (e, add_instance) v
  ]

  remove_instance-IsIndexed :
      (s : NodeContainer Instance) (id : ℕ) → IsIndexed s → IsIndexed (remove_instance s id).1
  unfolding remove_instance
  remove_instance-IsIndexed s id v = elim (Option-cases (s.instances id)) [
    | inl e ↦ rw (e, remove_instance) v
    | inr (old, e) ↦ rw (e, remove_instance) (elsewhere-IsIndexed s _ refl refl refl v)
  ]

  add_user-IsIndexed :
      (s : NodeContainer Instance) (u : GameUser) → IsIndexed s → IsIndexed (add_user s u).1
  unfolding add_user
  add_user-IsIndexed s u v = elim (Option-cases (s.users u.id)) [
    | inl e ↦ rw (e, add_user) (elsewhere-IsIndexed s _ refl refl refl v)
    | inr (old, e) ↦ rw (e, add_user) v
  ]

  remove_user-IsIndexed :
      (s : NodeContainer Instance) (id : ℕ) → IsIndexed s → IsIndexed (remove_user s id).1
  unfolding remove_user
  remove_user-IsIndexed s id v = elim (Option-cases (s.users id)) [
    | inl e ↦ rw (e, remove_user) v
    | inr (old, e) ↦ rw (e, remove_user) (elsewhere-IsIndexed s _ refl refl refl v)
  ]

  call-IsIndexed :
      (s : NodeContainer Instance) (c : Call Instance) → IsIndexed s → IsIndexed (call s c)
  call-IsIndexed s (adds_server g) v = (add_server_keeps s g v).0
  call-IsIndexed s (removes_server id) v = (remove_server_keeps s id v).0
  call-IsIndexed s (adds_instance id instance_) v = add_instance-IsIndexed s id instance_ v
  call-IsIndexed s (removes_instance id) v = remove_instance-IsIndexed s id v
  call-IsIndexed s (adds_user u) v = add_user-IsIndexed s u v
  call-IsIndexed s (removes_user id) v = remove_user-IsIndexed s id v

  call_all-IsIndexed :
      (s : NodeContainer Instance) (cs : List (Call Instance))
      → IsIndexed s
      → IsIndexed (call_all s cs)
  call_all-IsIndexed s [] v = v
  call_all-IsIndexed s (c ∷ cs) v = call_all-IsIndexed (call s c) cs (call-IsIndexed s c v)

  new_container-IsIndexed : IsIndexed new_container
  new_container-IsIndexed = record {
    named = λ id g e. cc;
    listed = λ id. refl;
    indexed = λ key id. refl;
  }

  -- After any calls on a new container, `HasServerAddress` follows no pointer to a server that is gone,
  -- and answers whether a server of the map has the ip and the port, whatever other
  -- addresses have the same key.
  pub addresses_answer :
      (cs : List (Call Instance)) (ip : List ℕ) (port : ℕ)
      → let s = call_all new_container cs in
        ((has_server_address s ip port ≡ some true)
          × ((id : ℕ) × (g : GameServer) × (s.servers id ≡ some g) × (g.ip ≡ ip) × (g.port ≡ port)))
        ⊎ ((has_server_address s ip port ≡ some false)
            × ((id : ℕ) (g : GameServer) → s.servers id ≡ some g → g.ip ≡ ip → g.port ≢ port))
  addresses_answer cs ip port =
      has_server_address_cases (call_all new_container cs) ip port
        (call_all-IsIndexed new_container cs new_container-IsIndexed)
