-- ===== src/Coordination/Nodes/Address.antt =====
-- `HasServerAddress` of zerosugar/xr/service/coordination/node/node_container.cpp: different addresses may
-- have one key.
use zerosugar.Prelude.{
  same_text_eq, same_text_self, ℕ, ◌<◌, ◌≡◌, ◌≢◌, refl, sym, ◌==◌, true, false, Option, some, List,
  [], ◌∷◌, arith, Option-cases, Bool-cases, inl, inr, ◌⊎◌,
}
use zerosugar.Coordination.Nodes.{
  GameServer, NodeContainer, key_of, has_address, make_server_address_key, any_address,
  has_server_address,
}
use zerosugar.Coordination.Nodes.Index.{count_entry, times_under, IsIndexed}

has_address_eq :
    (ip : List ℕ) (port : ℕ) (g : GameServer)
    → has_address ip port g ≡ true
    → (g.ip ≡ ip) × (g.port ≡ port)
has_address_eq ip port g e = (same_text_eq g.ip ip (ground (arith, e)), ground (arith, e))

has_address_self : (g : GameServer) → has_address g.ip g.port g ≡ true
has_address_self g = ground (arith, same_text_self g.ip)

-- What the loop over the entries finds.
abbrev Finds : (ℕ → Option GameServer) → List ℕ → ℕ → List (ℕ × ℕ) → Type 0
Finds servers ip port entries =
    ((any_address servers ip port entries ≡ some true)
      × ((id : ℕ) × (g : GameServer) × (servers id ≡ some g) × (has_address ip port g ≡ true)))
    ⊎ ((any_address servers ip port entries ≡ some false)
        × ((id : ℕ) (g : GameServer)
            → servers id ≡ some g
            → 0 < count_entry (make_server_address_key ip port) id entries
            → has_address ip port g ≡ false))

any_address-Finds :
    (servers : ℕ → Option GameServer) (ip : List ℕ) (port : ℕ) (entries : List (ℕ × ℕ))
    → ((key id : ℕ) → 0 < count_entry key id entries → 0 < times_under key (servers id))
    → Finds servers ip port entries
unfolding any_address
any_address-Finds servers ip port [] leads = inr (refl, λ id g e inside. ground arith)
any_address-Finds servers ip port ((k, j) ∷ rest) leads =
    let later : Finds servers ip port rest =
      any_address-Finds servers ip port rest
        (λ key id inside. leads key id (ground (arith, inside))) in
    elim (Bool-cases (k == make_server_address_key ip port)) [
      | inr other ↦ elim later [
        | inl (found, here) ↦ inl (rw other found, here)
        | inr (missed, all) ↦
            inr (rw other missed, λ id g e inside. all id g e (ground (arith, other, inside)))
      ]
      | inl same ↦ elim (Option-cases (servers j)) [
        | inl e ↦ ground (arith, e, leads k j)
        | inr (g, e) ↦ elim (Bool-cases (has_address ip port g)) [
          | inl yes_ ↦ inl (rw (same, e, yes_) refl, (j, g, e, yes_))
          | inr no_ ↦ elim later [
            | inl (found, here) ↦ inl (rw (same, e, no_) found, here)
            | inr (missed, all) ↦ inr (
              rw (same, e, no_) missed,
              λ id h e' inside. elim (Bool-cases (j == id)) [
                | inl at ↦ ground (arith, e, e', at, no_)
                | inr off ↦ all id h e' (ground (arith, off, inside))
              ],
            )
          ]
        ]
      ]
    ]

module _ {Instance : Type 0} where
  -- `HasServerAddress` follows no pointer to a server that is gone, and answers whether a server of the
  -- map has the ip and the port, whatever other addresses have the same key.
  pub has_server_address_cases :
      (s : NodeContainer Instance) (ip : List ℕ) (port : ℕ)
      → IsIndexed s
      → ((has_server_address s ip port ≡ some true)
          × ((id : ℕ) × (g : GameServer) × (s.servers id ≡ some g) × (g.ip ≡ ip) × (g.port ≡ port)))
        ⊎ ((has_server_address s ip port ≡ some false)
            × ((id : ℕ) (g : GameServer) → s.servers id ≡ some g → g.ip ≡ ip → g.port ≢ port))
  unfolding has_server_address
  has_server_address_cases s ip port v =
      elim (any_address-Finds s.servers ip port s.server_address_index leads) [
        | inl (found, (id, g, e, same)) ↦
            let (a, b) = has_address_eq ip port g same in inl (found, (id, g, e, a, b))
        | inr (missed, all) ↦ inr (missed, λ id g e a b. absent all id g e a b)
      ]
    where
      leads :
          (key id : ℕ)
          → 0 < count_entry key id s.server_address_index
          → 0 < times_under key (s.servers id)
      leads key id inside = ground (arith, inside, v.indexed key id)

      absent :
          ((id : ℕ) (g : GameServer)
            → s.servers id ≡ some g
            → 0 < count_entry (make_server_address_key ip port) id s.server_address_index
            → has_address ip port g ≡ false)
          → (id : ℕ) (g : GameServer) → s.servers id ≡ some g
          → g.ip ≡ ip
          → g.port ≢ port
      absent all id g e a b =
          let yes_ : has_address ip port g ≡ true = rw (sym a, sym b) (has_address_self g) in
          let key : make_server_address_key ip port ≡ key_of g = rw (sym a, sym b) refl in
          let inside : 0 < count_entry (make_server_address_key ip port) id s.server_address_index =
            ground (arith, v.indexed (make_server_address_key ip port) id, e, key) in
          ground (arith, all id g e inside, yes_)
