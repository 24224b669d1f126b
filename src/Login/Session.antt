-- ===== src/Login/Session.antt =====
-- A session of the login server: zerosugar/xr/server/login/login_session_state_machine.cpp and
-- login_session_state.cpp. The login service and the gateway service are remote: they enter as
-- `Services`, with a state of their own that every call may change. Log lines and assertions are left
-- out, and so is the timer that closes an authenticated session.
pub mod Sound
pub mod Laws
pub mod Spins
use zerosugar.Prelude.{
  ℕ, ◌≡◌, refl, ◌↔◌, arith, Bool, true, false, not, Option, none, some, List, [], ◌∷◌, ◌++◌,
  if◌then◌else◌,
}
use zerosugar.Machine.{Eq, Machine, fresh, add_state, add_transition, transition}
use zerosugar.Network.Receive
use zerosugar.Network.Receive.{Arrival, Status, waiting}
use zerosugar.Login.Packet.{Packet, create_account, login, create_from}

pub data LoginState : Type 0 where
  connected authenticated : LoginState

abbrev pub same_state : LoginState → LoginState → Bool
same_state connected connected = true
same_state authenticated authenticated = true
same_state _ _ = false

pub same_state_iff : (a b : LoginState) → (same_state a b ≡ true) ↔ (a ≡ b)
same_state_iff connected connected = (λ _. refl, λ _. refl)
same_state_iff connected authenticated = (λ h. cc, λ h. cc)
same_state_iff authenticated connected = (λ h. cc, λ h. cc)
same_state_iff authenticated authenticated = (λ _. refl, λ _. refl)

instance abbrev pub login_state_eq : Eq LoginState
login_state_eq = record { beq = same_state; beq_iff = same_state_iff }

pub record Address : Type 0 where
  pub ip : List ℕ
  pub port : ℕ

-- `LoginAsync` (whether there was no error, and the token), `CreateAccountAsync` (whether there was
-- no error) and `GetGameServiceListAsync`.
pub record Services (W : Type 0) : Type 0 where
  pub login_async : W → List ℕ → List ℕ → W × Bool × List ℕ
  pub create_account_async : W → List ℕ → List ℕ → W × Bool
  pub get_game_service_list : W → W × List Address

-- `sc::LoginResult` and `sc::CreateAccountResult`.
pub data Reply : Type 0 where
  login_result : (success : Bool) → (token ip : List ℕ) → (port : ℕ) → Reply
  create_account_result : (success : Bool) → Reply

-- `faulted` is the model's own: a call has gone through a null pointer of the state machine.
pub record Session (W : Type 0) : Type 0 where
  pub machine : Machine LoginState
  pub sent : List Reply
  pub world : W
  pub faulted : Bool

-- The constructor of `LoginSessionStateMachine`.
unfoldable pub login_machine : Machine LoginState
unfolding add_state add_transition
login_machine =
    add_state false authenticated
      (add_transition connected authenticated (add_state true connected fresh))

module _ {W : Type 0} (services : Services W) where
  abbrev send : Session W → W → Reply → Session W
  send s w reply = record s { sent = s.sent ++ (reply ∷ []); world = w }

  -- `~TransitionGuard`.
  abbrev guarded : Session W → LoginState → Session W × Bool
  guarded s to = elim (transition to s.machine) [
    | none ↦ (record s { faulted = true }, false)
    | some (_, m, _) ↦ (record s { machine = m }, true)
  ]

  -- The addresses after a login without error.
  abbrev lobby_reply : Session W → List ℕ → W × List Address → Session W × Bool
  lobby_reply s token (w, []) = (send s w (login_result true [] [] 0), false)
  lobby_reply s token (w, a ∷ rest) =
      guarded (send s w (login_result true token a.ip a.port)) authenticated

  -- `ConnectedState::OnEvent`: the session, and whether the handler returns (else it throws).
  unfoldable pub connected_on_event : Session W → Packet → Session W × Bool
  unfolding transition
  connected_on_event s (login account password) =
      let (w, success, token) = services.login_async s.world account password in
      if success
      then lobby_reply s token (services.get_game_service_list w)
      else (send s w (login_result false [] [] 0), false)
  connected_on_event s (create_account account password) =
      let (w, success) = services.create_account_async s.world account password in
      (send s w (create_account_result success), true)

  -- `AuthenticatedState::OnEvent`.
  abbrev authenticated_on_event : Session W → Packet → Session W × Bool
  authenticated_on_event s p = (s, true)

  -- `StateMachine::OnEvent`.
  unfoldable pub on_event : Session W → Packet → Session W × Bool
  unfolding connected_on_event
  on_event s p = elim s.machine.current_state [
    | none ↦ (record s { faulted = true }, false)
    | some connected ↦ connected_on_event s p
    | some authenticated ↦ authenticated_on_event s p
  ]

  unfoldable pub new_session : W → Session W
  unfolding login_machine
  new_session w = record { machine = login_machine; sent = []; world = w; faulted = false }

  -- `Run`.
  unfoldable pub run : W → List Arrival → Receive.State (Session W)
  run w arrivals =
      Receive.run create_from on_event
        (record { receive_buffer = []; session = new_session w; status = waiting }) arrivals
