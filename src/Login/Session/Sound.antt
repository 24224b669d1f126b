-- ===== src/Login/Session/Sound.antt =====
-- When a session of zerosugar/xr/server/login is sound: its state machine is the one that the constructor
-- builds, and its current state is earned. The handlers of login_session_state.cpp keep it so.
use zerosugar.Prelude.{
  ℕ, ◌≡◌, refl, Bool, true, false, some, List, [], ◌∷◌, ◌++◌, ◌||◌, arith, ◌⊎◌, inl, inr,
  Bool-cases,
}
use zerosugar.Machine.{transition, on_exit, on_enter}
use zerosugar.Login.Packet.{Packet, create_account, login}
use zerosugar.Login.Session.{
  login_state_eq, connected, authenticated, Address, Services, Reply, login_result,
  create_account_result, Session, connected_on_event, lobby_reply, guarded, send, on_event,
  new_session,
}

-- A `LoginResult` with success went out.
abbrev pub granted : List Reply → Bool
granted [] = false
granted (login_result success token ip port ∷ rs) = success || granted rs
granted (create_account_result success ∷ rs) = granted rs

pub granted-append : (rs us : List Reply) → granted (rs ++ us) ≡ (granted rs || granted us)
granted-append [] us = refl
granted-append (login_result success token ip port ∷ rs) us = ground (arith, granted-append rs us)
granted-append (create_account_result success ∷ rs) us = granted-append rs us

-- The states and the changes that the constructor registers, a current state that is earned, and no null
-- pointer gone through.
pub record IsSound {W : Type 0} (s : Session W) : Type 0 where
  pub registered :
      (s.machine.states ≡ connected ∷ authenticated ∷ [])
      × (s.machine.transitions ≡ (connected, authenticated ∷ []) ∷ (authenticated, []) ∷ [])
      × (s.machine.current_transition ≡ s.machine.current_state)
  pub earned :
      (s.machine.current_state ≡ some connected)
      ⊎ ((s.machine.current_state ≡ some authenticated) × (granted s.sent ≡ true))
  pub defined : s.faulted ≡ false

pub earned_lem :
    {W : Type 0} (s : Session W)
    → IsSound s
    → s.machine.current_state ≡ some authenticated
    → granted s.sent ≡ true
earned_lem s v now = elim v.earned [ inl e ↦ cc | inr (e, g) ↦ g ]

module _ {W : Type 0} (services : Services W) where
  pub new_session-IsSound : (w : W) → IsSound (new_session services w)
  unfolding new_session
  new_session-IsSound w = record {
    registered = (refl, refl, refl);
    earned = inl refl;
    defined = refl;
  }

  granted_lem :
      (s : Session W) (token ip : List ℕ) (port : ℕ)
      → granted (s.sent ++ (login_result true token ip port ∷ [])) ≡ true
  granted_lem s token ip port =
      ground (arith, granted-append s.sent (login_result true token ip port ∷ []))

  -- The change that a login makes.
  pub to_authenticated :
      (s : Session W)
      → IsSound s
      → s.machine.current_state ≡ some connected
      → transition authenticated s.machine
        ≡ some (
          true,
          record s.machine {
            current_state = some authenticated;
            current_transition = some authenticated;
          },
          on_exit connected ∷ on_enter authenticated ∷ [],
        )
  unfolding transition
  to_authenticated s v e = let (a, b, c) = v.registered in ground arith

  -- The answer with a game service.
  pub lobby_reply-some :
      (s : Session W) (token : List ℕ) (w : W) (a : Address) (rest : List Address)
      → IsSound s
      → s.machine.current_state ≡ some connected
      → lobby_reply services s token (w, a ∷ rest) ≡ (
        record (send services s w (login_result true token a.ip a.port)) {
          machine = record s.machine {
            current_state = some authenticated;
            current_transition = some authenticated;
          };
        },
        true,
      )
  lobby_reply-some s token w a rest v e = rw (to_authenticated s v e, guarded) refl

  lobby_reply-IsSound :
      (s : Session W) (token : List ℕ) (r : W × List Address)
      → IsSound s
      → s.machine.current_state ≡ some connected
      → IsSound (lobby_reply services s token r).0
  lobby_reply-IsSound s token (w, []) v e = record {
    registered = v.registered;
    earned = inl e;
    defined = v.defined;
  }
  lobby_reply-IsSound s token (w, a ∷ rest) v e =
      rw (lobby_reply-some s token w a rest v e) (record {
        registered = (v.registered.0, v.registered.1, refl);
        earned = inr (refl, granted_lem s token a.ip a.port);
        defined = v.defined;
      })

  connected-IsSound :
      (s : Session W) (p : Packet)
      → IsSound s
      → s.machine.current_state ≡ some connected
      → IsSound (connected_on_event services s p).0
  unfolding connected_on_event
  connected-IsSound s (login account password) v e =
      let answer : W × Bool × List ℕ = services.login_async s.world account password in
      elim (Bool-cases answer.1) [
        | inl yes_ ↦
            rw yes_ (lobby_reply-IsSound s answer.2 (services.get_game_service_list answer.0) v e)
        | inr no_ ↦
            rw no_ (record { registered = v.registered; earned = inl e; defined = v.defined })
      ]
  connected-IsSound s (create_account account password) v e = record {
    registered = v.registered;
    earned = inl e;
    defined = v.defined;
  }

  pub on_event-IsSound :
      (s : Session W) (p : Packet) → IsSound s → IsSound (on_event services s p).0
  unfolding on_event
  on_event-IsSound s p v = elim v.earned [
    | inl e ↦ rw (e, on_event) (connected-IsSound s p v e)
    | inr (e, g) ↦ rw (e, on_event) v
  ]
