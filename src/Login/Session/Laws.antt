-- ===== src/Login/Session/Laws.antt =====
-- The login session of zerosugar/xr/server/login on the packets of its client: what `Run` and `OnEvent` do.
use zerosugar.Prelude.{
  ℕ, ◌≡◌, refl, ◌∙◌, Bool, true, false, some, List, [], ◌∷◌, ◌++◌, if◌then◌else◌, arith, All, ◌⊎◌,
  inl, inr, Bool-cases,
}
use zerosugar.Network.Receive.{Arrival, waiting, exited}
use zerosugar.Network.Receive.Keeps.{run_keeps}
use zerosugar.Network.Receive.Chunks.{handle_all, stream_of, AllAlive, run_handles_each, frames}
use zerosugar.Login.Packet.{Packet, login, to_buffer, create_from}
use zerosugar.Login.Packet.RoundTrip.{codec, Fits, to_buffer-frame}
use zerosugar.Login.Session.{
  login_state_eq, connected, authenticated, Address, Services, Reply, login_result, Session,
  lobby_reply, send, on_event, new_session, run,
}
use zerosugar.Login.Session.Sound.{
  granted, IsSound, earned_lem, new_session-IsSound, lobby_reply-some, on_event-IsSound,
}

abbrev pub wire : List Packet → List ℕ
wire [] = []
wire (p ∷ ps) = to_buffer p ++ wire ps

pub wire-frames : (ps : List Packet) → wire ps ≡ frames codec ps
wire-frames [] = refl
wire-frames (p ∷ ps) = rw (to_buffer-frame p, wire-frames ps)

module _ {W : Type 0} (services : Services W) where
  -- Let the buffers that arrive carry exactly the bytes that `Packet::ToBuffer` makes of the packets
  -- `ps`, cut anywhere, let each text of a packet be shorter than `2 ^ 15` bytes and not end in a null
  -- byte, and let the session be alive and not shut down whenever a buffer arrives. Then the login
  -- server handles exactly `ps`, each once and in order, until a handler throws, and when none does
  -- it waits with an empty buffer.
  pub run_serves :
      (w : W) (arrivals : List Arrival) (ps : List Packet)
      → All Fits ps
      → AllAlive arrivals
      → stream_of arrivals ≡ wire ps
      → let st = run services w arrivals in
        let (s, more) = handle_all (on_event services) (new_session services w) ps in
        (st.session ≡ s)
        × (st.status ≡ (if more then waiting else exited))
        × (more ≡ true → st.receive_buffer ≡ [])
  unfolding run
  run_serves w arrivals ps fits alive e =
      run_handles_each codec (on_event services) arrivals (new_session services w) ps fits alive
        (e ∙ wire-frames ps)

  -- A session is authenticated only if a `LoginResult` with success has gone out to its client, after
  -- any number of buffers, whatever bytes these carry (whole packets, parts of one, oversized ones or
  -- none), whatever the services answer, and also after the loop has stopped, thrown or used up its fuel.
  pub authenticated_granted :
      (w : W) (arrivals : List Arrival)
      → (run services w arrivals).session.machine.current_state ≡ some authenticated
      → granted (run services w arrivals).session.sent ≡ true
  unfolding run
  authenticated_granted w arrivals now =
      earned_lem _
        (run_keeps IsSound create_from (on_event services) (on_event-IsSound services) _ arrivals
          (new_session-IsSound services w))
        now

  abbrev Sent : Session W → Session W → Reply → Type 0
  Sent s s' reply = s'.sent ≡ s.sent ++ (reply ∷ [])

  lobby_reply_cases :
      (s : Session W) (token : List ℕ) (r : W × List Address)
      → IsSound s
      → s.machine.current_state ≡ some connected
      → let (s', more) = lobby_reply services s token r in
        ((r.1 ≡ [])
          × Sent s s' (login_result true [] [] 0)
          × (s'.machine ≡ s.machine)
          × (more ≡ false))
        ⊎ ((a : Address) × (rest : List Address) × (r.1 ≡ a ∷ rest)
            × Sent s s' (login_result true token a.ip a.port)
            × (s'.machine.current_state ≡ some authenticated)
            × (more ≡ true))
  lobby_reply_cases s token (w, []) v e = inl (refl, refl, refl, refl)
  lobby_reply_cases s token (w, a ∷ rest) v e =
      rw (lobby_reply-some services s token w a rest v e) (inr (a, rest, refl, refl, refl, refl))

  login_good :
      (s : Session W) (account password : List ℕ)
      → s.machine.current_state ≡ some connected
      → (services.login_async s.world account password).1 ≡ true
      → on_event services s (login account password) ≡ (
          let (w, _, token) = services.login_async s.world account password in
          lobby_reply services s token (services.get_game_service_list w))
  unfolding on_event
  login_good s account password e good = ground arith

  login_bad :
      (s : Session W) (account password : List ℕ)
      → s.machine.current_state ≡ some connected
      → (services.login_async s.world account password).1 ≡ false
      → on_event services s (login account password) ≡ (
          let (w, _, _) = services.login_async s.world account password in
          (send services s w (login_result false [] [] 0), false))
  unfolding on_event
  login_bad s account password e bad = ground arith

  -- A `Login` packet in the connected state of a session that the constructor and the handlers made: one `LoginResult` goes out with the success of the login.
  -- The session becomes authenticated, and the handler returns, exactly when the login service has no
  -- error and there is a game service to send the client to; else the state stays and it throws.
  pub login_cases :
      (s : Session W) (account password : List ℕ)
      → IsSound s
      → s.machine.current_state ≡ some connected
      → let (w, success, token) = services.login_async s.world account password in
        let addresses = (services.get_game_service_list w).1 in
        let (s', more) = on_event services s (login account password) in
        ((success ≡ false)
          × Sent s s' (login_result false [] [] 0)
          × (s'.machine ≡ s.machine)
          × (more ≡ false))
        ⊎ ((success ≡ true)
            × (((addresses ≡ [])
                  × Sent s s' (login_result true [] [] 0)
                  × (s'.machine ≡ s.machine)
                  × (more ≡ false))
                ⊎ ((a : Address) × (rest : List Address) × (addresses ≡ a ∷ rest)
                    × Sent s s' (login_result true token a.ip a.port)
                    × (s'.machine.current_state ≡ some authenticated)
                    × (more ≡ true))))
  login_cases s account password v e =
      let answer : W × Bool × List ℕ = services.login_async s.world account password in
      elim (Bool-cases answer.1) [
        | inl good ↦ inr (
          good,
          rw (login_good s account password e good)
              (lobby_reply_cases s answer.2 (services.get_game_service_list answer.0) v e),
        )
        | inr bad ↦ rw (login_bad s account password e bad) (inl (bad, refl, refl, refl))
      ]
