-- ===== src/Tests/Session.antt =====
-- Runs of zerosugar/shared/state_machine and zerosugar/xr/server/login.
use zerosugar.Prelude.{
  ℕ, ◌+◌, ◌≡◌, refl, ◌++◌, Bool, true, false, some, List, [], ◌∷◌, length, arith, ◌⊎◌, inl,
  if◌then◌else◌, take, drop, ap, ◌∙◌, append-nil, take-append-drop,
}
use mathlib.Core.List.{Mem}
use zerosugar.Machine.{Machine, on_exit, on_enter, transition_of, transition}
use zerosugar.Machine.Built.{Built, start, with_state, with_transition, transition_cases}
use zerosugar.Network.Receive.{Arrival, waiting, spinning, exited, process}
use zerosugar.Network.Receive
use zerosugar.Network.Receive.Chunks.{stream_of, run_handles_each, handle_all}
use zerosugar.Network.Receive.Frame.{frame}
use zerosugar.Network.Receive.Spin.{bad_frame}
use zerosugar.Io.Reader.{Reader, reader, ok}
use zerosugar.Login.Packet.{Packet, create_account, login, create_from, body, to_buffer}
use zerosugar.Login.Packet.RoundTrip.{codec, Fits, decode, to_buffer-frame}
use zerosugar.Login.Session.{
  LoginState, connected, login_state_eq, authenticated, Address, Services, login_result,
  new_session, login_machine, on_event, run,
}
use zerosugar.Login.Session.Laws.{wire, wire-frames, run_serves, authenticated_granted, login_cases}
use zerosugar.Login.Session.Sound.{granted, IsSound}
use zerosugar.Login.Session.Spins.{create_account_spins}

-- Services that count the accounts made, and know one account.
abbrev known : List ℕ → Bool
known [] = false
known (c ∷ cs) = true

abbrev lobby : Address
lobby = record { ip = 49 ∷ []; port = 9000 }

abbrev services : Services ℕ
services = record {
  login_async = λ w account password. (w, known account, 7 ∷ []);
  create_account_async = λ w account password. (w + 1, true);
  get_game_service_list = λ w. (w, lobby ∷ []);
}

abbrev new_account : Packet
new_account = create_account (65 ∷ []) (66 ∷ [])

abbrev enter : Packet
enter = login (65 ∷ []) (66 ∷ [])

-- The bytes of two packets, cut inside the first.
abbrev arrivals : List Arrival
arrivals =
    record { bytes = take 3 (wire (new_account ∷ enter ∷ [])); alive = true }
    ∷ record { bytes = drop 3 (wire (new_account ∷ enter ∷ [])); alive = true }
    ∷ []

arrivals_carry : stream_of arrivals ≡ wire (new_account ∷ enter ∷ [])
arrivals_carry =
    let bytes : List ℕ = wire (new_account ∷ enter ∷ []) in
    ap (◌++◌ (take 3 bytes)) (append-nil (drop 3 bytes)) ∙ take-append-drop 3 bytes

enter-Fits : Fits enter
enter-Fits = (
  record { short = omega arith; ends = λ e. omega arith },
  record { short = omega arith; ends = λ e. omega arith },
)

new_account-Fits : Fits new_account
new_account-Fits = enter-Fits

login_machine-Built : Built login_machine
unfolding login_machine
login_machine-Built =
    with_state false authenticated
      (with_transition connected authenticated (with_state true connected start))

transition_cases_example :
    (to : List LoginState) × (transition_of login_machine.transitions connected ≡ some to)
    × ((Mem authenticated to
          × Mem authenticated login_machine.states
          × (m' : Machine LoginState) × (transition authenticated login_machine
              ≡ some (true, m', on_exit connected ∷ on_enter authenticated ∷ []))
          × (m'.current_state ≡ some authenticated)
          × (m'.current_transition ≡ some authenticated)
          × (m'.states ≡ login_machine.states)
          × (m'.transitions ≡ login_machine.transitions)
          × Built m')
        ⊎ (((¬ Mem authenticated to) ⊎ (¬ Mem authenticated login_machine.states))
            × (transition authenticated login_machine ≡ some (false, login_machine, []))))
transition_cases_example =
    transition_cases authenticated connected login_machine login_machine-Built
      (unfold login_machine in refl)

run_serves_example :
    let st = run services 0 arrivals in
    let (s, more) =
      handle_all (on_event services) (new_session services 0) (new_account ∷ enter ∷ []) in
    (st.session ≡ s)
    × (st.status ≡ (if more then waiting else exited))
    × (more ≡ true → st.receive_buffer ≡ [])
run_serves_example =
    run_serves services 0 arrivals (new_account ∷ enter ∷ []) (new_account-Fits, (enter-Fits, tt))
      (refl, (refl, tt)) arrivals_carry

run_handles_each_example :
    let st =
      Receive.run create_from
        (on_event services)
        (record { receive_buffer = []; session = new_session services 0; status = waiting })
        arrivals in
    let (s, more) =
      handle_all (on_event services) (new_session services 0) (new_account ∷ enter ∷ []) in
    (st.session ≡ s)
    × (st.status ≡ (if more then waiting else exited))
    × (more ≡ true → st.receive_buffer ≡ [])
run_handles_each_example =
    run_handles_each codec (on_event services) arrivals (new_session services 0)
      (new_account ∷ enter ∷ []) (new_account-Fits, (enter-Fits, tt)) (refl, (refl, tt))
      (arrivals_carry ∙ wire-frames (new_account ∷ enter ∷ []))

now_authenticated : (run services 0 arrivals).session.machine.current_state ≡ some authenticated
unfolding handle_all on_event new_session
now_authenticated =
    rw
      (run_serves services 0 arrivals (new_account ∷ enter ∷ [])
        (new_account-Fits, (enter-Fits, tt)) (refl, (refl, tt)) arrivals_carry).0
      refl

authenticated_granted_example : granted (run services 0 arrivals).session.sent ≡ true
authenticated_granted_example = authenticated_granted services 0 arrivals now_authenticated

start-IsSound : IsSound (new_session services 0)
unfolding new_session
start-IsSound = record { registered = (refl, refl, refl); earned = inl refl; defined = refl }

login_cases_example :
    let s = new_session services 0 in
    let (s', more) = on_event services s enter in
    ((true ≡ false)
      × (s'.sent ≡ s.sent ++ (login_result false [] [] 0 ∷ []))
      × (s'.machine ≡ s.machine)
      × (more ≡ false))
    ⊎ ((true ≡ true)
        × (((lobby ∷ [] ≡ [])
              × (s'.sent ≡ s.sent ++ (login_result true [] [] 0 ∷ []))
              × (s'.machine ≡ s.machine)
              × (more ≡ false))
            ⊎ ((a : Address) × (rest : List Address) × (lobby ∷ [] ≡ a ∷ rest)
                × (s'.sent ≡ s.sent ++ (login_result true (7 ∷ []) a.ip a.port ∷ []))
                × (s'.machine.current_state ≡ some authenticated)
                × (more ≡ true))))
login_cases_example =
    login_cases services (new_session services 0) (65 ∷ []) (66 ∷ []) start-IsSound
      (unfold new_session in refl)

create_account_spins_example :
    let buffer = bad_frame codec 0 new_account ++ [] in
    let st =
      process create_from
        (on_event services)
        5
        (record { receive_buffer = buffer; session = new_session services 0; status = waiting }) in
    (st.status ≡ spinning) × (st.receive_buffer ≡ buffer) × (length st.session.sent ≡ 5)
create_account_spins_example =
    create_account_spins services 0 (65 ∷ []) (66 ∷ []) 0 5 [] (omega arith) new_account-Fits

-- A handler that counts.
abbrev count : ℕ → Packet → ℕ × Bool
count n p = (n + 1, true)

decode_example : (r' : Reader) × (create_from (reader (body enter ++ [])) ≡ ok (some enter, r'))
decode_example =
    decode enter (reader (body enter ++ [])) [] enter-Fits (unfold reader in refl)
      (unfold reader in refl)

to_buffer-frame_example : to_buffer enter ≡ frame codec enter
to_buffer-frame_example = to_buffer-frame enter
