-- ===== src/Login/Session/Spins.antt =====
-- The login session of zerosugar/xr/server/login on a packet whose size field is zero or negative.
use zerosugar.Prelude.{
  zero, length, length-append, ℕ, suc, ◌+◌, ◌^◌, ◌<◌, ◌≡◌, refl, ◌∙◌, true, some, List, [], ◌∷◌,
  ◌++◌, arith,
}
use zerosugar.Network.Receive.{waiting, spinning, process}
use zerosugar.Network.Receive.Spin.{bad_frame, handle_times, process_spins}
use zerosugar.Login.Packet.{create_account, create_from}
use zerosugar.Login.Packet.RoundTrip.{codec, Fits}
use zerosugar.Login.Session.{
  login_state_eq, connected, Services, create_account_result, Session, on_event, new_session,
}

module _ {W : Type 0} (services : Services W) where
  connected_create :
      (account password : List ℕ) (t : Session W)
      → t.machine.current_state ≡ some connected
      → ((on_event services t (create_account account password)).1 ≡ true)
        × ((on_event services t (create_account account password)).0.machine.current_state
            ≡ some connected)
  unfolding on_event
  connected_create account password t e = ground arith

  length-sent_one :
      (account password : List ℕ) (t : Session W)
      → t.machine.current_state ≡ some connected
      → length (on_event services t (create_account account password)).0.sent ≡ length t.sent + 1
  unfolding on_event
  length-sent_one account password t e =
      rw (e, on_event) (length-append t.sent (create_account_result _ ∷ []))

  length-sent :
      (account password : List ℕ) (n : ℕ) (t : Session W)
      → t.machine.current_state ≡ some connected
      → length (handle_times (on_event services) (create_account account password) n t).sent
        ≡ length t.sent + n
  unfolding handle_times
  length-sent account password zero t e = omega arith
  length-sent account password (suc n) t e = omega (
    arith,
    length-sent account password n (on_event services t (create_account account password)).0
        (connected_create account password t e).1,
    length-sent_one account password t e,
  )

  -- A client that has not logged in can send one `CreateAccount` packet with a size field of zero or
  -- less: the server then asks the login service to create the account again and again. After any
  -- number of turns of the inner loop that many replies have gone out, and the packet is still there.
  pub create_account_spins :
      (w : W) (account password : List ℕ) (k n : ℕ) (rest : List ℕ)
      → k < 2 ^ 31
      → Fits (create_account account password)
      → let p = create_account account password in
        let buffer = bad_frame codec k p ++ rest in
        let st = process create_from (on_event services) n (record {
          receive_buffer = buffer;
          session = new_session services w;
          status = waiting;
        }) in
        (st.status ≡ spinning) × (st.receive_buffer ≡ buffer) × (length st.session.sent ≡ n)
  create_account_spins w account password k n rest small fits =
      let e =
        process_spins codec (on_event services) (λ t. t.machine.current_state ≡ some connected) n
          (new_session services w) k (create_account account password) rest waiting small fits
          (connected_create account password) (unfold new_session in refl) in
      rw e (
        refl,
        refl,
        length-sent account password n (new_session services w) (unfold new_session in refl)
            ∙ unfold new_session in (omega arith),
      )
