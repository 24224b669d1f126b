-- ===== src/Network/Receive/Keeps.antt =====
-- What the receive loop of zerosugar/xr/server/login/login_session_state_machine.cpp does to the session:
-- nothing but the handler's own changes.
use zerosugar.Prelude.{
  ℕ, zero, suc, ◌≡◌, refl, Bool, Option, none, some, List, [], ◌∷◌, ◌++◌, length, Bool-cases, inl,
  inr, ◌⊎◌,
}
use zerosugar.Prelude.Int.{ℤ}
use zerosugar.Io.Reader.{R}
use zerosugar.Network.Receive.{
  State, Status, waiting, stopped, exited, thrown, spinning, Arrival, Round, incomplete, failed,
  packet, read_round, process, receive, run, slice,
}

Round-cases :
    {P : Type 0} (r : Round P)
    → ((r ≡ incomplete) ⊎ (r ≡ failed))
      ⊎ ((size : ℤ) × ((r ≡ packet size none) ⊎ ((v : P) × (r ≡ packet size (some v)))))
Round-cases incomplete = inl (inl refl)
Round-cases failed = inl (inr refl)
Round-cases (packet size none) = inr (size, inl refl)
Round-cases (packet size (some v)) = inr (size, inr (v, refl))

Status-cases :
    (now : Status)
    → (now ≡ waiting) ⊎ (((now ≡ stopped) ⊎ (now ≡ exited)) ⊎ ((now ≡ thrown) ⊎ (now ≡ spinning)))
Status-cases waiting = inl refl
Status-cases stopped = inr (inl (inl refl))
Status-cases exited = inr (inl (inr refl))
Status-cases thrown = inr (inr (inl refl))
Status-cases spinning = inr (inr (inr refl))

module _ {S P : Type 0} (Q : S → Type 0) (create_from : R (Option P)) (on_event : S → P → S × Bool)
    (keeps : (s : S) (p : P) → Q s → Q (on_event s p).0) where
  -- A predicate that the handler keeps is kept by the inner loop, on any bytes and any fuel.
  process_keeps :
      (n : ℕ) (st : State S) → Q st.session → Q (process create_from on_event n st).session
  unfolding process
  process_keeps zero st q = q
  process_keeps (suc n) st q = elim (Round-cases (read_round create_from st.receive_buffer)) [
    | inl (inl e) ↦ rw (e, process) q
    | inl (inr e) ↦ rw (e, process) q
    | inr (size, inl e) ↦ rw (e, process) q
    | inr (size, inr (v, e)) ↦ elim (Bool-cases (on_event st.session v).1) [
      | inl more ↦
          rw (e, process, more)
            (process_keeps n
              (record st {
                receive_buffer = slice st.receive_buffer size;
                session = (on_event st.session v).0;
              })
              (keeps st.session v q))
      | inr over ↦ rw (e, process, over) (keeps st.session v q)
    ]
  ]

  receive_keeps :
      (st : State S) (a : Arrival) → Q st.session → Q (receive create_from on_event st a).session
  unfolding receive
  receive_keeps st a q = elim (Status-cases st.status) [
    | inl e ↦ elim (Bool-cases a.alive) [
      | inl there ↦
          rw (e, receive, there)
            (process_keeps (suc (length (st.receive_buffer ++ a.bytes)))
              (record st { receive_buffer = st.receive_buffer ++ a.bytes }) q)
      | inr gone ↦ rw (e, receive, gone) q
    ]
    | inr (inl (inl e)) ↦ rw (e, receive) q
    | inr (inl (inr e)) ↦ rw (e, receive) q
    | inr (inr (inl e)) ↦ rw (e, receive) q
    | inr (inr (inr e)) ↦ rw (e, receive) q
  ]

  -- And so it is by the whole loop, whatever arrives.
  pub run_keeps :
      (st : State S) (arrivals : List Arrival)
      → Q st.session
      → Q (run create_from on_event st arrivals).session
  unfolding run
  run_keeps st [] q = q
  run_keeps st (a ∷ rest) q =
      run_keeps (receive create_from on_event st a) rest (receive_keeps st a q)
