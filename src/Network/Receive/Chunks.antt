-- ===== src/Network/Receive/Chunks.antt =====
-- The receive loop on a stream of whole packets that comes in buffers of any sizes.
use native.Mathlib.Decide.{dec_lt}
use zerosugar.Prelude.{
  ℕ, zero, suc, ◌≤◌, ◌<◌, ◌≡◌, refl, sym, ◌∙◌, ap, Bool, some, List, [], ◌∷◌, ◌++◌, arith, length,
  length-append, append_assoc, drop, append_cut, length-drop, true, false, ◌⊎◌, inl, inr, All,
  if◌then◌else◌, append-nil,
}
use zerosugar.Prelude.Int.{pos}
use zerosugar.Network.Receive.{
  State, waiting, exited, Arrival, incomplete, packet, read_round, process, receive, run, slice,
}
use zerosugar.Network.Receive.Frame.{
  Codec, frame, read_round-short, length-frame, read_round-frame, read_round-prefix,
}

-- What the handler makes of whole packets, in order, until it ends the loop.
unfoldable pub handle_all : {S P : Type 0} → (S → P → S × Bool) → S → List P → S × Bool
handle_all on_event s [] = (s, true)
handle_all on_event s (p ∷ ps) =
    let (s', more) = on_event s p in
    let rest = handle_all on_event s' ps in if more then rest else (s', false)

abbrev pub stream_of : List Arrival → List ℕ
stream_of [] = []
stream_of (a ∷ rest) = a.bytes ++ stream_of rest

abbrev pub AllAlive : List Arrival → Type 0
AllAlive [] = Unit
AllAlive (a ∷ rest) = (a.alive ≡ true) × AllAlive rest

module _ {P : Type 0} (c : Codec P) where
  abbrev pub frames : List P → List ℕ
  frames [] = []
  frames (p ∷ ps) = frame c p ++ frames ps

  nil_frames : (ps : List P) → frames ps ≡ [] → ps ≡ []
  nil_frames [] e = refl
  nil_frames (p ∷ ps) e =
      absurd (omega (arith, ap length e, length-append (frame c p) (frames ps), length-frame c p))

module _ {S P : Type 0} (c : Codec P) (on_event : S → P → S × Bool) where
  -- The loop waits, and what it holds and what is to come are the packets not yet handled; or the
  -- handler has ended it.
  abbrev Progress : List ℕ → S × Bool → State S → Type 0
  Progress future target st =
      ((st.status ≡ waiting)
        × (left : List P) × All c.Fits left
        × (st.receive_buffer ++ future ≡ frames c left)
        × (handle_all on_event st.session left ≡ target)
        × (future ≡ [] → left ≡ []))
      ⊎ ((st.status ≡ exited) × ((st.session, false) ≡ target))

  wait_lem :
      (n : ℕ) (st : State S) (future : List ℕ) (ps : List P)
      → st.status ≡ waiting
      → All c.Fits ps
      → st.receive_buffer ++ future ≡ frames c ps
      → (future ≡ [] → ps ≡ [])
      → read_round c.create_from st.receive_buffer ≡ incomplete
      → Progress future
          (handle_all on_event st.session ps)
          (process c.create_from on_event (suc n) st)
  unfolding process
  wait_lem n st future ps w fits e done r = rw (r, process) (inl (w, ps, fits, e, refl, done))

  -- One packet of the stream goes to the handler.
  packet_lem :
      (n : ℕ) (st : State S) (p : P) (ps : List P) (buffer future : List ℕ)
      → st.status ≡ waiting
      → read_round c.create_from st.receive_buffer ≡ packet (pos (length (frame c p))) (some p)
      → slice st.receive_buffer (pos (length (frame c p))) ≡ buffer
      → ((s' : S)
          → on_event st.session p ≡ (s', true)
          → Progress future (handle_all on_event s' ps) (
              process c.create_from on_event n
                (record st { receive_buffer = buffer; session = s' })))
      → Progress future
          (handle_all on_event st.session (p ∷ ps))
          (process c.create_from on_event (suc n) st)
  unfolding process handle_all
  packet_lem n st p ps buffer future w r sl go =
      rw (r, process) (rw sl (split (on_event st.session p) refl))
    where
      split :
          (o : S × Bool)
          → on_event st.session p ≡ o
          → Progress future (if o.1 then handle_all on_event o.0 ps else (o.0, false)) (
              if o.1
              then process c.create_from on_event n
                  (record st { receive_buffer = buffer; session = o.0 })
              else record st { receive_buffer = buffer; session = o.0; status = exited })
      split (s', true) e = go s' e
      split (s', false) e = inr (refl, refl)

  slice-frame :
      (p : P) (buffer : List ℕ)
      → length (frame c p) ≤ length buffer
      → slice buffer (pos (length (frame c p))) ≡ drop (length (frame c p)) buffer
  slice-frame p buffer h = ground arith

  process_lem :
      (n : ℕ) (st : State S) (future : List ℕ) (ps : List P)
      → st.status ≡ waiting
      → All c.Fits ps
      → st.receive_buffer ++ future ≡ frames c ps
      → length st.receive_buffer < n
      → Progress future (handle_all on_event st.session ps) (process c.create_from on_event n st)
  process_lem zero st future ps w fits e fuel = absurd (omega arith)
  process_lem (suc n) st future [] w fits e fuel =
      wait_lem n st future [] w fits e (λ _. refl)
        (read_round-short c.create_from st.receive_buffer
          (omega (arith, ap length e, length-append st.receive_buffer future)))
  process_lem (suc n) st future (p ∷ ps) w fits e fuel =
      elim (dec_lt (length st.receive_buffer) (length (frame c p))) [
        | yes short ↦
            wait_lem n st future (p ∷ ps) w fits e
              (λ q. absurd (
                omega (
                  arith,
                  ap length e,
                  ap length q,
                  length-append st.receive_buffer future,
                  length-append (frame c p) (frames c ps),
                )))
              (read_round-prefix c p st.receive_buffer future (frames c ps) fits.0 e short)
        | no whole ↦
            let (cut, rest) =
              append_cut st.receive_buffer future (frame c p) (frames c ps) e (omega arith) in
            packet_lem n st p ps (drop (length (frame c p)) st.receive_buffer) future w
              (rw cut (read_round-frame c p (drop (length (frame c p)) st.receive_buffer) fits.0))
              (slice-frame p st.receive_buffer (omega arith))
              (λ s' _.
                process_lem n
                  (record st {
                    receive_buffer = drop (length (frame c p)) st.receive_buffer;
                    session = s';
                  })
                  future ps w fits.1 rest
                  (omega
                    (arith, length-drop (length (frame c p)) st.receive_buffer, length-frame c p)))
      ]

  -- Any state that a run of the loop has reached.
  run_lem :
      (arrivals : List Arrival) (st : State S) (target : S × Bool)
      → AllAlive arrivals
      → Progress (stream_of arrivals) target st
      → Progress [] target (run c.create_from on_event st arrivals)
  unfolding run
  run_lem [] st target alive p = p
  run_lem (a ∷ rest) st target alive (inr (x, e)) =
      run_lem rest (receive c.create_from on_event st a) target alive.1
        (unfold receive in rw (x, receive) (inr (x, e)))
  run_lem (a ∷ rest) st target alive (inl (w, left, fits, e, h, done)) =
      run_lem rest (receive c.create_from on_event st a) target alive.1 (
        unfold receive in
        rw (w, receive)
          (rw alive.0 (
            rw (← h) (
              process_lem (suc (length (st.receive_buffer ++ a.bytes)))
                (record st { receive_buffer = st.receive_buffer ++ a.bytes }) (stream_of rest) left
                w fits (append_assoc st.receive_buffer a.bytes (stream_of rest) ∙ e)
                (omega arith)))))

  abbrev Finished : S × Bool → State S → Type 0
  Finished target st =
      (st.session ≡ target.0)
      × (st.status ≡ (if target.1 then waiting else exited))
      × (target.1 ≡ true → st.receive_buffer ≡ [])

  Progress-Finished :
      (target : S × Bool) (st : State S) → Progress [] target st → Finished target st
  Progress-Finished target st (inr (x, e)) = rw (← e) (refl, x, λ q. cc)
  Progress-Finished target st (inl (w, left, fits, e, h, done)) =
      let none_left : left ≡ [] = done refl in
      let all : (st.session, true) ≡ target = unfold handle_all in (rw none_left at h) in
      let nothing : frames c left ≡ [] = rw none_left refl in
      rw (← all) (refl, w, λ _. sym (append-nil st.receive_buffer) ∙ e ∙ nothing)

  -- A connection that carries whole packets: however their bytes are split over the buffers that
  -- arrive, the handler gets exactly these packets, each once and in order, until it ends the loop;
  -- and if it never does, the loop is left waiting with nothing held back.
  pub run_handles_each :
      (arrivals : List Arrival) (s : S) (ps : List P)
      → All c.Fits ps
      → AllAlive arrivals
      → stream_of arrivals ≡ frames c ps
      → let st =
          run c.create_from on_event
            (record { receive_buffer = []; session = s; status = waiting })
            arrivals in
        let (s', more) = handle_all on_event s ps in
        (st.session ≡ s')
        × (st.status ≡ (if more then waiting else exited))
        × (more ≡ true → st.receive_buffer ≡ [])
  run_handles_each arrivals s ps fits alive e = Progress-Finished (handle_all on_event s ps) _ (
      run_lem arrivals (record { receive_buffer = []; session = s; status = waiting })
        (handle_all on_event s ps) alive
        (inl (refl, ps, fits, e, refl, λ q. nil_frames c ps (sym e ∙ q))))
