-- ===== src/Coordination/Commands/Follow.antt =====
-- The operations of zerosugar/xr/service/coordination/node/game_server.cpp follow the life of each promise.
use zerosugar.Prelude.{
  ℕ, ◌+◌, ◌<◌, ◌≡◌, ◌==◌, refl, true, false, none, some, [], ◌∷◌, if◌then◌else◌, contains,
  count-erase, arith, Bool-cases, inl, inr, sym, subst,
}
use zerosugar.Coordination.Commands.{
  Outcome, GameServer, broken, shut_down, mark, send_command, send_command_awaited, shuts_down,
  sends_awaited, set, shutdown_exception,
}
use zerosugar.Coordination.Commands.Kept.{sendings, sendings-append, waiting, contains_lem}
use zerosugar.Coordination.Commands.Life.{
  settle, Promise, step, went_out, pending, ended_by, settlements_by, settlements_by-append,
  settlements_by-broken, pending-settle, went_out-settle, ended_by-settle, within_sent,
  went_out_once, not_contained,
}

pub record Agrees (id : ℕ) (v : Promise) (s : GameServer) : Type 0 where
  pub down : v.down ≡ s.shutdown
  pub channel : v.channel_open ≡ s.channel_is_open
  pub made : v.made ≡ s.next_command_response_id
  pub sent : sendings id s.sent ≡ went_out v.fate
  pub waits : waiting id s ≡ pending v.fate
  pub settled : (o : Outcome) → settlements_by id o s.settled ≡ ended_by o v.fate
  pub fresh : s.next_command_response_id < id → went_out v.fate ≡ 0

module _ (id : ℕ) (v : Promise) (s : GameServer) (a : Agrees id v s) where
  pub shut_down-Agrees : Agrees id (step id v shuts_down) (shut_down s)
  unfolding shut_down
  shut_down-Agrees = elim (Bool-cases s.shutdown) [
    | inl e ↦
        rw (e, shut_down)
          (record {
            down = cc;
            channel = a.channel;
            made = a.made;
            sent = omega (arith, a.sent, went_out-settle shutdown_exception v.fate);
            waits = ground (arith, e, pending-settle shutdown_exception v.fate);
            settled = λ o.
                ground
                  (arith, e, a.waits, a.settled o, ended_by-settle shutdown_exception o v.fate);
            fresh = λ late. omega (arith, a.fresh late, went_out-settle shutdown_exception v.fate);
          })
    | inr e ↦
        rw (e, shut_down)
          (record {
            down = refl;
            channel = a.channel;
            made = a.made;
            sent = omega (arith, a.sent, went_out-settle shutdown_exception v.fate);
            waits = omega (arith, pending-settle shutdown_exception v.fate);
            settled = λ o. ground (
              arith,
              e,
              a.waits,
              a.settled o,
              ended_by-settle shutdown_exception o v.fate,
              settlements_by-append id o s.settled (broken s.response_waits),
              settlements_by-broken id o s.response_waits,
            );
            fresh = λ late. omega (arith, a.fresh late, went_out-settle shutdown_exception v.fate);
          })
  ]

  pub send_awaited-Agrees : Agrees id (step id v sends_awaited) (send_command_awaited s)
  unfolding send_command_awaited
  send_awaited-Agrees = elim (Bool-cases s.shutdown) [
    | inl e ↦
        let e' : v.down ≡ true = cc in
        rw (e, e', send_command_awaited)
          (record {
            down = refl;
            channel = a.channel;
            made = a.made;
            sent = a.sent;
            waits = ground (arith, e, a.waits);
            settled = a.settled;
            fresh = a.fresh;
          })
    | inr e ↦
        let e' : v.down ≡ false = cc in
        elim (Bool-cases s.channel_is_open) [
          | inl open_ ↦
              let open' : v.channel_open ≡ true = cc in
              let here : ℕ = s.next_command_response_id + 1 in
              let new : v.made ≡ s.next_command_response_id = a.made in
              rw (e, e', open_, open', send_command_awaited)
                (record {
                  down = refl;
                  channel = refl;
                  made = omega arith;
                  sent =
                      ground
                        (arith, new, a.sent, a.fresh, sendings-append id s.sent (some here ∷ []));
                  waits = ground (arith, e, new, a.waits, a.fresh, within_sent set v.fate);
                  settled = λ o. ground (arith, new, a.settled o, a.fresh, within_sent o v.fate);
                  fresh = λ late. ground (arith, late, new, a.fresh);
                })
          | inr shut ↦
              let shut' : v.channel_open ≡ false = cc in
              rw (e, e', shut, shut', send_command_awaited)
                (record {
                  down = refl;
                  channel = refl;
                  made = omega (arith, a.made);
                  sent = a.sent;
                  waits = ground (arith, e, a.waits);
                  settled = a.settled;
                  fresh = λ late. ground (arith, late, a.fresh);
                })
        ]
  ]

  pub send_command-Agrees : Agrees id v (send_command s)
  unfolding send_command
  send_command-Agrees = elim (Bool-cases s.shutdown) [
    | inl e ↦
        let nothing : send_command s ≡ s = ground (arith, e) in subst (Agrees id v) (sym nothing) a
    | inr e ↦ elim (Bool-cases s.channel_is_open) [
      | inl open_ ↦
          rw (e, open_, send_command)
            (record {
              down = cc;
              channel = cc;
              made = a.made;
              sent = omega (arith, a.sent, sendings-append id s.sent (none ∷ []));
              waits = ground (arith, e, a.waits);
              settled = a.settled;
              fresh = a.fresh;
            })
      | inr shut ↦
          let nothing : send_command s ≡ s = ground (arith, e, shut) in
          subst (Agrees id v) (sym nothing) a
    ]
  ]

  -- What an answer to the command `j` means.
  abbrev told : Outcome → ℕ → Promise
  told o j = if j == id then record v { fate = settle o v.fate } else v

  idle :
      Agrees id v s
      → waiting id s ≡ 0
      → (o : Outcome) → Agrees id (record v { fate = settle o v.fate }) s
  idle b none_waits o = record {
    down = a.down;
    channel = a.channel;
    made = a.made;
    sent = omega (arith, a.sent, went_out-settle o v.fate);
    waits = omega (arith, pending-settle o v.fate);
    settled = λ p. ground (arith, a.waits, a.settled p, ended_by-settle o p v.fate);
    fresh = λ late. omega (arith, a.fresh late, went_out-settle o v.fate);
  }

  ignored : (o : Outcome) (j : ℕ) → (j ≡ id → waiting id s ≡ 0) → Agrees id (told o j) s
  ignored o j none_waits = elim (Bool-cases (j == id)) [
    | inl it ↦ rw it (idle a (none_waits (ground (arith, it))) o)
    | inr other ↦ rw other a
  ]

  pub mark-Agrees : (o : Outcome) (j : ℕ) → Agrees id (told o j) (mark o s j)
  unfolding mark
  mark-Agrees o j = elim (Bool-cases s.shutdown) [
    | inl e ↦
        let nothing : mark o s j ≡ s = ground (arith, e) in
        subst (Agrees id (told o j)) (sym nothing) (ignored o j (λ q. ground (arith, e)))
    | inr e ↦ elim (Bool-cases (contains j s.response_waits)) [
      | inr gone ↦
          let nothing : mark o s j ≡ s = ground (arith, e, gone) in
          subst (Agrees id (told o j)) (sym nothing)
            (ignored o j (λ q. ground (arith, e, rw q at gone, not_contained id s.response_waits)))
      | inl there ↦
          let down : v.down ≡ false = cc in
          rw (e, there, mark)
            (elim (Bool-cases (j == id)) [
              | inl it ↦ rw it (record {
                down = down;
                channel = a.channel;
                made = a.made;
                sent = omega (arith, a.sent, went_out-settle o v.fate);
                waits = ground (
                  arith,
                  it,
                  e,
                  a.waits,
                  pending-settle o v.fate,
                  within_sent o v.fate,
                  count-erase j id s.response_waits,
                  went_out_once v.fate,
                );
                settled = λ p. ground (
                  arith,
                  it,
                  e,
                  a.waits,
                  a.settled p,
                  ended_by-settle o p v.fate,
                  settlements_by-append id p s.settled ((j, o) ∷ []),
                  contains_lem j s.response_waits there,
                  went_out_once v.fate,
                  within_sent o v.fate,
                );
                fresh = λ late. omega (arith, a.fresh late, went_out-settle o v.fate);
              })
              | inr other ↦ rw other (record {
                down = down;
                channel = a.channel;
                made = a.made;
                sent = a.sent;
                waits = ground (arith, other, e, a.waits, count-erase j id s.response_waits);
                settled = λ p.
                    ground (
                      arith,
                      other,
                      a.settled p,
                      settlements_by-append id p s.settled ((j, o) ∷ []),
                    );
                fresh = a.fresh;
              })
            ])
    ]
  ]
