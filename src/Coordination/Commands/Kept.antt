-- ===== src/Coordination/Commands/Kept.antt =====
-- How often the promises of zerosugar/xr/service/coordination/node/game_server.cpp are settled.
use zerosugar.Prelude.{
  ℕ, ◌+◌, ◌<◌, ◌≤◌, ◌≡◌, ◌==◌, refl, true, Option, none, some, List, [], ◌∷◌, ◌++◌, if◌then◌else◌,
  contains, count, count-erase, arith, Bool-cases, inl, inr,
}
use zerosugar.Coordination.Commands.{
  Outcome, GameServer, new_server, broken, shut_down, mark, send_command, send_command_awaited,
  Call, shuts_down, closes_channel, sends, sends_awaited, succeeds, fails, call, call_all, set,
  exception,
}

-- How often the promise of a command is settled, and how often the command is sent.
abbrev pub settlements : ℕ → List (ℕ × Outcome) → ℕ
settlements id [] = 0
settlements id ((j, outcome) ∷ rest) = (if j == id then 1 else 0) + settlements id rest

abbrev pub sendings : ℕ → List (Option ℕ) → ℕ
sendings id [] = 0
sendings id (none ∷ rest) = sendings id rest
sendings id (some j ∷ rest) = (if j == id then 1 else 0) + sendings id rest

-- How often a promise waits; after the shutdown the map is not looked at any more.
abbrev pub waiting : ℕ → GameServer → ℕ
waiting id s = if s.shutdown then 0 else count id s.response_waits

settlements-append :
    (id : ℕ) (xs ys : List (ℕ × Outcome))
    → settlements id (xs ++ ys) ≡ settlements id xs + settlements id ys
settlements-append id [] ys = omega arith
settlements-append id ((j, outcome) ∷ rest) ys = omega (arith, settlements-append id rest ys)

settlements-broken : (id : ℕ) (ids : List ℕ) → settlements id (broken ids) ≡ count id ids
settlements-broken id [] = refl
settlements-broken id (j ∷ ids) = omega (arith, settlements-broken id ids)

pub sendings-append :
    (id : ℕ) (xs ys : List (Option ℕ)) → sendings id (xs ++ ys) ≡ sendings id xs + sendings id ys
sendings-append id [] ys = omega arith
sendings-append id (none ∷ rest) ys = sendings-append id rest ys
sendings-append id (some j ∷ rest) ys = omega (arith, sendings-append id rest ys)

pub contains_lem : (id : ℕ) (ids : List ℕ) → contains id ids ≡ true → 0 < count id ids
contains_lem id [] e = cc
contains_lem id (j ∷ ids) e = ground (arith, contains_lem id ids)

pub record IsKept (s : GameServer) : Type 0 where
  pub kept : (id : ℕ) → settlements id s.settled + waiting id s ≡ sendings id s.sent
  pub once : (id : ℕ) → sendings id s.sent ≤ 1
  pub fresh : (id : ℕ) → s.next_command_response_id < id → sendings id s.sent ≡ 0

shut_down-IsKept : (s : GameServer) → IsKept s → IsKept (shut_down s)
unfolding shut_down
shut_down-IsKept s v = elim (Bool-cases s.shutdown) [
  | inl e ↦
      rw (e, shut_down)
        (record { kept = λ id. ground (arith, v.kept id, e); once = v.once; fresh = v.fresh })
  | inr e ↦
      rw (e, shut_down)
        (record {
          kept = λ id. ground (
            arith,
            e,
            v.kept id,
            settlements-append id s.settled (broken s.response_waits),
            settlements-broken id s.response_waits,
          );
          once = v.once;
          fresh = v.fresh;
        })
]

mark-IsKept : (outcome : Outcome) (s : GameServer) (id : ℕ) → IsKept s → IsKept (mark outcome s id)
unfolding mark
mark-IsKept outcome s id v = elim (Bool-cases s.shutdown) [
  | inl e ↦
      rw (e, mark)
        (record { kept = λ j. ground (arith, v.kept j, e); once = v.once; fresh = v.fresh })
  | inr e ↦ elim (Bool-cases (contains id s.response_waits)) [
    | inl there ↦
        rw (e, there, mark)
          (record {
            kept = λ j. ground (
              arith,
              e,
              v.kept j,
              settlements-append j s.settled ((id, outcome) ∷ []),
              count-erase id j s.response_waits,
              contains_lem id s.response_waits there,
            );
            once = v.once;
            fresh = v.fresh;
          })
    | inr gone ↦
        rw (e, gone, mark)
          (record { kept = λ j. ground (arith, v.kept j, e); once = v.once; fresh = v.fresh })
  ]
]

send_command-IsKept : (s : GameServer) → IsKept s → IsKept (send_command s)
unfolding send_command
send_command-IsKept s v = elim (Bool-cases s.shutdown) [
  | inl e ↦
      rw (e, send_command)
        (record { kept = λ j. ground (arith, v.kept j, e); once = v.once; fresh = v.fresh })
  | inr e ↦ elim (Bool-cases s.channel_is_open) [
    | inl open_ ↦
        rw (e, open_, send_command)
          (record {
            kept = λ j. ground (arith, v.kept j, e, sendings-append j s.sent (none ∷ []));
            once = λ j. omega (arith, v.once j, sendings-append j s.sent (none ∷ []));
            fresh = λ j late. ground (arith, v.fresh j late, sendings-append j s.sent (none ∷ []));
          })
    | inr shut ↦
        rw (e, shut, send_command)
          (record { kept = λ j. ground (arith, v.kept j, e); once = v.once; fresh = v.fresh })
  ]
]

send_awaited-IsKept : (s : GameServer) → IsKept s → IsKept (send_command_awaited s)
unfolding send_command_awaited
send_awaited-IsKept s v = elim (Bool-cases s.shutdown) [
  | inl e ↦
      rw (e, send_command_awaited)
        (record { kept = λ j. ground (arith, v.kept j, e); once = v.once; fresh = v.fresh })
  | inr e ↦ elim (Bool-cases s.channel_is_open) [
    | inl open_ ↦
        let id : ℕ = s.next_command_response_id + 1 in
        rw (e, open_, send_command_awaited)
          (record {
            kept = λ j. ground (arith, v.kept j, e, sendings-append j s.sent (some id ∷ []));
            once =
                λ j. ground (arith, v.once j, v.fresh id, sendings-append j s.sent (some id ∷ []));
            fresh =
                λ j late. ground (arith, late, v.fresh j, sendings-append j s.sent (some id ∷ []));
          })
    | inr shut ↦
        rw (e, shut, send_command_awaited)
          (record {
            kept = λ j. ground (arith, v.kept j, e);
            once = v.once;
            fresh = λ j late. ground (arith, late, v.fresh j);
          })
  ]
]

call-IsKept : (s : GameServer) (c : Call) → IsKept s → IsKept (call s c)
call-IsKept s shuts_down v = shut_down-IsKept s v
call-IsKept s closes_channel v = record { kept = v.kept; once = v.once; fresh = v.fresh }
call-IsKept s sends v = send_command-IsKept s v
call-IsKept s sends_awaited v = send_awaited-IsKept s v
call-IsKept s (succeeds id) v = mark-IsKept set s id v
call-IsKept s (fails id) v = mark-IsKept exception s id v

pub call_all-IsKept : (s : GameServer) (cs : List Call) → IsKept s → IsKept (call_all s cs)
call_all-IsKept s [] v = v
call_all-IsKept s (c ∷ cs) v = call_all-IsKept (call s c) cs (call-IsKept s c v)

pub new_server-IsKept : IsKept new_server
new_server-IsKept = record { kept = λ id. refl; once = λ id. omega arith; fresh = λ id late. refl }
