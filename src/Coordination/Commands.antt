-- ===== src/Coordination/Commands.antt =====
-- The commands that the coordination service sends to a game server, and the waits for their answers:
-- zerosugar/xr/service/coordination/node/game_server.cpp. A promise stands as the id of its command;
-- what becomes of the promises, and what goes into the channel, is kept in order. The opcodes and the
-- contents of the commands are left out.
pub mod Kept
pub mod Life
pub mod Follow
pub mod Promises
use zerosugar.Prelude.{
  ℕ, ◌+◌, ◌==◌, Bool, true, false, ◌&&◌, Option, none, some, List, [], ◌∷◌, ◌++◌, if◌then◌else◌,
  erase, contains,
}

pub data Outcome : Type 0 where
  set exception shutdown_exception : Outcome

pub record GameServer : Type 0 where
  pub shutdown : Bool
  pub channel_is_open : Bool
  pub next_command_response_id : ℕ
  pub response_waits : List ℕ
  pub settled : List (ℕ × Outcome)
  pub sent : List (Option ℕ)

abbrev pub new_server : GameServer
new_server = record {
  shutdown = false;
  channel_is_open = true;
  next_command_response_id = 0;
  response_waits = [];
  settled = [];
  sent = [];
}

abbrev pub broken : List ℕ → List (ℕ × Outcome)
broken [] = []
broken (id ∷ ids) = (id, shutdown_exception) ∷ broken ids

-- `Shutdown`: the map of the waits stays as it is.
unfoldable pub shut_down : GameServer → GameServer
shut_down s =
    if s.shutdown
    then s
    else record s { shutdown = true; settled = s.settled ++ broken s.response_waits }

-- `MarkCommandResponseAsSuccess` and `MarkCommandResponseAsFailure`.
unfoldable pub mark : Outcome → GameServer → ℕ → GameServer
mark outcome s id =
    if s.shutdown
    then s
    else if contains id s.response_waits
    then record s {
      settled = s.settled ++ ((id, outcome) ∷ []);
      response_waits = erase id s.response_waits;
    }
    else s

-- `SendCommand(command)`.
unfoldable pub send_command : GameServer → GameServer
send_command s =
    if s.shutdown
    then s
    else if s.channel_is_open
    then record s { sent = s.sent ++ (none ∷ []) }
    else s

-- `SendCommand(command, responseCompletionToken)`.
unfoldable pub send_command_awaited : GameServer → GameServer
send_command_awaited s =
    let id : ℕ = s.next_command_response_id + 1 in
    let s' : GameServer = record s { next_command_response_id = id } in
    if s.shutdown
    then s
    else if s.channel_is_open
    then record s' { response_waits = id ∷ s.response_waits; sent = s.sent ++ (some id ∷ []) }
    else s'

-- What is done to a server; the channel is closed from outside.
pub data Call : Type 0 where
  shuts_down closes_channel sends sends_awaited : Call
  succeeds fails : ℕ → Call

abbrev pub call : GameServer → Call → GameServer
call s shuts_down = shut_down s
call s closes_channel = record s { channel_is_open = false }
call s sends = send_command s
call s sends_awaited = send_command_awaited s
call s (succeeds id) = mark set s id
call s (fails id) = mark exception s id

abbrev pub call_all : GameServer → List Call → GameServer
call_all s [] = s
call_all s (c ∷ cs) = call_all (call s c) cs
