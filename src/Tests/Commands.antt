-- ===== src/Tests/Commands.antt =====
-- Commands and their answers at concrete inputs.
use zerosugar.Prelude.{◌≡◌, refl, List, [], ◌∷◌, erase}
use zerosugar.Coordination.Commands.{
  new_server, Call, sends_awaited, succeeds, shuts_down, call_all, shut_down, mark,
  send_command_awaited, set, shutdown_exception,
}
use zerosugar.Coordination.Commands.Life.{ended, new_promise, life}

abbrev calls : List Call
calls = sends_awaited ∷ sends_awaited ∷ succeeds 2 ∷ succeeds 2 ∷ shuts_down ∷ succeeds 1 ∷ []

test_settled : (call_all new_server calls).settled ≡ (2, set) ∷ (1, shutdown_exception) ∷ []
unfolding send_command_awaited mark shut_down erase
test_settled = refl

-- The life that the witness tells: the shutdown ends the wait for the first command.
test_life : (life 1 new_promise calls).fate ≡ ended shutdown_exception
test_life = refl
