-- ===== src/Coordination/Commands/Life.antt =====
-- The life of one promise of zerosugar/xr/service/coordination/node/game_server.cpp, told without the map of
-- the waits: what the calls of a history, one after another, mean for the command with a given id.
use zerosugar.Prelude.{
  ℕ, ◌+◌, ◌≤◌, ◌≡◌, ◌==◌, refl, Bool, true, false, ◌&&◌, List, [], ◌∷◌, ◌++◌, if◌then◌else◌,
  contains, count, arith,
}
use zerosugar.Coordination.Commands.{
  Outcome, broken, Call, shuts_down, closes_channel, sends, sends_awaited, succeeds, fails, set,
  exception, shutdown_exception,
}

pub data Fate : Type 0 where
  unsent awaiting : Fate
  ended : Outcome → Fate

-- An answer, or the shutdown, ends a wait, and else means nothing.
abbrev pub settle : Outcome → Fate → Fate
settle o unsent = unsent
settle o awaiting = ended o
settle o (ended p) = ended p

pub record Promise : Type 0 where
  pub down : Bool
  pub channel_open : Bool
  pub made : ℕ
  pub fate : Fate

abbrev pub new_promise : Promise
new_promise = record { down = false; channel_open = true; made = 0; fate = unsent }

-- The ids are given in order from 1, to every awaited command before the shutdown; the command goes out
-- if the channel is open.
abbrev pub step : ℕ → Promise → Call → Promise
step id v shuts_down = record v { down = true; fate = settle shutdown_exception v.fate }
step id v closes_channel = record v { channel_open = false }
step id v sends = v
step id v sends_awaited = if v.down then v else record v {
  made = v.made + 1;
  fate = if v.channel_open && (v.made + 1 == id) then awaiting else v.fate;
}
step id v (succeeds j) = if j == id then record v { fate = settle set v.fate } else v
step id v (fails j) = if j == id then record v { fate = settle exception v.fate } else v

abbrev pub life : ℕ → Promise → List Call → Promise
life id v [] = v
life id v (c ∷ cs) = life id (step id v c) cs

abbrev pub same_outcome : Outcome → Outcome → Bool
same_outcome set set = true
same_outcome exception exception = true
same_outcome shutdown_exception shutdown_exception = true
same_outcome _ _ = false

abbrev pub went_out : Fate → ℕ
went_out unsent = 0
went_out awaiting = 1
went_out (ended p) = 1

abbrev pub pending : Fate → ℕ
pending unsent = 0
pending awaiting = 1
pending (ended p) = 0

abbrev pub ended_by : Outcome → Fate → ℕ
ended_by o unsent = 0
ended_by o awaiting = 0
ended_by o (ended p) = if same_outcome p o then 1 else 0

-- How often the promise of a command is settled with an outcome.
abbrev pub settlements_by : ℕ → Outcome → List (ℕ × Outcome) → ℕ
settlements_by id o [] = 0
settlements_by id o ((j, p) ∷ rest) =
    (if (j == id) && same_outcome p o then 1 else 0) + settlements_by id o rest

pub settlements_by-append :
    (id : ℕ) (o : Outcome) (xs ys : List (ℕ × Outcome))
    → settlements_by id o (xs ++ ys) ≡ settlements_by id o xs + settlements_by id o ys
settlements_by-append id o [] ys = omega arith
settlements_by-append id o ((j, p) ∷ rest) ys = omega (arith, settlements_by-append id o rest ys)

pub settlements_by-broken :
    (id : ℕ) (o : Outcome) (ids : List ℕ)
    → settlements_by id o (broken ids)
      ≡ (if same_outcome shutdown_exception o then count id ids else 0)
settlements_by-broken id o [] = ground arith
settlements_by-broken id o (j ∷ ids) = ground (arith, settlements_by-broken id o ids)

pub pending-settle : (o : Outcome) (f : Fate) → pending (settle o f) ≡ 0
pending-settle o unsent = refl
pending-settle o awaiting = refl
pending-settle o (ended p) = refl

pub went_out-settle : (o : Outcome) (f : Fate) → went_out (settle o f) ≡ went_out f
went_out-settle o unsent = refl
went_out-settle o awaiting = refl
went_out-settle o (ended p) = refl

pub ended_by-settle :
    (o p : Outcome) (f : Fate)
    → ended_by p (settle o f) ≡ ended_by p f + (if same_outcome o p then pending f else 0)
ended_by-settle o p unsent = ground arith
ended_by-settle o p awaiting = ground arith
ended_by-settle o p (ended q) = ground arith

pub within_sent : (o : Outcome) (f : Fate) → ended_by o f + pending f ≤ went_out f
within_sent o unsent = omega arith
within_sent o awaiting = omega arith
within_sent o (ended q) = ground arith

pub went_out_once : (f : Fate) → went_out f ≤ 1
went_out_once unsent = omega arith
went_out_once awaiting = omega arith
went_out_once (ended q) = omega arith

pub not_contained : (id : ℕ) (ids : List ℕ) → contains id ids ≡ false → count id ids ≡ 0
not_contained id [] e = refl
not_contained id (j ∷ ids) e = ground (arith, not_contained id ids)
