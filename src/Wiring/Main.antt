-- ===== src/Wiring/Main.antt =====
-- cmd/bot/main.go as a whole: the start of the program, and what its goroutines take in. A program
-- that runs can stop at any point and be started again.
use streaming_bot.Prelude.{
  ℕ, Text, text, List, [], ◌∷◌, ◌++◌, Option, none, some, Bool, true, false, if◌then◌else◌,
}
use streaming_bot.Exec.{Result, ok, err, attempt, gets, lift, ◌>>=◌, ◌>>◌, pure}
use streaming_bot.World.{World, Cache, Io, Outcome, sql}
use streaming_bot.Platform.Config.{Config, Loaded, loaded, required, load}
use streaming_bot.Telegram.Api.{Update}
use streaming_bot.Http.Server.{Request}
use streaming_bot.Wiring.{
  Services, fill_catalogue, bunny_client, Polling, fatal, disabled, enabled, polling,
  issue_access_uc, api_server, syncs_periodically,
}
use streaming_bot.Threads.Pool.{Move, arrive, turn, pass, telegram, http, work, sync, play}

-- A query of the schema, by what it adds if that does not exist: it is in `Db` already, and a table
-- that is made has no row.
unfoldable pub run_query : Text → Io (Unit {0})
run_query name = sql (gets (λ d. tt))

-- The queries one after the other, up to the first that fails.
unfoldable pub run_queries : List Text → Io (Unit {0})
run_queries [] = pure tt
run_queries (name ∷ names) = run_query name >> run_queries names

-- `EnsureSchema`: eight tables, and a column of the second one.
unfoldable pub ensure_schema : Io (Unit {0})
ensure_schema = run_queries (
    text "users"
    ∷ text "content"
    ∷ text "content.description"
    ∷ text "purchases"
    ∷ text "access_grants"
    ∷ text "reviews"
    ∷ text "payment_events"
    ∷ text "idempotency_keys"
    ∷ text "outbox_events"
    ∷ [])

-- What the start comes to: `log.Fatalf`, a program that runs, or too little fuel for the pages.
pub data Launch : Type 0 where
  stopped : Launch
  running : Config → Polling → Launch
  unfinished : Launch

abbrev pub with_bot : Config → Polling → Launch
with_bot cfg fatal = stopped
with_bot cfg disabled = running cfg disabled
with_bot cfg (enabled b) = running cfg (enabled b)

abbrev pub launched : Services → Config → Result (Option Bool) → Launch
launched s cfg (err e) = stopped
launched s cfg (ok none) = unfinished
launched s cfg (ok (some false)) = stopped
launched s cfg (ok (some true)) = with_bot cfg (polling s cfg)

unfoldable pub connect : Services → Config → ℕ → Io (Option Bool)
connect s cfg fuel = do
  lift s.opened
  ensure_schema
  lift s.store_made
  lift s.pinged
  fill_catalogue s cfg fuel

unfoldable pub start_loaded : Services → ℕ → Loaded → Io Launch
start_loaded s fuel (required name) = pure stopped
start_loaded s fuel (loaded cfg) = attempt (connect s cfg fuel) >>= λ on. pure (launched s cfg on)

-- `main` up to its goroutines.
unfoldable pub start_up : Services → (Text → Text) → ℕ → Io Launch
start_up s getenv fuel = start_loaded s fuel (load getenv)

-- What a running program meets.
pub data Occurrence : Type 0 where
  update : Update → Occurrence
  request : Request → Occurrence
  outbox_tick : Occurrence
  sync_tick : ℕ → Occurrence
  turn_taken : ℕ → Occurrence
  passed : ℕ → ℕ → List ℕ → Cache → List Outcome → Occurrence

module _ (s : Services) (cfg : Config) where
  -- Updates arrive where the bot is enabled alone.
  abbrev pub updated : Polling → Update → List Move
  updated (enabled b) u = arrive (telegram b u) ∷ []
  updated disabled u = []
  updated fatal u = []

  abbrev pub moves_of : Polling → Occurrence → List Move
  moves_of bot (update u) = updated bot u
  moves_of bot (request r) = arrive (http (api_server s cfg) r) ∷ []
  moves_of bot outbox_tick = arrive work ∷ []
  moves_of bot (sync_tick fuel) =
      if syncs_periodically cfg
      then arrive (sync s.api (bunny_client cfg) fuel cfg.bunny_default_price) ∷ []
      else []
  moves_of bot (turn_taken i) = turn i ∷ []
  moves_of bot (passed now clock entropy cache net) = pass now clock entropy cache net ∷ []

  unfoldable pub moves : Polling → List Occurrence → List Move
  moves bot [] = []
  moves bot (o ∷ os) = moves_of bot o ++ moves bot os

-- The threads of the goroutines, from the world that the start left. The bot is new, and has no
-- admins yet.
unfoldable pub go_on : Services → Launch → List Occurrence → World → World
go_on s stopped os w = w
go_on s unfinished os w = w
go_on s (running cfg bot) os w =
    (play (issue_access_uc s cfg bot) (moves s cfg bot os)
      (record { world = record w { admins = [] }; threads = [] })).world

-- One start of the program, with its environment, and what it meets until it stops.
pub record Run : Type 0 where
  pub services : Services
  pub getenv : Text → Text
  pub fuel : ℕ
  pub occurrences : List Occurrence

abbrev launch_of : Result Launch → Launch
launch_of (ok l) = l
launch_of (err e) = stopped

unfoldable pub main : Run → World → World
main r w =
    let (l, w') = start_up r.services r.getenv r.fuel w in
    go_on r.services (launch_of l) r.occurrences w'

unfoldable pub restarted : List Run → World → World
restarted [] w = w
restarted (r ∷ rs) w = restarted rs (main r w)
