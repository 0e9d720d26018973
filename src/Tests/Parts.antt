-- ===== src/Tests/Parts.antt =====
-- The properties of the domain, the storage, the token checks and the jobs, at small worlds.
use streaming_bot.Prelude.{
  ℕ, ◌≤◌, ◌++◌, List, any, text, text_eq, Text-discrete, [], ◌∷◌, none, some, true, find, ◌≡◌, ◌↔◌,
  ◌⊎◌, refl,
}
use streaming_bot.Prelude.Int.{pos}
use streaming_bot.Exec.{ok, ◌>>=◌, attempt, present, raise_if, ignore, gets, pure}
use streaming_bot.World.{World, sql, redis, time_now}
use streaming_bot.Domain.Access.{Grant, is_usable}
use streaming_bot.Storage.Grants.{get_by_token_hash, select_by_hash}
use streaming_bot.Storage.Tokens
use streaming_bot.App.UseAccess.{check, redeem}
use streaming_bot.App.UseAccess.Race.{check-is_usable, double_use}
use streaming_bot.Jobs.{Signal, fired, cancelled, took_tick, took_done}
use streaming_bot.Jobs
use streaming_bot.Jobs.Scheduler.{after, ticks, is_cancel, start_returned}
use streaming_bot.Tests.{client, digest, handler}
use streaming_bot.Tests.Calls.{waiting, row, bought}

row_there : find (λ q. text_eq q.id (text "p1")) waiting.db.purchases ≡ some row
unfolding find Text-discrete
row_there = refl

abbrev grant : Grant
grant = record {
  id = text "g1";
  purchase_id = text "p1";
  user_id = pos 7;
  token_hash = text "ab";
  issued_at = 3;
  expires_at = 5;
  used_at = none;
}

-- The clock is at the expiry.
abbrev door : World
door = record waiting { db = record waiting.db { access_grants = grant ∷ [] } }

grant_there : find (λ q. text_eq q.token_hash (text "ab")) door.db.access_grants ≡ some grant
unfolding find Text-discrete
grant_there = refl

check-is_usable_example :
    ((check digest client (text "ab") door).0 ≡ ok grant)
    ↔ ((is_usable grant 5 ≡ true) ⊎ ((grant.used_at ≡ none) × (door.clock ≡ grant.expires_at)))
check-is_usable_example = check-is_usable digest client (text "ab") door grant refl grant_there

checked : (check digest client (text "ab") door).0 ≡ ok grant
unfolding check Tokens.get Tokens.key get_by_token_hash select_by_hash sql redis time_now ◌>>=◌
    raise_if ignore gets attempt present pure find Text-discrete
checked = refl

double_use_example :
    let first = (check digest client (text "ab") door).1 in
    let second = (check digest client (text "ab") first).1 in
    let marked = redeem digest client (text "ab") grant second in
    ((check digest client (text "ab") first).0 ≡ ok grant)
    × (marked.0 ≡ ok (record { purchase_id = text "p1"; user_id = pos 7; valid = true }))
    × ((redeem digest client (text "ab") grant marked.1).0 ≡ marked.0)
double_use_example = double_use digest client (text "ab") door grant refl checked

-- The second tick finds the first one waiting and is lost; a tick is still taken after the end of the
-- context, and none after the return.
abbrev met : List Signal
met = fired ∷ fired ∷ took_tick ∷ cancelled ∷ fired ∷ took_tick ∷ took_done ∷ []

abbrev met_later : List Signal
met_later = fired ∷ took_tick ∷ []

returned : (Jobs.start (some (Jobs.run_once handler)) met bought).0.has_returned ≡ true
unfolding Jobs.start Jobs.receive_all Jobs.receive
returned = refl

start_returned_example :
    (any is_cancel met ≡ true)
    × ((n : ℕ) × (n ≤ ticks met)
        × ((Jobs.start (some (Jobs.run_once handler)) (met ++ met_later) bought).1
            ≡ after n (Jobs.run_once handler) bought))
start_returned_example = start_returned (Jobs.run_once handler) met met_later bought returned
