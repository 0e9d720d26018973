-- ===== src/Wiring/Restarts.antt =====
-- What holds of the tables, however often the program is started.
use streaming_bot.Prelude.{◌<◌, Text, true, false, List, [], ◌∷◌, ◌≡◌, any}
use mathlib.Core.Path.{subst}
use streaming_bot.World.{World}
use streaming_bot.Platform.Config.{load}
use streaming_bot.System.Reach.{initial}
use streaming_bot.System.Sound.{confirmations, has_grant, has_row, is_pending}
use streaming_bot.Threads.Rely.{Rely, Free, Safe-run}
use streaming_bot.Threads.Quiet.Allows.{Allows}
use streaming_bot.Threads.Settled.Allowed.{paid-Allows}
use streaming_bot.Threads.Pool.Safe.{play-AllSafe}
use streaming_bot.Threads.Pool.Paid.{initial-IsPaidFor}
use streaming_bot.Wiring.{Services, issue_access_uc}
use streaming_bot.Wiring.Main.{
  Launch, stopped, running, unfinished, Occurrence, Run, start_up, moves, go_on, main, restarted,
}
use streaming_bot.Wiring.Starting.{starting_loaded, starting_loaded-IsQuiet}

module _ {R : Rely} (a : Allows R) where
  open R use {holds, extends, same, later}

  start_up-Keeps :
      (r : Run) (w : World)
      → holds w.db
      → holds (start_up r.services r.getenv r.fuel w).1.db
        × extends w.db (start_up r.services r.getenv r.fuel w).1.db
  unfolding start_up
  start_up-Keeps r w i =
      let t = starting_loaded r.services r.fuel (load r.getenv) in
      subst (λ m. holds (m w).1.db × extends w.db (m w).1.db) t.alone
        (Safe-run R (Free R) t.prog w
          ((starting_loaded-IsQuiet a r.services r.fuel (load r.getenv)).guards.at w.db tt) i)

  go_on-Keeps :
      (s : Services) (l : Launch) (os : List Occurrence) (w : World)
      → holds w.db
      → holds (go_on s l os w).db × extends w.db (go_on s l os w).db
  unfolding go_on
  go_on-Keeps s stopped os w i = (i, same w.db)
  go_on-Keeps s unfinished os w i = (i, same w.db)
  go_on-Keeps s (running cfg bot) os w i =
      let (j, x, _) =
        play-AllSafe R (issue_access_uc s cfg bot) a (moves s cfg bot os)
          (record { world = record w { admins = [] }; threads = [] }) i tt in
      (j, x)

  pub main-Keeps :
      (r : Run) (w : World) → holds w.db → holds (main r w).db × extends w.db (main r w).db
  unfolding main
  main-Keeps r w i =
      let (j, x) = start_up-Keeps r w i in
      let (k, y) = go_on-Keeps r.services _ r.occurrences _ j in (k, later x y)

  pub restarted-Keeps :
      (rs : List Run) (w : World)
      → holds w.db
      → holds (restarted rs w).db × extends w.db (restarted rs w).db
  unfolding restarted
  restarted-Keeps [] w i = (i, same w.db)
  restarted-Keeps (r ∷ rs) w i =
      let (j, x) = main-Keeps r w i in
      let (k, y) = restarted-Keeps rs (main r w) j in (k, later x y)

-- However often the program is started, each time with any settings and any services, and stops
-- after any turns of its threads, with what they had still to do lost: a purchase that has a grant
-- has a confirmation in the outbox and a row, and none of its rows is pending.
pub restarted_is_paid :
    (rs : List Run) (k : Text)
    → has_grant k (restarted rs initial).db ≡ true
    → (0 < confirmations k (restarted rs initial).db)
      × (has_row k (restarted rs initial).db.purchases ≡ true)
      × (any (is_pending k) (restarted rs initial).db.purchases ≡ false)
restarted_is_paid rs k granted =
    let (paid, _) = restarted-Keeps (paid-Allows k) rs initial (initial-IsPaidFor k) in
    let settled = paid.confirmed (paid.granted granted) in
    (paid.granted granted, settled.row, settled.late)
