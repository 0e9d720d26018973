-- ===== src/Threads/Pool/Paid.antt =====
-- However the threads take turns, a purchase that has a grant was paid for.
use streaming_bot.Prelude.{◌<◌, Text, true, List, [], ◌≡◌, arith, any, false}
use streaming_bot.App.IssueAccess.{Handler}
use streaming_bot.System.Reach.{initial}
use streaming_bot.System.Sound.{confirmations, has_grant, has_row, is_pending}
use streaming_bot.Prelude.Tables.{count}
use streaming_bot.Threads.Settled.{IsPaidFor, paid_rely}
use streaming_bot.Threads.Settled.Allowed.{paid-Allows}
use streaming_bot.Threads.Pool.{Pool, Move, play}
use streaming_bot.Threads.Pool.Safe.{play-AllSafe}

-- The start of the program, with no thread.
abbrev pub idle : Pool
idle = record { world = initial; threads = [] }

pub initial-IsPaidFor : (k : Text) → IsPaidFor k initial.db
unfolding any count
initial-IsPaidFor k = ground arith

-- However the threads take turns at each single call (every update of the bot, every request and
-- every round of the jobs is a thread of its own), and whatever the faults of the services, there
-- is no access without a confirmed payment: a purchase that has a grant has a confirmation in the
-- outbox and a row, and none of its rows is pending.
pub interleaved_is_paid :
    (h : Handler) (ms : List Move) (k : Text)
    → has_grant k (play h ms idle).world.db ≡ true
    → (0 < confirmations k (play h ms idle).world.db)
      × (has_row k (play h ms idle).world.db.purchases ≡ true)
      × (any (is_pending k) (play h ms idle).world.db.purchases ≡ false)
interleaved_is_paid h ms k granted =
    let paid = (play-AllSafe (paid_rely k) h (paid-Allows k) ms idle (initial-IsPaidFor k) tt).0 in
    let settled = paid.confirmed (paid.granted granted) in
    (paid.granted granted, settled.row, settled.late)
