-- ===== src/Jobs.antt =====
-- internal/jobs: the outbox processor and the scheduler, and the outbox adapter of
-- cmd/bot/main.go between the processor and the repository.
pub mod Scheduler
use streaming_bot.Prelude.{
  ℕ, ◌*◌, Text, text, text_eq, List, [], ◌∷◌, map, ltb, Bool, true, false, not, ◌&&◌, Option, none,
  some, if◌then◌else◌,
}
use streaming_bot.Prelude.Int.{ℤ, pos, pos_part, ltb_ℤ}
use streaming_bot.Exec.{Result, ok, err, ◌>>=◌, ◌>>◌, pure, attempt, ignore}
use streaming_bot.World
use streaming_bot.World.{World, Io}
use streaming_bot.Storage.Outbox.{unpublished, mark_published}
use streaming_bot.App.IssueAccess
use streaming_bot.App.IssueAccess.{Handler}

-- `jobs.OutboxEvent`
pub record OutboxEvent : Type 0 where
  pub id : Text
  pub event_type : Text
  pub purchase_id : Text

abbrev pub to_job : World.OutboxEvent → OutboxEvent
to_job e = record { id = e.id; event_type = e.event_type; purchase_id = e.purchase_id }

module _ (h : Handler) where
  -- `if err != nil { continue }`
  unfoldable pub after_issue : Result (Unit {0}) → OutboxEvent → Io Unit
  after_issue (ok _) e = ignore (mark_published e.id)
  after_issue (err _) e = pure tt

  -- One round of the loop; an event of another type is left alone.
  unfoldable pub process_event : OutboxEvent → Io Unit
  process_event e =
      if text_eq e.event_type (text "purchase_confirmed")
      then (do r ← attempt (IssueAccess.handle h e.purchase_id); after_issue r e)
      else pure tt

  unfoldable pub process_all : List OutboxEvent → Io Unit
  process_all [] = pure tt
  process_all (e ∷ es) = process_event e >> process_all es

  unfoldable pub run_once : Io Unit
  run_once = do events ← unpublished (pos 20); process_all (map to_job events)

-- What befalls the scheduler: its ticker fires, its context is cancelled, and its `select` takes a
-- tick or the end of the context, whichever it picks where both are ready.
pub data Signal : Type 0 where
  fired cancelled took_tick took_done : Signal

-- `NewScheduler`, in microseconds: 30 seconds by default.
unfoldable pub new_scheduler : ℤ → ℕ
new_scheduler interval = if ltb_ℤ (pos 0) interval then pos_part interval else 30 * 1000000

-- The ticker's channel, which holds one tick, the context, and whether the loop has returned.
pub record Loop : Type 0 where
  pub tick_waits : Bool
  pub is_cancelled : Bool
  pub has_returned : Bool

abbrev pub waiting : Loop
waiting = record { tick_waits = false; is_cancelled = false; has_returned = false }

-- `if job != nil`; an error of the job is dropped.
abbrev pub round : Option (Io Unit) → World → World
round none w = w
round (some job) w = (job w).1

-- A tick that finds the channel full is lost. `select` takes only what is ready, and nothing after
-- the loop has returned.
unfoldable pub receive : Option (Io Unit) → Signal → Loop → World → Loop × World
receive job fired l w = (record l { tick_waits = true }, w)
receive job cancelled l w = (record l { is_cancelled = true }, w)
receive job took_tick l w =
    if l.tick_waits && not l.has_returned
    then (record l { tick_waits = false }, round job w)
    else (l, w)
receive job took_done l w = if l.is_cancelled then (record l { has_returned = true }, w) else (l, w)

unfoldable pub receive_all : Option (Io Unit) → List Signal → Loop → World → Loop × World
receive_all job [] l w = (l, w)
receive_all job (s ∷ signals) l w =
    let (l', w') = receive job s l w in receive_all job signals l' w'

-- `Start`
unfoldable pub start : Option (Io Unit) → List Signal → World → Loop × World
start job signals w = receive_all job signals waiting w
