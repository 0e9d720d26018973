-- ===== src/Threads/Settled/Working.antt =====
-- A round of the outbox processor beside other threads: the events that it has read are
-- confirmations, and they stay.
use streaming_bot.Prelude.{◌<◌, Text, true, any, ◌≡◌, sym, ◌∙◌, arith, List, [], ◌∷◌, map}
use streaming_bot.Prelude.Int.{pos}
use streaming_bot.Prelude.Tables.{count_pos_of_any}
use streaming_bot.Exec.{Result, ok, err}
use streaming_bot.World.{Db}
use streaming_bot.Storage.Outbox.{unpublished, mark_published, pending_rows}
use streaming_bot.Storage.Outbox.Order.{any_of_any-pending_rows}
use streaming_bot.App.IssueAccess.{Handler}
use streaming_bot.Jobs.{OutboxEvent, to_job}
use streaming_bot.System.Sound.{confirmations}
use streaming_bot.System.Sound.Outbox.{mentions, any-map-to_job}
use streaming_bot.Threads.Issuing.{marking, processing, processing_all, working}
use streaming_bot.Threads.Rely.Guards.{
  Guards, Guards-and_then, Guards-attempted, Guards-branch, Guards-returned, Guards-weaken,
  Guards-forget, Guards-frame,
}
use streaming_bot.Threads.Rely.Calls.{Guards-gets}
use streaming_bot.Threads.Settled.{paid_rely}
use streaming_bot.Threads.Settled.Statements.{mark_published-Keeps}
use streaming_bot.Threads.Rely.Keeping.{Any}
use streaming_bot.Threads.Settled.{Stays}
use streaming_bot.Threads.Quiet.{IsQuiet, ignored-IsQuiet, sql-IsQuiet, returned-IsQuiet}
use streaming_bot.Threads.Settled.Issuing.{Confirmed, issuing-guards}

module _ (k : Text) (h : Handler) where
  abbrev Read : List OutboxEvent → Db → Type 0
  Read es d = mentions k es ≡ true → 0 < confirmations k d

  marking-IsQuiet :
      (r : Result (Unit {0})) (e : OutboxEvent) → IsQuiet (paid_rely k) (marking h r e)
  unfolding marking mark_published
  marking-IsQuiet (ok _) e =
      ignored-IsQuiet (sql-IsQuiet _ (λ d i. mark_published-Keeps k d i e.id))
  marking-IsQuiet (err _) e = returned-IsQuiet tt

  processing-guards :
      (e : OutboxEvent)
      → Guards (paid_rely k) (Confirmed k e.purchase_id) (processing h e) (λ _. Any)
  unfolding processing
  processing-guards e =
      Guards-branch (paid_rely k) _
        (Guards-and_then (paid_rely k)
          (Guards-forget (paid_rely k)
            (Guards-attempted (paid_rely k) (issuing-guards k h e.purchase_id)))
          λ r. (marking-IsQuiet r e).guards)
        (Guards-returned (paid_rely k) tt (λ d p. tt))

  Read-Stays : (es : List OutboxEvent) → Stays k (Read es)
  Read-Stays es d e x h = λ there. x.confirmed (h there)

  processing_all-guards :
      (es : List OutboxEvent) → Guards (paid_rely k) (Read es) (processing_all h es) (λ _. Any)
  unfolding processing_all any
  processing_all-guards [] = Guards-returned (paid_rely k) tt (λ d p. tt)
  processing_all-guards (e ∷ es) =
      Guards-and_then (paid_rely k)
        (Guards-weaken (paid_rely k)
          (λ d read. (λ same. read (ground arith), λ there. read (ground arith)))
          (Guards-frame (paid_rely k) (Read es) (Read-Stays es) (processing-guards e)))
        λ _. Guards-weaken (paid_rely k) (λ d p. p.1) (processing_all-guards es)

  pending_rows-Read : (d : Db) → Read (map to_job (pending_rows (pos 20) d)) d
  pending_rows-Read d there = count_pos_of_any _ d.outbox_events (
      any_of_any-pending_rows _ (pos 20) d
        (sym (any-map-to_job k (pending_rows (pos 20) d)) ∙ there))

  pub working-guards : Guards (paid_rely k) Any (working h) (λ _. Any)
  unfolding working unpublished
  working-guards =
      Guards-and_then (paid_rely k)
        (Guards-gets (paid_rely k) (λ d e x a. tt) (pending_rows (pos 20))
          (λ es. Read (map to_job es)) (λ d i a. pending_rows-Read d))
        λ es. processing_all-guards (map to_job es)
