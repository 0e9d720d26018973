-- ===== src/Storage/Outbox.antt =====
-- postgres/outbox_repo.go, over the table `outbox_events` of schema.go, and the adapter of
-- cmd/bot/main.go that passes its rows on to the jobs.
pub mod Order
use streaming_bot.Prelude.{
  ℕ, suc, ◌*◌, Text, text, text_eq, List, [], ◌∷◌, ◌++◌, Bool, true, false, not, ltb, find, any,
  select, take, map, update_where, if◌then◌else◌,
}
use streaming_bot.Prelude.Int.{ℤ, pos, negsuc, pos_part, ltb_ℤ}
use streaming_bot.Prelude.Decimal.{decimal}
use streaming_bot.Exec.{Exec, ok, err, gets, violation, ◌>>=◌, pure}
use streaming_bot.World.{World, Db, OutboxEvent, Io, sql, time_now}

-- The row gets `created_at` from `DEFAULT NOW()`.
abbrev pub new_event : Text → Text → ℕ → OutboxEvent
new_event id purchase_id now = record {
  id = id;
  event_type = text "purchase_confirmed";
  purchase_id = purchase_id;
  created_at = now;
  published = false;
}

unfoldable pub insert_row : Text → Text → Exec Db Unit
insert_row id purchase_id d =
    if any (λ q. text_eq q.id id) d.outbox_events
    then (err (violation (text "outbox_events_pkey")), d)
    else (
      ok tt,
      record d { outbox_events = d.outbox_events ++ new_event id purchase_id d.now ∷ [] },
    )

-- `fmt.Sprintf("%d-%s", time.Now().UnixNano(), purchaseID)`
unfoldable pub event_id : ℕ → Text → Text
event_id now purchase_id = decimal (now * 1000) ++ text "-" ++ purchase_id

unfoldable pub publish_purchase_confirmed : Text → Io Unit
publish_purchase_confirmed purchase_id = do
  now ← time_now
  sql (insert_row (event_id now purchase_id) purchase_id)

insert_by_created : OutboxEvent → List OutboxEvent → List OutboxEvent
insert_by_created e [] = e ∷ []
insert_by_created e (f ∷ l) =
    if ltb f.created_at e.created_at then f ∷ insert_by_created e l else e ∷ f ∷ l

-- `ORDER BY created_at ASC`; rows of one time stay in insertion order.
unfoldable pub order_by_created : List OutboxEvent → List OutboxEvent
unfolding insert_by_created
order_by_created [] = []
order_by_created (e ∷ l) = insert_by_created e (order_by_created l)

-- `if limit <= 0 { limit = 20 }`
abbrev pub limit_or_default : ℤ → ℕ
limit_or_default limit = if ltb_ℤ (pos 0) limit then pos_part limit else 20

-- The rows that `Unpublished` returns.
abbrev pub pending_rows : ℤ → Db → List OutboxEvent
pending_rows limit d =
    take (limit_or_default limit) (order_by_created (select (λ e. not e.published) d.outbox_events))

unfoldable pub unpublished : ℤ → Io (List OutboxEvent)
unpublished limit = sql (gets (pending_rows limit))

unfoldable pub mark_published_row : Text → Exec Db Unit
mark_published_row id d = (
  ok tt,
  record d {
    outbox_events =
        update_where (λ e. text_eq e.id id) (λ e. record e { published = true }) d.outbox_events;
  },
)

unfoldable pub mark_published : Text → Io Unit
mark_published id = sql (mark_published_row id)
