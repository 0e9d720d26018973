-- ===== src/Storage/Payments.antt =====
-- postgres/event_log_repo.go and idempotency_repo.go, over `payment_events` and
-- `idempotency_keys` of schema.go.
use streaming_bot.Prelude.{Text, text_eq, [], ◌∷◌, ◌++◌, Bool, not, any, if◌then◌else◌}
use streaming_bot.Prelude.Int.{is_int4}
use streaming_bot.Exec.{Exec, ok, err, gets, out_of_range}
use streaming_bot.World.{Db, Io, sql}
use streaming_bot.Domain.Payment.{Event}

-- The range of `amount_stars`, and `ON CONFLICT (charge_id) DO NOTHING`
unfoldable pub insert_event : Event → Exec Db Unit
insert_event e d =
    if not (is_int4 e.amount_stars)
    then (err out_of_range, d)
    else if any (λ q. text_eq q.charge_id e.charge_id) d.payment_events
    then (ok tt, d)
    else (ok tt, record d { payment_events = d.payment_events ++ e ∷ [] })

unfoldable pub save_payment_event : Event → Io Unit
save_payment_event e = sql (insert_event e)

-- Whether the key has a row.
abbrev pub processed : Text → Db → Bool
processed key d = any (λ k. text_eq k key) d.idempotency_keys

unfoldable pub is_processed : Text → Io Bool
is_processed key = sql (gets (processed key))

-- `ON CONFLICT (event_id) DO NOTHING`
unfoldable pub insert_key : Text → Exec Db Unit
insert_key key d =
    if processed key d
    then (ok tt, d)
    else (ok tt, record d { idempotency_keys = d.idempotency_keys ++ key ∷ [] })

unfoldable pub mark_processed : Text → Io Unit
mark_processed key = sql (insert_key key)
