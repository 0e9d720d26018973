-- ===== src/Threads/Pool/Writes.antt =====
-- The four writes of a confirmation, in a world without faults, once and once more.
use streaming_bot.Prelude.{
  ℕ, ◌+◌, text_eq, [], ◌∷◌, ◌++◌, true, false, not, ◌&&◌, any, ◌≡◌, ◌≢◌, arith,
}
use streaming_bot.Prelude.Tables.{count-append, any-append, any-update_where_same}
use streaming_bot.Exec.{ok, ◌>>=◌}
use streaming_bot.World.{World, Db, sql, time_now}
use streaming_bot.Domain.Payment.{Event}
use streaming_bot.Domain.Purchase.{Purchase}
use streaming_bot.Storage.Purchases
use streaming_bot.Storage.Purchases.{to_row, of_row, select_one}
use streaming_bot.Storage.Payments.{insert_event, save_payment_event, insert_key, mark_processed}
use streaming_bot.Storage.Outbox
use streaming_bot.Storage.Outbox.{event_id, publish_purchase_confirmed}
use streaming_bot.Prelude.Int.{pos, is_int4}
use streaming_bot.System.Sound.{confirmations}
use streaming_bot.Threads.UseCases.{write_paid}

-- The tables after the four writes.
abbrev pub written : Event → Purchase → ℕ → Db → Db
written e p now d =
    (insert_key e.charge_id
      (Outbox.insert_row (event_id now p.id) p.id
        (insert_event e (Purchases.update_row (to_row p) d).1).1).1).1

-- Nothing is in the way of the writes.
pub record CanWrite (e : Event) (p : Purchase) (now : ℕ) (d : Db) : Type 0 where
  pub counted : is_int4 (pos p.issue_link_attempts) ≡ true
  pub fits : is_int4 e.amount_stars ≡ true
  pub alone :
      any (λ q. not (text_eq q.id p.id) && Purchases.clashes (to_row p) q) d.purchases ≡ false
  pub fresh : any (λ q. text_eq q.id (event_id now p.id)) d.outbox_events ≡ false

module _ (e : Event) (p : Purchase) where
  update-ok :
      (now : ℕ) (d : Db) → CanWrite e p now d → (Purchases.update_row (to_row p) d).0 ≡ ok tt
  unfolding Purchases.update_row to_row
  update-ok now d c = ground arith

  insert_event-ok : (d : Db) → is_int4 e.amount_stars ≡ true → (insert_event e d).0 ≡ ok tt
  unfolding insert_event
  insert_event-ok d fits = ground arith

  same_outbox :
      (d : Db)
      → (insert_event e (Purchases.update_row (to_row p) d).1).1.outbox_events ≡ d.outbox_events
  unfolding insert_event Purchases.update_row
  same_outbox d = ground arith

  publish-ok :
      (now : ℕ) (d : Db)
      → CanWrite e p now d
      → (Outbox.insert_row
          (event_id now p.id)
          p.id
          (insert_event e (Purchases.update_row (to_row p) d).1).1).0
        ≡ ok tt
  unfolding Outbox.insert_row
  publish-ok now d c = ground (arith, same_outbox d)

  pub write_paid-calm :
      (w : World)
      → w.net ≡ []
      → CanWrite e p w.clock w.db
      → write_paid e p w ≡ (ok tt, record w { db = written e p w.clock w.db })
  unfolding Purchases.update save_payment_event publish_purchase_confirmed mark_processed insert_key
      sql ◌>>=◌ time_now
  write_paid-calm w calm c = ground (
    arith,
    update-ok w.clock w.db c,
    insert_event-ok (Purchases.update_row (to_row p) w.db).1 c.fits,
    publish-ok w.clock w.db c,
  )

  written-outbox :
      (now : ℕ) (d : Db)
      → CanWrite e p now d
      → (written e p now d).outbox_events
        ≡ d.outbox_events
          ++ Outbox.new_event
              (event_id now p.id)
              p.id
              (insert_event e (Purchases.update_row (to_row p) d).1).1.now
            ∷ []
  unfolding insert_key Outbox.insert_row
  written-outbox now d c = ground (arith, same_outbox d)

  pub written-confirmations :
      (now : ℕ) (d : Db)
      → CanWrite e p now d
      → confirmations p.id (written e p now d) ≡ confirmations p.id d + 1
  written-confirmations now d c = ground (
    arith,
    written-outbox now d c,
    count-append (λ q. text_eq q.purchase_id p.id) d.outbox_events
        (Outbox.new_event (event_id now p.id) p.id
          (insert_event e (Purchases.update_row (to_row p) d).1).1.now),
  )

  written-purchases :
      (now : ℕ) (d : Db)
      → (written e p now d).purchases ≡ (Purchases.update_row (to_row p) d).1.purchases
  unfolding insert_key Outbox.insert_row insert_event
  written-purchases now d = ground arith

  update-alone :
      (d : Db)
      → any (λ q. not (text_eq q.id p.id) && Purchases.clashes (to_row p) q) d.purchases ≡ false
      → any
          (λ q. not (text_eq q.id p.id) && Purchases.clashes (to_row p) q)
          (Purchases.update_row (to_row p) d).1.purchases
        ≡ false
  unfolding Purchases.update_row to_row
  update-alone d alone = ground (
    arith,
    any-update_where_same (λ q. not (text_eq q.id p.id) && Purchases.clashes (to_row p) q)
        (λ q. text_eq q.id p.id) (λ _. to_row p) d.purchases (λ q same. ground arith),
  )

  -- The same writes once more, under another id of the outbox event.
  pub written-CanWrite :
      (now later : ℕ) (d : Db)
      → event_id later p.id ≢ event_id now p.id
      → CanWrite e p now d
      → CanWrite e p later d
      → CanWrite e p later (written e p now d)
  written-CanWrite now later d other c l = record {
    counted = c.counted;
    fits = c.fits;
    alone = ground (arith, written-purchases now d, update-alone d c.alone);
    fresh = ground (
      arith,
      written-outbox now d c,
      any-append (λ q. text_eq q.id (event_id later p.id)) d.outbox_events
          (Outbox.new_event (event_id now p.id) p.id
            (insert_event e (Purchases.update_row (to_row p) d).1).1.now),
    );
  }
