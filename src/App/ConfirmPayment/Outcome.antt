-- ===== src/App/ConfirmPayment/Outcome.antt =====
-- What a confirmation does, and what is lost when it is cut short: the calls of the handler are not
-- one transaction.
use streaming_bot.Prelude.{
  ℕ, Text, text_eq, [], ◌∷◌, ◌++◌, some, true, false, any, find, ◌≡◌, ◌≢◌, refl, arith,
  Text-discrete,
}
use streaming_bot.Prelude.Tables.{any-append}
use streaming_bot.Exec.{
  ok, err, driver, invalid_transition, ◌>>=◌, raise_if, gets, pure, attempt, present, on,
}
use streaming_bot.World.{World, Db, PurchaseRow, done, refused, sql, time_now}
use streaming_bot.Domain.Payment.{Event}
use streaming_bot.Domain.Purchase.{Purchase, paid, mark_paid, status_text, parse_status}
use streaming_bot.Storage.Purchases
use streaming_bot.Storage.Purchases.{to_row, of_row, clashes, update_row, select_one}
use streaming_bot.Storage.Payments.{
  processed, is_processed, insert_event, save_payment_event, insert_key, mark_processed,
}
use streaming_bot.Storage.Outbox
use streaming_bot.Storage.Outbox.{new_event, event_id, publish_purchase_confirmed}
use streaming_bot.App.ConfirmPayment.{handle, confirm}
use streaming_bot.App.ConfirmPayment.Update.{
  paid_purchase, IsDue, IsAlone, after_update, after_update-found, after_update-ok,
  unpublished_same,
}

confirm_calm :
    (e : Event) (r : PurchaseRow) (w : World)
    → w.net ≡ []
    → IsDue e r w.db
    → (after_update e w.clock r w.db).0 ≡ ok tt
    → let d = (insert_event e (after_update e w.clock r w.db).1).1 in
      let o = Outbox.insert_row (event_id w.clock r.id) r.id d in
      o.0 ≡ ok tt → handle e w ≡ (ok tt, record w { db = (insert_key e.charge_id o.1).1 })
unfolding handle confirm is_processed Purchases.get_by_payload select_one Purchases.update
    save_payment_event publish_purchase_confirmed mark_processed insert_event insert_key of_row
    mark_paid sql gets ◌>>=◌ raise_if attempt present on time_now pure
confirm_calm e r w calm due updated published = ground arith

-- An event for a purchase that is paid already, with a charge that is not processed, is refused and
-- changes nothing.
confirm_paid :
    (e : Event) (r : PurchaseRow) (w : World)
    → w.net ≡ []
    → e.charge_id ≢ []
    → processed e.charge_id w.db ≡ false
    → find (λ q. text_eq q.telegram_payload e.invoice_payload) w.db.purchases ≡ some r
    → (of_row r).status ≡ paid
    → handle e w ≡ (err invalid_transition, w)
unfolding handle confirm is_processed Purchases.get_by_payload select_one mark_paid sql gets ◌>>=◌
    raise_if attempt present on time_now
confirm_paid e r w calm given first found is_paid = ground arith

confirm_cut :
    (e : Event) (r : PurchaseRow) (w : World) (t : Text)
    → w.net ≡ done ∷ done ∷ done ∷ done ∷ refused t ∷ []
    → IsDue e r w.db
    → (after_update e w.clock r w.db).0 ≡ ok tt
    → handle e w ≡ (
      err (driver t),
      record w { db = (insert_event e (after_update e w.clock r w.db).1).1; net = [] },
    )
unfolding handle confirm is_processed Purchases.get_by_payload select_one Purchases.update
    save_payment_event publish_purchase_confirmed insert_event of_row mark_paid sql gets ◌>>=◌
    raise_if attempt present on time_now
confirm_cut e r w t cut due updated = ground arith

-- What the four statements leave behind.
pub record HasConfirmed (e : Event) (r : PurchaseRow) (now : ℕ) (d d' : Db) : Type 0 where
  pub is_paid :
      find (λ q. text_eq q.telegram_payload e.invoice_payload) d'.purchases
      ≡ some (to_row (paid_purchase e now (of_row r)))
  pub keyed : processed e.charge_id d' ≡ true
  pub queued : d'.outbox_events ≡ d.outbox_events ++ new_event (event_id now r.id) r.id d.now ∷ []
  pub grants : d'.access_grants ≡ d.access_grants

insert_row-ok :
    (e : Event) (r : PurchaseRow) (w : World)
    → any (λ q. text_eq q.id (event_id w.clock r.id)) w.db.outbox_events ≡ false
    → (Outbox.insert_row
        (event_id w.clock r.id)
        r.id
        (insert_event e (after_update e w.clock r w.db).1).1).0
      ≡ ok tt
unfolding Outbox.insert_row
insert_row-ok e r w fresh = ground (arith, unpublished_same e r w)

insert_key-processed : (key : Text) (d : Db) → processed key (insert_key key d).1 ≡ true
unfolding insert_key
insert_key-processed key d = ground (arith, any-append (λ k. text_eq k key) d.idempotency_keys key)

four_writes :
    (e : Event) (r : PurchaseRow) (w : World)
    → IsDue e r w.db
    → (after_update e w.clock r w.db).0 ≡ ok tt
    → any (λ q. text_eq q.id (event_id w.clock r.id)) w.db.outbox_events ≡ false
    → HasConfirmed e r w.clock w.db
        (insert_key e.charge_id
          (Outbox.insert_row
            (event_id w.clock r.id)
            r.id
            (insert_event e (after_update e w.clock r w.db).1).1).1).1
unfolding insert_key insert_event Outbox.insert_row update_row
four_writes e r w due updated fresh = record {
  is_paid = ground (arith, after_update-found e w.clock r w.db due updated);
  keyed = insert_key-processed _ _;
  queued = ground arith;
  grants = ground arith;
}

-- A first event for a pending purchase, of an amount that fits its column, with the database
-- answering, no other purchase in the way and no outbox event of this id, whatever stands in the
-- tables of the users and of the content (a banned user, an item that is not on sale, or none):
-- the handler, which reads neither, returns no error; the row with the payload becomes the purchase, paid, with the charge and the time; the
-- charge is recorded as processed; the outbox gets exactly one unpublished confirmation of the
-- purchase; and no grant is made.
pub confirm_effects :
    (e : Event) (r : PurchaseRow) (w : World)
    → w.net ≡ []
    → IsDue e r w.db
    → IsAlone e r w.clock w.db
    → any (λ q. text_eq q.id (event_id w.clock r.id)) w.db.outbox_events ≡ false
    → ((handle e w).0 ≡ ok tt) × HasConfirmed e r w.clock w.db (handle e w).1.db
confirm_effects e r w calm due alone fresh =
    let updated = after_update-ok e w.clock r w.db due alone in
    rw (confirm_calm e r w calm due updated (insert_row-ok e r w fresh))
      (refl, four_writes e r w due updated fresh)

unkeyed :
    (e e' : Event) (r : PurchaseRow) (w : World)
    → processed e'.charge_id w.db ≡ false
    → processed e'.charge_id (insert_event e (after_update e w.clock r w.db).1).1 ≡ false
unfolding insert_event update_row
unkeyed e e' r w first = ground arith

found_again :
    (e e' : Event) (r : PurchaseRow) (w : World)
    → IsDue e r w.db
    → e'.invoice_payload ≡ e.invoice_payload
    → (after_update e w.clock r w.db).0 ≡ ok tt
    → find
        (λ q. text_eq q.telegram_payload e'.invoice_payload)
        (insert_event e (after_update e w.clock r w.db).1).1.purchases
      ≡ some (to_row (paid_purchase e w.clock (of_row r)))
unfolding insert_event
found_again e e' r w due same updated =
    ground (arith, after_update-found e w.clock r w.db due updated)

of_row-paid : (p : Purchase) → p.status ≡ paid → (of_row (to_row p)).status ≡ paid
unfolding of_row to_row status_text parse_status Text-discrete
of_row-paid p h = rw h refl

-- The confirmation of a first event, of an amount that fits its column and with no other purchase
-- in the way, is cut short: the purchase and the payment are written, and the database refuses the
-- outbox event. The handler returns that error, the outbox is as before, and an event for the same
-- payload with a charge that was not processed (a redelivery of the same payment too) is then
-- refused as an invalid transition and changes nothing.
pub confirm_lost :
    (e e' : Event) (r : PurchaseRow) (w : World) (t : Text)
    → w.net ≡ done ∷ done ∷ done ∷ done ∷ refused t ∷ []
    → IsDue e r w.db
    → IsAlone e r w.clock w.db
    → e'.invoice_payload ≡ e.invoice_payload
    → e'.charge_id ≢ []
    → processed e'.charge_id w.db ≡ false
    → ((handle e w).0 ≡ err (driver t))
      × ((handle e w).1.db.outbox_events ≡ w.db.outbox_events)
      × (handle e' (handle e w).1 ≡ (err invalid_transition, (handle e w).1))
confirm_lost e e' r w t cut due alone same given first =
    let updated = after_update-ok e w.clock r w.db due alone in
    rw (confirm_cut e r w t cut due updated) (
      refl,
      unpublished_same e r w,
      confirm_paid e' (to_row (paid_purchase e w.clock (of_row r))) _ refl given
          (unkeyed e e' r w first) (found_again e e' r w due same updated)
          (of_row-paid (paid_purchase e w.clock (of_row r)) refl),
    )
