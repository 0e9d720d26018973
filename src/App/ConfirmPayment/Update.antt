-- ===== src/App/ConfirmPayment/Update.antt =====
-- The first write of a confirmation: the row of the purchase.
use streaming_bot.Prelude.{ℕ, text_eq, [], some, true, false, ◌&&◌, not, any, find, ◌≡◌, ◌≢◌, arith}
use streaming_bot.Prelude.Tables.{find-update_where, find-some}
use streaming_bot.Prelude.Int.{pos, is_int4}
use streaming_bot.Exec.{Result, ok}
use streaming_bot.World.{World, Db, PurchaseRow}
use streaming_bot.Domain.Payment.{Event}
use streaming_bot.Domain.Purchase.{Purchase, pending, paid}
use streaming_bot.Storage.Purchases.{to_row, of_row, clashes, update_row}
use streaming_bot.Storage.Payments.{processed, insert_event}

-- The purchase with the payment written into it.
abbrev pub paid_purchase : Event → ℕ → Purchase → Purchase
paid_purchase e now p = record p {
  status = paid;
  telegram_charge_id = e.charge_id;
  paid_at = some now;
}

-- The payload of the event is that of a pending purchase, whose count of attempts fits its column,
-- as in every table; the amount fits its column; and the event is a first one.
pub record IsDue (e : Event) (r : PurchaseRow) (d : Db) : Type 0 where
  pub given : e.charge_id ≢ []
  pub first : processed e.charge_id d ≡ false
  pub found : find (λ q. text_eq q.telegram_payload e.invoice_payload) d.purchases ≡ some r
  pub waits : (of_row r).status ≡ pending
  pub counted : is_int4 (pos r.issue_link_attempts) ≡ true
  pub fits : is_int4 e.amount_stars ≡ true

-- The first write of the handler.
abbrev pub after_update : Event → ℕ → PurchaseRow → Db → Result (Unit {0}) × Db
after_update e now r d = update_row (to_row (paid_purchase e now (of_row r))) d

-- The update went through: the row that has the payload is the paid one.
pub after_update-found :
    (e : Event) (now : ℕ) (r : PurchaseRow) (d : Db)
    → IsDue e r d
    → (after_update e now r d).0 ≡ ok tt
    → find (λ q. text_eq q.telegram_payload e.invoice_payload) (after_update e now r d).1.purchases
      ≡ some (to_row (paid_purchase e now (of_row r)))
unfolding update_row to_row of_row
after_update-found e now r d due updated = ground (
  arith,
  find-some (λ q. text_eq q.telegram_payload e.invoice_payload) d.purchases r due.found,
  find-update_where (λ q. text_eq q.telegram_payload e.invoice_payload) (λ q. text_eq q.id r.id)
      d.purchases r (to_row (paid_purchase e now (of_row r))),
)

-- No other purchase has the payload of this one, or the charge of the event.
abbrev pub IsAlone : Event → PurchaseRow → ℕ → Db → Type 0
IsAlone e r now d =
    any (λ q. not (text_eq q.id r.id) && clashes (to_row (paid_purchase e now (of_row r))) q)
      d.purchases
    ≡ false

pub after_update-ok :
    (e : Event) (now : ℕ) (r : PurchaseRow) (d : Db)
    → IsDue e r d
    → IsAlone e r now d
    → (after_update e now r d).0 ≡ ok tt
unfolding update_row to_row of_row
after_update-ok e now r d due alone = ground arith

pub unpublished_same :
    (e : Event) (r : PurchaseRow) (w : World)
    → (insert_event e (after_update e w.clock r w.db).1).1.outbox_events ≡ w.db.outbox_events
unfolding insert_event update_row
unpublished_same e r w = ground arith
