-- ===== src/Storage/Purchases/RoundTrip.antt =====
-- What is written into `purchases` is what is read back.
use streaming_bot.Prelude.{Text, text_eq, [], some, find, ◌≡◌, refl, arith}
use streaming_bot.Prelude.Tables.{find-append, find-none, find-update_where, find-some}
use streaming_bot.Exec.{ok, gets}
use streaming_bot.World.{World, PurchaseRow, sql}
use streaming_bot.Domain.Purchase.{Purchase}
use streaming_bot.Domain.Purchase.Lifecycle.{IsKnown, parse_status-status_text}
use streaming_bot.Storage.Purchases.{
  nullable_string, string_or_empty, to_row, of_row, select_one, insert_row, update_row, get_by_id,
  create, update,
}

string_or_empty-nullable_string : (v : Text) → string_or_empty (nullable_string v) ≡ v
unfolding nullable_string
string_or_empty-nullable_string v = ground arith

-- A purchase with one of the five statuses survives the round trip through its row.
of_row-to_row : (p : Purchase) → IsKnown p.status → of_row (to_row p) ≡ p
unfolding of_row to_row
of_row-to_row p known =
    rw
      (
        parse_status-status_text p.status known,
        string_or_empty-nullable_string p.telegram_charge_id,
        string_or_empty-nullable_string p.last_issue_link_error,
      )
      refl

id-to_row : (p : Purchase) → (to_row p).id ≡ p.id
unfolding to_row
id-to_row p = refl

-- With the database answering, a purchase with one of the five statuses whose creation returned
-- no error is the one that a look-up of its id then gives.
create-get_by_id :
    (p : Purchase) (w : World)
    → w.net ≡ []
    → IsKnown p.status
    → (create p w).0 ≡ ok tt
    → get_by_id p.id (create p w).1 ≡ (ok (some p), (create p w).1)
unfolding create get_by_id select_one sql gets insert_row
create-get_by_id p w calm known made = ground (
  arith,
  of_row-to_row p known,
  id-to_row p,
  find-append (λ r. text_eq r.id p.id) w.db.purchases (to_row p),
  find-none (λ r. text_eq r.id p.id) w.db.purchases,
)

-- With the database answering, a purchase with one of the five statuses whose id has a row and
-- whose update returned no error is the one that a look-up of its id then gives.
update-get_by_id :
    (p : Purchase) (r : PurchaseRow) (w : World)
    → w.net ≡ []
    → IsKnown p.status
    → find (λ q. text_eq q.id p.id) w.db.purchases ≡ some r
    → (update p w).0 ≡ ok tt
    → get_by_id p.id (update p w).1 ≡ (ok (some p), (update p w).1)
unfolding update get_by_id select_one sql gets update_row
update-get_by_id p r w calm known there made = ground (
  arith,
  of_row-to_row p known,
  id-to_row p,
  find-some (λ q. text_eq q.id p.id) w.db.purchases r there,
  find-update_where (λ q. text_eq q.id p.id) (λ q. text_eq q.id p.id) w.db.purchases r (to_row p),
)
