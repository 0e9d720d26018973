-- ===== src/Tests/Calls.antt =====
-- The properties of single calls, at small worlds.
use streaming_bot.Prelude.{
  text, text_eq, Text-discrete, [], ◌+◌, ◌∷◌, ◌++◌, some, true, false, find, any, update_where,
  length, ◌≡◌, ◌≢◌, refl, arith,
}
use streaming_bot.Prelude.Int.{is_int4, pos}
use streaming_bot.Exec.{ok, err, driver, invalid_transition, message}
use streaming_bot.World.{World, PurchaseRow, done, refused}
use streaming_bot.Domain.Content.{Content, can_be_purchased}
use streaming_bot.Domain.Payment.{Event}
use streaming_bot.Domain.Purchase.{parse_status}
use streaming_bot.Storage.Purchases.{to_row, of_row}
use streaming_bot.Storage.Outbox
use streaming_bot.Storage.Payments.{processed}
use streaming_bot.App.StartPurchase
use streaming_bot.App.StartPurchase.Outcome.{pending_row, invoice_is_offered}
use streaming_bot.App.ConfirmPayment
use streaming_bot.App.ConfirmPayment.Update.{IsDue, IsAlone}
use streaming_bot.App.ConfirmPayment.Outcome.{HasConfirmed, confirm_effects, confirm_lost}
use streaming_bot.App.IssueAccess
use streaming_bot.App.IssueAccess.{Handler, StreamingProvider}
use streaming_bot.App.IssueAccess.Granted.{raw_token}
use streaming_bot.App.IssueAccess.Outcome.{
  IsOffered, IsIssuable, HasIssued, failed_row, issue_failed, issue_effects,
}
use streaming_bot.App.IssueAccess.Redeemed.{token_opens}
use streaming_bot.App.UseAccess
use streaming_bot.App.UseAccess.{check, redeem}
use streaming_bot.Jobs
use streaming_bot.System.Reach.{initial, empty_db, next, here, work}
use streaming_bot.System.Closed.Facts.{HasGrant}
use streaming_bot.System.OneLink.{one_link}
use streaming_bot.Tests.{client, digest, handler, item, bytes, order, opened, invoice}
use streaming_bot.Tests.Sale.{sale}

abbrev pub row : PurchaseRow
row =
    pending_row order
      (record { purchase_id = text "p1"; invoice_payload = text "pay1"; amount_stars = pos 25 }) 3

abbrev pub event : Event
event = record {
  charge_id = text "ch1";
  amount_stars = pos 25;
  invoice_payload = text "pay1";
  raw_payload = text "raw";
  occurred_at = 4;
}

abbrev pub waiting : World
waiting = record initial {
  db = record empty_db { content = item ∷ []; purchases = row ∷ [] };
  clock = 5;
  entropy = bytes ++ bytes;
}

abbrev pub paid_row : PurchaseRow
paid_row = record row {
  status = text "paid";
  telegram_charge_id = some (text "ch1");
  paid_at = some 5;
}

abbrev pub bought : World
bought = record waiting { db = record waiting.db { purchases = paid_row ∷ [] } }

abbrev cut : World
cut = record waiting { net = done ∷ done ∷ done ∷ done ∷ refused (text "down") ∷ [] }

-- A provider that is down.
abbrev broken : Handler
broken = record handler {
  provider = record {
    issue_access_link = λ ref user ttl key w. (err (driver (text "down")), w);
    issue_access_link-db = λ ref user ttl key w. refl;
  };
}

pub due : IsDue event row waiting.db
unfolding is_int4 any find of_row parse_status Text-discrete
due = record {
  given = λ e. cc;
  first = refl;
  found = refl;
  waits = refl;
  counted = refl;
  fits = refl;
}

pub alone : IsAlone event row 5 waiting.db
unfolding any of_row to_row Text-discrete
alone = refl

pub no_events :
    any (λ q. text_eq q.id (Outbox.event_id 5 (text "p1"))) waiting.db.outbox_events ≡ false
unfolding any
no_events = refl

-- The item is no longer on sale.
abbrev withdrawn : World
withdrawn = record waiting {
  db = record waiting.db { content = record item { active = false } ∷ [] };
}

unchanged : IsDue event row withdrawn.db
unchanged = record {
  given = due.given;
  first = due.first;
  found = due.found;
  waits = due.waits;
  counted = due.counted;
  fits = due.fits;
}

confirm_effects_example :
    ((ConfirmPayment.handle event withdrawn).0 ≡ ok tt)
    × HasConfirmed event row 5 withdrawn.db (ConfirmPayment.handle event withdrawn).1.db
confirm_effects_example = confirm_effects event row withdrawn refl unchanged alone no_events

not_empty : event.charge_id ≢ []
not_empty e = cc

unprocessed : processed event.charge_id waiting.db ≡ false
unfolding any
unprocessed = refl

confirm_lost_example :
    ((ConfirmPayment.handle event cut).0 ≡ err (driver (text "down")))
    × ((ConfirmPayment.handle event cut).1.db.outbox_events ≡ cut.db.outbox_events)
    × (ConfirmPayment.handle event (ConfirmPayment.handle event cut).1
        ≡ (err invalid_transition, (ConfirmPayment.handle event cut).1))
confirm_lost_example =
    confirm_lost event event row cut (text "down") refl due alone refl not_empty unprocessed

pub offered : IsOffered (text "p1") paid_row item bought
unfolding find can_be_purchased Text-discrete
offered = record { calm = refl; found = refl; item = refl; on_sale = refl }

pub issuable : IsIssuable handler paid_row item (text "https://v/v1") 105 bought
unfolding any of_row parse_status Text-discrete length is_int4
issuable = record {
  is_paid = refl;
  given = refl;
  counted = refl;
  random = omega arith;
  fresh = refl;
  alone = refl;
}

issue_effects_example :
    ((IssueAccess.handle handler (text "p1") bought).0 ≡ ok tt)
    × HasIssued handler
        (text "p1")
        paid_row
        (text "https://v/v1")
        105
        bought
        (IssueAccess.handle handler (text "p1") bought).1
issue_effects_example =
    issue_effects handler (text "p1") paid_row item (text "https://v/v1") 105 bought offered
      issuable

token_opens_example :
    (UseAccess.handle digest client
      (raw_token bought)
      (record (IssueAccess.handle handler (text "p1") bought).1 { clock = 105 })).0
    ≡ ok (record { purchase_id = text "p1"; user_id = pos 7; valid = true })
token_opens_example =
    token_opens handler (text "p1") paid_row item (text "https://v/v1") 105 105 bought offered
      issuable (omega arith)

one_link_example :
    HasGrant (text "p1") (IssueAccess.handle handler (text "p1") bought).1.db
    × ((IssueAccess.handle handler
          (text "p1")
          (Jobs.run_once handler (IssueAccess.handle handler (text "p1") bought).1).1).0
        ≢ ok tt)
one_link_example = one_link handler (text "p1") bought issue_effects_example.0 (next here (work _))

one_more : is_int4 (pos (paid_row.issue_link_attempts + 1)) ≡ true
unfolding is_int4
one_more = refl

issue_failed_example : IssueAccess.handle broken (text "p1") bought ≡ (
  err (driver (text "down")),
  record bought {
    db = record bought.db {
      purchases =
          update_where
            (λ q. text_eq q.id (text "p1"))
            (λ _. failed_row (message (driver (text "down"))) 5 (pos 3) paid_row)
            bought.db.purchases;
    };
  },
)
issue_failed_example =
    issue_failed broken (text "p1") paid_row item (driver (text "down")) bought offered one_more
      issuable.alone refl

invoice_is_offered_example :
    ((c : Content) × (find (λ q. text_eq q.id (text "c1")) opened.db.content ≡ some c)
      × (can_be_purchased c ≡ true)
      × (pos 25 ≡ c.price_stars))
    × (invoice.invoice_payload ≡ StartPurchase.payload invoice.purchase_id (pos 7) (text "c1"))
    × ((StartPurchase.handle order opened).1.db
        ≡ record opened.db { purchases = opened.db.purchases ++ pending_row order invoice 10 ∷ [] })
invoice_is_offered_example = invoice_is_offered order opened invoice sale.0
