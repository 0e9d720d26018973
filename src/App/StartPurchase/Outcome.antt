-- ===== src/App/StartPurchase/Outcome.antt =====
-- What a new purchase is made of.
use streaming_bot.Prelude.{
  ℕ, text, text_eq, [], ◌∷◌, ◌++◌, List, Option, none, some, true, false, find, any, ◌≡◌, refl,
  arith,
}
use streaming_bot.Exec.{ok, ◌>>=◌, attempt, present, raise_if, gets, pure}
use streaming_bot.World.{World, PurchaseRow, sql, time_now, rand_read}
use streaming_bot.Domain.Content.{Content, can_be_purchased}
use streaming_bot.Domain.Purchase.{status_text}
use streaming_bot.Storage.Contents
use streaming_bot.Storage.Purchases
use streaming_bot.Storage.Purchases.{to_row, nullable_string, insert_row, clashes}
use streaming_bot.Platform.Idgen.{new_id}
use streaming_bot.App.StartPurchase.{Command, Invoice, payload, handle}

-- The row of a purchase that waits for its payment.
abbrev pub pending_row : Command → Invoice → ℕ → PurchaseRow
pending_row cmd i now = record {
  id = i.purchase_id;
  user_id = cmd.user_id;
  content_id = cmd.content_id;
  status = text "pending";
  telegram_payload = i.invoice_payload;
  telegram_charge_id = none;
  stars_amount = i.amount_stars;
  created_at = now;
  paid_at = none;
  issue_link_attempts = 0;
  last_issue_link_error = none;
  last_issue_link_at = none;
  review_requested_at = none;
}

-- Whatever the services do, an invoice is for an item of the catalogue that is on sale, at the
-- item's price; its payload names the purchase, the user and the item; and the one thing written is
-- the pending row of the purchase, with that payload and that price.
pub invoice_is_offered :
    (cmd : Command) (w : World) (i : Invoice)
    → (handle cmd w).0 ≡ ok i
    → ((c : Content) × (find (λ q. text_eq q.id cmd.content_id) w.db.content ≡ some c)
        × (can_be_purchased c ≡ true)
        × (i.amount_stars ≡ c.price_stars))
      × (i.invoice_payload ≡ payload i.purchase_id cmd.user_id cmd.content_id)
      × ((handle cmd w).1.db
          ≡ record w.db { purchases = w.db.purchases ++ pending_row cmd i w.clock ∷ [] })
unfolding handle Contents.get_by_id new_id Purchases.create insert_row to_row nullable_string
    status_text sql gets rand_read time_now attempt present raise_if pure ◌>>=◌
invoice_is_offered cmd w i e =
    (found (find (λ q. text_eq q.id cmd.content_id) w.db.content) refl, ground arith, ground arith)
  where
    found :
        (o : Option Content)
        → find (λ q. text_eq q.id cmd.content_id) w.db.content ≡ o
        → (c : Content) × (find (λ q. text_eq q.id cmd.content_id) w.db.content ≡ some c)
          × (can_be_purchased c ≡ true)
          × (i.amount_stars ≡ c.price_stars)
    found none h = ground arith
    found (some c) h = (c, h, ground arith, ground arith)

no_payload :
    (r : PurchaseRow) (l : List PurchaseRow)
    → any (clashes r) l ≡ false
    → any (λ q. text_eq q.telegram_payload r.telegram_payload) l ≡ false
unfolding any
no_payload r [] h = refl
no_payload r (q ∷ l) h = ground (arith, no_payload r l)

-- No row had the payload before.
pub payload_is_new :
    (cmd : Command) (w : World) (i : Invoice)
    → (handle cmd w).0 ≡ ok i
    → any (λ q. text_eq q.telegram_payload i.invoice_payload) w.db.purchases ≡ false
unfolding handle Contents.get_by_id new_id Purchases.create insert_row to_row nullable_string
    status_text sql gets rand_read time_now attempt present raise_if pure ◌>>=◌
payload_is_new cmd w i e = ground (arith, no_payload (pending_row cmd i w.clock) w.db.purchases)
