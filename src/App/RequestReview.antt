-- ===== src/App/RequestReview.antt =====
-- internal/app/request_review.
use streaming_bot.Prelude.{Text, Bool, Option, none, some}
use streaming_bot.Exec.{Result, ok, err, ◌>>=◌, ◌>>◌, pure, attempt, present, purchase_not_found}
use streaming_bot.World.{Io, time_now}
use streaming_bot.Domain.Review.{Review}
use streaming_bot.Domain.Purchase.{Purchase}
use streaming_bot.Storage.Purchases
use streaming_bot.Storage.Reviews
use streaming_bot.App.Sender.{send_review_request}

module _ (has_bot : Bool) where
  unfoldable pub request : Purchase → Io Unit
  request p = do
    send_review_request has_bot p.user_id p.id
    now ← time_now
    Purchases.update (record p { review_requested_at = some now })

  -- `if err == nil && existing != nil { return nil }`
  unfoldable pub unless_reviewed : Result (Option Review) → Purchase → Io Unit
  unless_reviewed (ok (some _)) p = pure tt
  unless_reviewed (ok none) p = request p
  unless_reviewed (err _) p = request p

  unfoldable pub handle : Text → Io Unit
  handle purchase_id = do
    found ← attempt (Purchases.get_by_id purchase_id)
    p ← present found purchase_not_found
    existing ← attempt (Reviews.get_by_purchase_id p.id)
    unless_reviewed existing p
