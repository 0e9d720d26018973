-- ===== src/App/SubmitReview.antt =====
-- internal/app/submit_review.
use streaming_bot.Prelude.{Text, text, ◌++◌, false, ◌||◌}
use streaming_bot.Prelude.Int.{ℤ, pos, ltb_ℤ}
use streaming_bot.Exec.{◌>>=◌, ◌>>◌, attempt, present, raise_if, invalid_rating, purchase_not_found}
use streaming_bot.World.{Io, time_now}
use streaming_bot.Storage.Purchases
use streaming_bot.Storage.Reviews

pub record Command : Type 0 where
  pub user_id : ℤ
  pub purchase_id : Text
  pub rating : ℤ
  pub comment : Text

unfoldable pub handle : Command → Io Unit
handle cmd = do
  raise_if (ltb_ℤ cmd.rating (pos 1) || ltb_ℤ (pos 5) cmd.rating) invalid_rating
  found ← attempt (Purchases.get_by_id cmd.purchase_id)
  p ← present found purchase_not_found
  now ← time_now
  Reviews.create (record {
    id = text "review-" ++ cmd.purchase_id;
    user_id = cmd.user_id;
    purchase_id = cmd.purchase_id;
    rating = cmd.rating;
    text = cmd.comment;
    published = false;
    created_at = now;
  })
