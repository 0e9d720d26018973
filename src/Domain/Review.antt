-- ===== src/Domain/Review.antt =====
-- internal/domain/review: a review of a purchase.
use streaming_bot.Prelude.{ℕ, Text, Bool, ◌&&◌, not}
use streaming_bot.Prelude.Int.{ℤ, pos, ltb_ℤ}

pub record Review : Type 0 where
  pub id : Text
  pub user_id : ℤ
  pub purchase_id : Text
  pub rating : ℤ
  pub text : Text
  pub published : Bool
  pub created_at : ℕ

-- `r.Rating >= 1 && r.Rating <= 5`
unfoldable pub is_valid_rating : Review → Bool
is_valid_rating r = not (ltb_ℤ r.rating (pos 1)) && not (ltb_ℤ (pos 5) r.rating)
