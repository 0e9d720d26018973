-- ===== src/Domain/Content.antt =====
-- internal/domain/content: an item of the catalogue.
use streaming_bot.Prelude.{Text, Bool, ◌&&◌}
use streaming_bot.Prelude.Int.{ℤ, pos, ltb_ℤ}

pub record Content : Type 0 where
  pub id : Text
  pub external_ref : Text
  pub title : Text
  pub description : Text
  pub price_stars : ℤ
  pub active : Bool

unfoldable pub can_be_purchased : Content → Bool
can_be_purchased c = c.active && ltb_ℤ (pos 0) c.price_stars
