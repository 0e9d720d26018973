-- ===== src/Domain/User.antt =====
-- internal/domain/user: a user of the bot.
use streaming_bot.Prelude.{ℕ, Text, Bool, not}
use streaming_bot.Prelude.Int.{ℤ}

pub record User : Type 0 where
  pub id : ℤ
  pub username : Text
  pub created_at : ℕ
  pub banned : Bool

unfoldable pub can_receive_access : User → Bool
can_receive_access u = not u.banned
