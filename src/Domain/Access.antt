-- ===== src/Domain/Access.antt =====
-- internal/domain/access: the grant behind an access link.
use streaming_bot.Prelude.{ℕ, Text, Option, none, some, Bool, false, ltb}
use streaming_bot.Prelude.Int.{ℤ}

pub record Grant : Type 0 where
  pub id : Text
  pub purchase_id : Text
  pub user_id : ℤ
  pub token_hash : Text
  pub issued_at : ℕ
  pub expires_at : ℕ
  pub used_at : Option ℕ

unfoldable pub is_usable : Grant → ℕ → Bool
is_usable g now = elim g.used_at [ none ↦ ltb now g.expires_at | some _ ↦ false ]
