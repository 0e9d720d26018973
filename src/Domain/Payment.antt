-- ===== src/Domain/Payment.antt =====
-- internal/domain/payment: a payment as Telegram reports it.
use streaming_bot.Prelude.{ℕ, Text}
use streaming_bot.Prelude.Int.{ℤ}

pub record Event : Type 0 where
  pub charge_id : Text
  pub amount_stars : ℤ
  pub invoice_payload : Text
  pub raw_payload : Text
  pub occurred_at : ℕ
