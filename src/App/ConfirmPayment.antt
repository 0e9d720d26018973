-- ===== src/App/ConfirmPayment.antt =====
-- internal/app/confirm_payment.
pub mod Replay
pub mod Update
pub mod Outcome
use streaming_bot.Prelude.{Text, text_eq, [], if◌then◌else◌}
use streaming_bot.Exec.{
  ◌>>=◌, ◌>>◌, pure, attempt, present, raise_if, on, empty_charge_id, purchase_not_found,
}
use streaming_bot.World.{World, Io, time_now}
use streaming_bot.Domain.Payment.{Event}
use streaming_bot.Domain.Purchase.{Purchase, mark_paid}
use streaming_bot.Storage.Purchases
use streaming_bot.Storage.Payments.{is_processed, save_payment_event, mark_processed}
use streaming_bot.Storage.Outbox.{publish_purchase_confirmed}

-- From the lookup of the purchase on.
unfoldable pub confirm : Event → Io Unit
confirm event = do
  found ← attempt (Purchases.get_by_payload event.invoice_payload)
  p ← present found purchase_not_found
  now ← time_now
  p ← on p (mark_paid event.charge_id now)
  Purchases.update p
  save_payment_event event
  publish_purchase_confirmed p.id
  mark_processed event.charge_id

unfoldable pub handle : Event → Io Unit
handle event = do
  raise_if (text_eq event.charge_id []) empty_charge_id
  already_processed ← is_processed event.charge_id
  if already_processed then pure tt else confirm event
