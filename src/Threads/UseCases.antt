-- ===== src/Threads/UseCases.antt =====
-- The use cases that the program runs side by side, as threads: each call is named.
use streaming_bot.Prelude.{ℕ, Text, List}
use streaming_bot.Exec.{◌>>◌}
use streaming_bot.World
use streaming_bot.World.{Io}
use streaming_bot.Domain.Payment.{Event}
use streaming_bot.Domain.Purchase.{Purchase}
use streaming_bot.Storage.Purchases
use streaming_bot.Storage.Payments.{is_processed, save_payment_event, mark_processed}
use streaming_bot.Storage.Outbox.{publish_purchase_confirmed}
use streaming_bot.App.ConfirmPayment
use streaming_bot.App.StartPurchase
use streaming_bot.App.SubmitReview
use streaming_bot.App.UseAccess
use streaming_bot.Domain.Access.{Grant}
use streaming_bot.Domain.Review.{Review}
use streaming_bot.Storage.Contents
use streaming_bot.Storage.Grants
use streaming_bot.Storage.Reviews
use streaming_bot.Storage.Tokens
use streaming_bot.Storage.Tokens.{RedisClient}
use streaming_bot.Platform.Idgen.{new_id}
use streaming_bot.Platform.Crypto.{token_digest}
use streaming_bot.Threads.{Thread, one, branch, attempted, ignored, and_then}
use streaming_bot.Threads.Locals.{returned, presented, raised_if, applied}

-- ConfirmPayment: eight calls.
unfoldable pub publishing : (id : Text) → Thread (publish_purchase_confirmed id)
unfolding publish_purchase_confirmed
publishing id = and_then (one World.time_now) λ now. one _

-- The writes of a confirmation, from `Update` on.
abbrev pub write_paid : Event → Purchase → Io (Unit {0})
write_paid e p = do
  Purchases.update p
  save_payment_event e
  publish_purchase_confirmed p.id
  mark_processed e.charge_id

unfoldable pub writing_paid : (e : Event) (p : Purchase) → Thread (write_paid e p)
writing_paid e p = and_then (one (Purchases.update p)) λ _.
    and_then (one (save_payment_event e))
      λ _. and_then (publishing p.id) λ _. one (mark_processed e.charge_id)

unfoldable pub confirming_due : (e : Event) → Thread (ConfirmPayment.confirm e)
unfolding ConfirmPayment.confirm
confirming_due e = and_then (attempted (one (Purchases.get_by_payload e.invoice_payload))) λ found.
    and_then (presented found _)
      λ p. and_then (one World.time_now) λ now. and_then (applied p _) λ p. writing_paid e p

unfoldable pub confirming : (e : Event) → Thread (ConfirmPayment.handle e)
unfolding ConfirmPayment.handle
confirming e = and_then (raised_if _ _) λ _.
    and_then (one (is_processed e.charge_id))
      λ already. branch already (returned tt) (confirming_due e)

unfoldable pub new_identifier : Thread new_id
unfolding new_id
new_identifier = and_then (one (World.rand_read 16)) λ buf. returned _

unfoldable pub starting : (c : StartPurchase.Command) → Thread (StartPurchase.handle c)
unfolding StartPurchase.handle
starting c = and_then (attempted (one (Contents.get_by_id c.content_id))) λ found.
    and_then (presented found _) λ item. and_then (raised_if _ _) λ _.
      and_then new_identifier λ id.
        and_then (one World.time_now) λ now. and_then (one (Purchases.create _)) λ _. returned _

unfoldable pub reviewed : (r : Review) → Thread (Reviews.create r)
unfolding Reviews.create
reviewed r = and_then (one World.time_now) λ now. one _

unfoldable pub submitting : (c : SubmitReview.Command) → Thread (SubmitReview.handle c)
unfolding SubmitReview.handle
submitting c = and_then (raised_if _ _) λ _.
    and_then (attempted (one (Purchases.get_by_id c.purchase_id)))
      λ found. and_then (presented found _) λ p. and_then (one World.time_now) λ now. reviewed _

module _ (sum256 : Text → List ℕ) (cache : RedisClient) where
  unfoldable pub cached : (hash : Text) → Thread (Tokens.get cache hash)
  unfolding Tokens.get
  cached hash = and_then (one _) λ v. returned _

  unfoldable pub checking : (hash : Text) → Thread (UseAccess.check sum256 cache hash)
  unfolding UseAccess.check
  checking hash = and_then (ignored (cached hash)) λ _.
      and_then (attempted (one (Grants.get_by_token_hash hash))) λ found.
        and_then (presented found _) λ grant.
          and_then (one World.time_now)
            λ now. and_then (raised_if _ _) λ _. and_then (raised_if _ _) λ _. returned grant

  unfoldable pub redeeming :
      (hash : Text) (g : Grant) → Thread (UseAccess.redeem sum256 cache hash g)
  unfolding UseAccess.redeem
  redeeming hash g =
      and_then (one (Grants.mark_used g.id))
        λ _. and_then (ignored (one (Tokens.delete cache hash))) λ _. returned _

  unfoldable pub using_token : (token : Text) → Thread (UseAccess.handle sum256 cache token)
  unfolding UseAccess.handle
  using_token token =
      and_then (checking (token_digest sum256 token))
        λ grant. redeeming (token_digest sum256 token) grant
