-- ===== src/Threads/Settled/Statements.antt =====
-- The statements of the threads, against what the threads agree on.
use streaming_bot.Prelude.{ℕ, ◌<◌, Text, text, text_eq, some, true, ◌&&◌, ◌≡◌, ◌≢◌, refl, arith}
use streaming_bot.Prelude.Tables.{
  any-append, count-append, count-update_where_same, any-update_where_same,
}
use streaming_bot.World.{Db, PurchaseRow}
use streaming_bot.Domain.Access.{Grant}
use streaming_bot.Domain.Content.{Content}
use streaming_bot.Storage.Contents
use streaming_bot.Domain.Payment.{Event}
use streaming_bot.Domain.Review.{Review}
use streaming_bot.Storage.Purchases
use streaming_bot.Storage.Grants
use streaming_bot.Storage.Outbox
use streaming_bot.Storage.Reviews
use streaming_bot.Storage.Payments
use streaming_bot.System.Sound.{is_pending, confirmations}
use streaming_bot.System.Sound.Statements.{has_row-update, is_pending-update}
use streaming_bot.Threads.Settled.{IsSettled, IsPaidFor, GoesOn}

-- The invariant, and how the tables went on.
abbrev pub Keeps : Text → Db → Db → Type 0
Keeps k d e = IsPaidFor k e × GoesOn k d e

module _ (k : Text) (d : Db) (h : IsPaidFor k d) where
  pub insert_purchase-Keeps : (r : PurchaseRow) → Keeps k d (Purchases.insert_row r d).1
  unfolding Purchases.insert_row
  insert_purchase-Keeps r = ground (
    arith,
    any-append (is_pending k) d.purchases r,
    any-append (λ q. text_eq q.id k) d.purchases r,
  )

  -- A row that is written back is not pending.
  pub update_row-Keeps :
      (r : PurchaseRow)
      → (r.id ≡ k → r.status ≢ text "pending")
      → Keeps k d (Purchases.update_row r d).1
  unfolding Purchases.update_row
  update_row-Keeps r late =
      ground (arith, has_row-update k r d.purchases, is_pending-update k r d.purchases)

  pub insert_grant-Keeps :
      (g : Grant)
      → (g.purchase_id ≡ k → 0 < confirmations k d)
      → Keeps k d (Grants.insert_row g d).1
  unfolding Grants.insert_row
  insert_grant-Keeps g c =
      ground (arith, any-append (λ q. text_eq q.purchase_id k) d.access_grants g)

  pub mark_used-Keeps : (id : Text) → Keeps k d (Grants.mark_used_row id d).1
  unfolding Grants.mark_used_row
  mark_used-Keeps id = ground (
    arith,
    any-update_where_same (λ g. text_eq g.purchase_id k)
        (λ g. text_eq g.id id && Grants.is_unused g) (λ g. record g { used_at = some d.now })
        d.access_grants (λ g late. refl),
  )

  pub insert_review-Keeps : (r : Review) → Keeps k d (Reviews.insert_row r d).1
  unfolding Reviews.insert_row
  insert_review-Keeps r = ground arith

  pub insert_event-Keeps : (e : Event) → Keeps k d (Payments.insert_event e d).1
  unfolding Payments.insert_event
  insert_event-Keeps e = ground arith

  pub insert_key-Keeps : (key : Text) → Keeps k d (Payments.insert_key key d).1
  unfolding Payments.insert_key
  insert_key-Keeps key = ground arith

  -- A confirmation is of a purchase that is settled.
  pub insert_outbox-Keeps :
      (id pid : Text) → (pid ≡ k → IsSettled k d) → Keeps k d (Outbox.insert_row id pid d).1
  unfolding Outbox.insert_row
  insert_outbox-Keeps id pid settled = ground (
    arith,
    count-append (λ e. text_eq e.purchase_id k) d.outbox_events (Outbox.new_event id pid d.now),
  )

  pub mark_published-Keeps : (id : Text) → Keeps k d (Outbox.mark_published_row id d).1
  unfolding Outbox.mark_published_row
  mark_published-Keeps id = ground (
    arith,
    count-update_where_same (λ e. text_eq e.purchase_id k) (λ e. text_eq e.id id)
        (λ e. record e { published = true }) d.outbox_events (λ e late. refl),
  )

  pub advance-Keeps : (now : ℕ) → Keeps k d (record d { now = now })
  advance-Keeps now = ground arith

  pub upsert_row-Keeps : (c : Content) → Keeps k d (Contents.upsert_row c d).1
  unfolding Contents.upsert_row
  upsert_row-Keeps c = ground arith

  pub delete_row-Keeps : (id : Text) → Keeps k d (Contents.delete_row id d).1
  unfolding Contents.delete_row
  delete_row-Keeps id = ground arith

  pub seed_row-Keeps : (c : Content) → Keeps k d (Contents.seed_row c d).1
  unfolding Contents.seed_row
  seed_row-Keeps c = ground arith
