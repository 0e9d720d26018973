-- ===== src/System/UseCases.antt =====
-- An assertion about the world that the calls of the use cases keep is kept by the use cases that
-- the bot and the HTTP interface start.
use streaming_bot.Prelude.{ℕ, Text, List}
use streaming_bot.Exec.{Exec, gets}
use streaming_bot.Exec.Triple.{Keeps}
use streaming_bot.Exec.Keeps.{keeps_rules}
use streaming_bot.World.{
  World, Db, Cache, Outgoing, PurchaseRow, sql, redis, send, time_now, rand_read,
}
use streaming_bot.World.Calls.{
  Keeps-sql, Keeps-same_db, redis-db, send-db, time_now-db, rand_read-db,
}
use streaming_bot.Domain.Payment.{Event}
use streaming_bot.Domain.Review.{Review}
use streaming_bot.Storage.Purchases
use streaming_bot.Storage.Contents
use streaming_bot.Storage.Grants
use streaming_bot.Storage.Reviews
use streaming_bot.Storage.Payments
use streaming_bot.Storage.Outbox
use streaming_bot.Storage.Tokens
use streaming_bot.Platform.Idgen.{new_id}
use streaming_bot.App.StartPurchase
use streaming_bot.App.ConfirmPayment
use streaming_bot.App.UseAccess
use streaming_bot.App.SubmitReview

-- Reading, the statements that write, and the calls of the other services.
pub record AllowsCalls (P : World → Type 0) : Type 1 where
  pub read : {A : Type 0} (f : Db → A) → Keeps P (sql (gets f))
  pub insert_purchase : (r : PurchaseRow) → Keeps P (sql (Purchases.insert_row r))
  pub update_purchase : (r : PurchaseRow) → Keeps P (sql (Purchases.update_row r))
  pub mark_used : (id : Text) → Keeps P (sql (Grants.mark_used_row id))
  pub insert_review : (r : Review) → Keeps P (sql (Reviews.insert_row r))
  pub insert_event : (e : Event) → Keeps P (sql (Payments.insert_event e))
  pub insert_key : (key : Text) → Keeps P (sql (Payments.insert_key key))
  pub insert_outbox : (id pid : Text) → Keeps P (sql (Outbox.insert_row id pid))
  pub cached : {A : Type 0} (m : Exec Cache A) → Keeps P (redis m)
  pub sends : (m : Outgoing) → Keeps P (send m)
  pub now : Keeps P time_now
  pub random : (n : ℕ) → Keeps P (rand_read n)

-- The statements that the use cases write by, for an assertion about the tables.
pub record IsWritten (P : Db → Type 0) : Type 0 where
  pub insert_purchase : (r : PurchaseRow) (d : Db) → P d → P (Purchases.insert_row r d).1
  pub update_purchase : (r : PurchaseRow) (d : Db) → P d → P (Purchases.update_row r d).1
  pub mark_used : (id : Text) (d : Db) → P d → P (Grants.mark_used_row id d).1
  pub insert_review : (r : Review) (d : Db) → P d → P (Reviews.insert_row r d).1
  pub insert_event : (e : Event) (d : Db) → P d → P (Payments.insert_event e d).1
  pub insert_key : (key : Text) (d : Db) → P d → P (Payments.insert_key key d).1
  pub insert_outbox : (id pid : Text) (d : Db) → P d → P (Outbox.insert_row id pid d).1

pub IsWritten-AllowsCalls : (P : Db → Type 0) → IsWritten P → AllowsCalls (λ w. P w.db)
unfolding gets
IsWritten-AllowsCalls P c = record {
  read = λ f. Keeps-sql P (gets f) (λ d p. p);
  insert_purchase = λ r. Keeps-sql P _ (c.insert_purchase r);
  update_purchase = λ r. Keeps-sql P _ (c.update_purchase r);
  mark_used = λ id. Keeps-sql P _ (c.mark_used id);
  insert_review = λ r. Keeps-sql P _ (c.insert_review r);
  insert_event = λ e. Keeps-sql P _ (c.insert_event e);
  insert_key = λ key. Keeps-sql P _ (c.insert_key key);
  insert_outbox = λ id pid. Keeps-sql P _ (c.insert_outbox id pid);
  cached = λ m. Keeps-same_db P _ (redis-db m);
  sends = λ m. Keeps-same_db P _ (send-db m);
  now = Keeps-same_db P _ time_now-db;
  random = λ n. Keeps-same_db P _ (rand_read-db n);
}

module _ {P : World → Type 0} (c : AllowsCalls P) where
  keep-read : {A : Type 0} (f : Db → A) → Keeps P (sql (gets f))
  keep-read f = c.read f

  keep-cached : {A : Type 0} (m : Exec Cache A) → Keeps P (redis m)
  keep-cached m = c.cached m

  keep-now : Keeps P time_now
  keep-now = c.now

  keep-random : (n : ℕ) → Keeps P (rand_read n)
  keep-random n = c.random n

  ruleset calls = (keeps_rules, keep-read, keep-cached, keep-now, keep-random)

  pub start-Keeps : (cmd : StartPurchase.Command) → Keeps P (StartPurchase.handle cmd)
  unfolding StartPurchase.handle Contents.get_by_id Purchases.create new_id
  start-Keeps cmd = search (calls, c.insert_purchase) depth 30

  pub confirm-Keeps : (e : Event) → Keeps P (ConfirmPayment.handle e)
  unfolding ConfirmPayment.handle ConfirmPayment.confirm Payments.is_processed
      Purchases.get_by_payload Purchases.select_one Purchases.update Payments.save_payment_event
      Outbox.publish_purchase_confirmed Payments.mark_processed
  confirm-Keeps e =
      search (calls, c.update_purchase, c.insert_event, c.insert_outbox, c.insert_key) depth 30

  pub submit-Keeps : (cmd : SubmitReview.Command) → Keeps P (SubmitReview.handle cmd)
  unfolding SubmitReview.handle Purchases.get_by_id Purchases.select_one Reviews.create
  submit-Keeps cmd = search (calls, c.insert_review) depth 30

  pub use-Keeps :
      (sum256 : Text → List ℕ) (cache : Tokens.RedisClient) (token : Text)
      → Keeps P (UseAccess.handle sum256 cache token)
  unfolding UseAccess.handle UseAccess.check UseAccess.redeem Tokens.get Tokens.delete
      Grants.get_by_token_hash Grants.select_by_hash Grants.mark_used
  use-Keeps sum256 cache token = search (calls, c.mark_used) depth 30
