-- ===== src/System/Closed.antt =====
-- A property of the tables that every statement keeps is kept by every use case.
pub mod Facts
use streaming_bot.Prelude.{ℕ, Text, List, [], ◌∷◌, Bool, true, false, Option, none, some, ◌≡◌}
use streaming_bot.Prelude.Int.{ℤ}
use streaming_bot.Exec.{Exec, Result, ok, err, pure, gets, attempt}
use streaming_bot.Exec.Triple.{Keeps, Triple-pure, Triple-bind}
use streaming_bot.Exec.Keeps.{keeps_rules}
use streaming_bot.World.{World, Db, PurchaseRow, Io, sql}
use streaming_bot.World.Calls.{
  Keeps-sql, Keeps-same_db, redis-db, send-db, rand_read-db, time_now-db,
}
use streaming_bot.Domain.Access.{Grant}
use streaming_bot.Domain.Content.{Content}
use streaming_bot.Domain.Payment.{Event}
use streaming_bot.Domain.Purchase.{Purchase}
use streaming_bot.Domain.Review.{Review}
use streaming_bot.Storage.Purchases
use streaming_bot.Storage.Contents
use streaming_bot.Storage.Grants
use streaming_bot.Storage.Reviews
use streaming_bot.Storage.Payments
use streaming_bot.Storage.Outbox
use streaming_bot.Storage.Tokens
use streaming_bot.Platform.Crypto.{generate}
use streaming_bot.Platform.Idgen.{new_id}
use streaming_bot.App.Sender.{
  send_access_link, send_review_request, send_access_link-db, send_review_request-db,
}
use streaming_bot.App.StartPurchase
use streaming_bot.App.ConfirmPayment
use streaming_bot.App.IssueAccess
use streaming_bot.App.IssueAccess.{Handler}
use streaming_bot.App.UseAccess
use streaming_bot.App.RequestReview
use streaming_bot.App.SubmitReview
use streaming_bot.Jobs
use streaming_bot.System.UseCases.{
  AllowsCalls, IsWritten, IsWritten-AllowsCalls, start-Keeps, confirm-Keeps, submit-Keeps,
  use-Keeps,
}

-- Every statement but the one that marks an event as published.
pub record IsStable (P : Db → Type 0) : Type 0 where
  pub insert_purchase : (r : PurchaseRow) (d : Db) → P d → P (Purchases.insert_row r d).1
  pub update_purchase : (r : PurchaseRow) (d : Db) → P d → P (Purchases.update_row r d).1
  pub insert_grant : (g : Grant) (d : Db) → P d → P (Grants.insert_row g d).1
  pub mark_used : (id : Text) (d : Db) → P d → P (Grants.mark_used_row id d).1
  pub insert_review : (r : Review) (d : Db) → P d → P (Reviews.insert_row r d).1
  pub insert_event : (e : Event) (d : Db) → P d → P (Payments.insert_event e d).1
  pub insert_key : (key : Text) (d : Db) → P d → P (Payments.insert_key key d).1
  pub insert_outbox : (id pid : Text) (d : Db) → P d → P (Outbox.insert_row id pid d).1
  pub upsert_content : (c : Content) (d : Db) → P d → P (Contents.upsert_row c d).1
  pub delete_content : (id : Text) (d : Db) → P d → P (Contents.delete_row id d).1
  pub seed_content : (c : Content) (d : Db) → P d → P (Contents.seed_row c d).1
  pub advance : (now : ℕ) (d : Db) → P d → P (record d { now = now })

abbrev pub PublishKeeps : (Db → Type 0) → Type 0
PublishKeeps P = (id : Text) (d : Db) → P d → P (Outbox.mark_published_row id d).1

pub record IsClosed (P : Db → Type 0) : Type 0 where
  pub stable : IsStable P
  pub mark_published : PublishKeeps P

module _ (P : Db → Type 0) (c : IsStable P) where
  abbrev pub Kept : World → Type 0
  Kept w = P w.db

  keep-sql :
      {A : Type 0} (stmt : Exec Db A) → ((d : Db) → P d → P (stmt d).1) → Keeps Kept (sql stmt)
  keep-sql = Keeps-sql P

  keep-gets : {A : Type 0} (f : Db → A) → Keeps Kept (sql (gets f))
  unfolding gets
  keep-gets f = keep-sql (gets f) (λ d h. h)

  keep-same : {A : Type 0} (call : Io A) → ((w : World) → (call w).1.db ≡ w.db) → Keeps Kept call
  keep-same = Keeps-same_db P

  ruleset calls = (keeps_rules, keep-gets, keep-sql, keep-same, redis-db, time_now-db, rand_read-db)

  -- The same at the level of the calls.
  pub stable-AllowsCalls : AllowsCalls Kept
  stable-AllowsCalls = IsWritten-AllowsCalls P (record {
    insert_purchase = c.insert_purchase;
    update_purchase = c.update_purchase;
    mark_used = c.mark_used;
    insert_review = c.insert_review;
    insert_event = c.insert_event;
    insert_key = c.insert_key;
    insert_outbox = c.insert_outbox;
  })

  pub start-Kept : (cmd : StartPurchase.Command) → Keeps Kept (StartPurchase.handle cmd)
  start-Kept cmd = start-Keeps stable-AllowsCalls cmd

  pub confirm-Kept : (e : Event) → Keeps Kept (ConfirmPayment.handle e)
  confirm-Kept e = confirm-Keeps stable-AllowsCalls e

  pub submit-Kept : (cmd : SubmitReview.Command) → Keeps Kept (SubmitReview.handle cmd)
  submit-Kept cmd = submit-Keeps stable-AllowsCalls cmd

  pub use-Kept :
      (sum256 : Text → List ℕ) (cache : Tokens.RedisClient) (token : Text)
      → Keeps Kept (UseAccess.handle sum256 cache token)
  use-Kept sum256 cache token = use-Keeps stable-AllowsCalls sum256 cache token

  module _ (has_bot : Bool) where
    send_access_link-Kept :
        (user : ℤ) (link : Text) → Keeps Kept (send_access_link has_bot user link)
    send_access_link-Kept user link = keep-same _ (send_access_link-db has_bot user link)

    request-Kept : (p : Purchase) → Keeps Kept (RequestReview.request has_bot p)
    unfolding RequestReview.request Purchases.update
    request-Kept p = search (calls, send_review_request-db, c.update_purchase) depth 30

    unless_reviewed-Kept :
        (r : Result (Option Review)) (p : Purchase)
        → Keeps Kept (RequestReview.unless_reviewed has_bot r p)
    unfolding RequestReview.unless_reviewed
    unless_reviewed-Kept (ok (some _)) p = search calls
    unless_reviewed-Kept (ok none) p = request-Kept p
    unless_reviewed-Kept (err _) p = request-Kept p

    pub request_review-Kept : (pid : Text) → Keeps Kept (RequestReview.handle has_bot pid)
    unfolding RequestReview.handle Purchases.get_by_id Purchases.select_one
        Reviews.get_by_purchase_id
    request_review-Kept pid = search (calls, unless_reviewed-Kept) depth 30

  module _ (h : Handler) where
    pub finish-Kept :
        (link raw : Text) (p : Purchase) → Keeps Kept (IssueAccess.finish h link raw p)
    unfolding IssueAccess.finish Purchases.update
    finish-Kept link raw p = search (calls, send_access_link-db, c.update_purchase) depth 30

    grant_access-Kept :
        (link : Text) (expires_at : ℕ) (p : Purchase)
        → Keeps Kept (IssueAccess.grant_access h link expires_at p)
    unfolding IssueAccess.grant_access generate Tokens.put Grants.create
    grant_access-Kept link expires_at p = search (calls, c.insert_grant, finish-Kept) depth 30

    after_provider-Kept :
        (r : Result (Text × ℕ)) (p : Purchase) → Keeps Kept (IssueAccess.after_provider h r p)
    unfolding IssueAccess.after_provider Purchases.update
    after_provider-Kept (ok (link, expires_at)) p = grant_access-Kept link expires_at p
    after_provider-Kept (err e) p = search (calls, c.update_purchase) depth 30

    pub issue-Kept : (pid : Text) → Keeps Kept (IssueAccess.handle h pid)
    unfolding IssueAccess.handle Purchases.get_by_id Purchases.select_one Contents.get_by_id
    issue-Kept pid = search (calls, after_provider-Kept, h.provider.issue_access_link-db) depth 30

    module _ (publish : PublishKeeps P) where
      after_issue-Kept :
          (r : Result (Unit {0})) (e : Jobs.OutboxEvent) → Keeps Kept (Jobs.after_issue h r e)
      unfolding Jobs.after_issue Outbox.mark_published
      after_issue-Kept (ok _) e = search (calls, publish)
      after_issue-Kept (err _) e = search calls

      process_all-Kept : (es : List Jobs.OutboxEvent) → Keeps Kept (Jobs.process_all h es)
      unfolding Jobs.process_all Jobs.process_event
      process_all-Kept [] = search calls
      process_all-Kept (e ∷ es) =
          Triple-bind (search (calls, issue-Kept, after_issue-Kept) depth 30)
            λ _. process_all-Kept es

      pub run_once-Kept : Keeps Kept (Jobs.run_once h)
      unfolding Jobs.run_once Outbox.unpublished
      run_once-Kept = search (calls, process_all-Kept) depth 30
