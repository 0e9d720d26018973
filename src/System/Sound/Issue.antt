-- ===== src/System/Sound/Issue.antt =====
-- The issue of a link, and the request of a review, keep the tables sound: both read a purchase
-- and write it back later.
use streaming_bot.Prelude.{
  ℕ, ◌<◌, Text, text_eq, true, Bool, ◌≡◌, arith, ◌∙◌, sym, Option, some, none,
}
use streaming_bot.Exec.{Result, ok, err, on, ◌>>=◌, message, ignore, attempt, gets}
use streaming_bot.Exec.Triple.{
  Triple, Triple-bind, Triple-raise_if, Triple-lookup, Triple-given, Triple-weaken, Keeps,
  Triple_of_state, Triple-ignore, Triple-raise, Triple-pure, Keeps-attempt,
}
use streaming_bot.World.{World, Db, PurchaseRow, sql, redis, time_now, rand_read}
use streaming_bot.World.Calls.{Triple-sql, time_now-db, redis-db, ignore-db, attempt-db, Keeps-sql}
use streaming_bot.Domain.Purchase.{
  Purchase, mark_access_issued, register_issue_access_failure, status_text,
}
use streaming_bot.Storage.Purchases
use streaming_bot.Storage.Purchases.{of_row}
use streaming_bot.System.Sound.{IsSound, Sound}
use streaming_bot.System.Sound.Statements.{Read, update-IsSound, insert_grant-IsSound}
use streaming_bot.System.Sound.Handlers.{keep-lookup, Read', get-Read, keep-Read, keep-same}
use streaming_bot.App.IssueAccess
use streaming_bot.App.IssueAccess.{Handler}
use streaming_bot.App.RequestReview
use streaming_bot.App.Sender.{
  send_access_link, send_review_request, send_access_link-db, send_review_request-db,
}
use streaming_bot.Domain.Access.{Grant}
use streaming_bot.Storage.Grants
use streaming_bot.Storage.Tokens
use streaming_bot.Storage.Reviews
use streaming_bot.Domain.Review.{Review}
use streaming_bot.Storage.Contents
use streaming_bot.Platform.Crypto.{generate}

pub found_id : (r : PurchaseRow) (id : Text) → text_eq r.id id ≡ true → (of_row r).id ≡ id
unfolding of_row
found_id r id e = ground arith

module _ (k : Text) (m : ℕ) where
  -- `Update` of a purchase that was read.
  update-Sound :
      (p : Purchase) → Triple (Read' k m p) (Purchases.update p) (λ _. Sound k m) (Sound k m)
  unfolding Purchases.update
  update-Sound p =
      Triple-sql (Read k m p) (λ _. IsSound k m) (IsSound k m) (λ _ d h. h) (λ d h. h.0)
        (Triple_of_state (update-IsSound k m p))

  Read-failed :
      (e : Text) (now : ℕ) (limit : _) (p : Purchase) (w : World)
      → Read' k m p w
      → Read' k m (register_issue_access_failure e now limit p) w
  unfolding register_issue_access_failure status_text
  Read-failed e now limit p w h = ground arith

  on_mark_access_issued :
      (p : Purchase) → Triple (Read' k m p) (on p mark_access_issued) (λ q. Read' k m q) (Sound k m)
  unfolding on mark_access_issued status_text
  on_mark_access_issued p = record { at = λ w h. ground arith }

  module _ (h : Handler) where
    finish-Sound :
        (link raw : Text) (p : Purchase)
        → Triple (Read' k m p) (IssueAccess.finish h link raw p) (λ _. Sound k m) (Sound k m)
    unfolding IssueAccess.finish
    finish-Sound link raw p = Triple-bind (on_mark_access_issued p) λ q.
        Triple-bind (update-Sound q) λ _.
          keep-same k m (send_access_link h.has_bot q.user_id _)
            (send_access_link-db h.has_bot q.user_id _)

    pub generate-db : (w : World) → (generate h.sum256 w).1.db ≡ w.db
    unfolding generate ◌>>=◌ rand_read
    generate-db w = ground arith

    insert_grant-Read :
        (p : Purchase) (g : Grant)
        → (g.purchase_id ≡ k → 0 < m)
        → Triple (Read' k m p) (Grants.create g) (λ _. Read' k m p) (Sound k m)
    unfolding Grants.create Grants.insert_row
    insert_grant-Read p g confirmed =
        Triple-weaken (λ w x. x) (λ a w x. x) (λ w x. x.0)
          (Keeps-sql (Read k m p) (Grants.insert_row g)
            (λ d x. (insert_grant-IsSound k m g confirmed d x.0, ground arith)))

    grant_access-Sound :
        (link : Text) (expires_at : ℕ) (p : Purchase)
        → (p.id ≡ k → 0 < m)
        → Triple
            (Read' k m p)
            (IssueAccess.grant_access h link expires_at p)
            (λ _. Sound k m)
            (Sound k m)
    unfolding IssueAccess.grant_access Tokens.put
    grant_access-Sound link expires_at p confirmed =
        Triple-bind (keep-Read k m p (generate h.sum256) generate-db) λ token.
          Triple-bind (keep-Read k m p time_now time_now-db) λ now.
            Triple-bind (insert_grant-Read p _ confirmed) λ _.
              Triple-bind (keep-Read k m p time_now time_now-db) λ until.
                Triple-bind (keep-Read k m p (ignore (redis _)) (ignore-db (redis _) (redis-db _)))
                  λ _. finish-Sound link token.0 p

    after_provider-Sound :
        (r : Result (Text × ℕ)) (p : Purchase)
        → (p.id ≡ k → 0 < m)
        → Triple (Read' k m p) (IssueAccess.after_provider h r p) (λ _. Sound k m) (Sound k m)
    unfolding IssueAccess.after_provider
    after_provider-Sound (ok (link, expires_at)) p confirmed =
        grant_access-Sound link expires_at p confirmed
    after_provider-Sound (err e) p confirmed =
        Triple-bind (keep-Read k m p time_now time_now-db) λ now.
          Triple-bind
            (Triple-ignore (
              Triple-weaken (λ w x. Read-failed (message e) now h.max_retries p w x) (λ a w x. x)
                (λ w x. x)
                (update-Sound (register_issue_access_failure (message e) now h.max_retries p))))
            λ _. Triple-raise e (λ w x. x)

    -- A link is issued only for a purchase `pid` that is confirmed.
    pub handle_issue-Sound :
        (pid : Text) → (pid ≡ k → 0 < m) → Keeps (Sound k m) (IssueAccess.handle h pid)
    unfolding IssueAccess.handle Purchases.get_by_id Contents.get_by_id
    handle_issue-Sound pid confirmed =
        Triple-lookup (λ p w. Read' k m p w × (p.id ≡ pid)) _
          (get-Read k m _ (λ p. p.id ≡ pid) (λ r e. found_id r pid e))
          λ p. Triple-given λ same.
            Triple-lookup (λ _. Read' k m p) _ (keep-lookup k m (Read k m p) (λ d x. x.0) _)
              λ c.
                Triple-bind
                  (Triple-weaken (λ w x. x) (λ a w x. x) (λ w x. x.0) (Triple-raise_if _ _))
                  λ _. Triple-given λ active.
                    Triple-bind
                      (keep-Read k m p (attempt _) (
                        attempt-db _
                          (h.provider.issue_access_link-db c.external_ref p.user_id h.ttl p.id)))
                      λ issued. after_provider-Sound issued p (λ e. confirmed (sym same ∙ e))

  query-Read :
      {A : Type 0} (p : Purchase) (f : Db → A)
      → Triple (Read' k m p) (attempt (sql (gets f))) (λ _. Read' k m p) (Sound k m)
  unfolding gets
  query-Read p f =
      Triple-weaken (λ w x. x) (λ a w x. x) (λ w x. x.0)
        (Keeps-attempt (Keeps-sql (Read k m p) (gets f) (λ d x. x)))

  module _ (has_bot : Bool) where
    request-Sound :
        (p : Purchase)
        → Triple (Read' k m p) (RequestReview.request has_bot p) (λ _. Sound k m) (Sound k m)
    unfolding RequestReview.request
    request-Sound p =
        Triple-bind
          (keep-Read k m p (send_review_request has_bot p.user_id p.id)
            (send_review_request-db has_bot p.user_id p.id))
          λ _. Triple-bind (keep-Read k m p time_now time_now-db) λ now.
            Triple-weaken (λ w x. x) (λ a w x. x) (λ w x. x)
              (update-Sound (record p { review_requested_at = some now }))

    unless_reviewed-Sound :
        (r : Result (Option Review)) (p : Purchase)
        → Triple
            (Read' k m p)
            (RequestReview.unless_reviewed has_bot r p)
            (λ _. Sound k m)
            (Sound k m)
    unfolding RequestReview.unless_reviewed
    unless_reviewed-Sound (ok (some _)) p = Triple-pure tt (λ w x. x.0)
    unless_reviewed-Sound (ok none) p = request-Sound p
    unless_reviewed-Sound (err _) p = request-Sound p

    -- The request of a review, of any purchase.
    pub handle_request-Sound : (pid : Text) → Keeps (Sound k m) (RequestReview.handle has_bot pid)
    unfolding RequestReview.handle Purchases.get_by_id Reviews.get_by_purchase_id
    handle_request-Sound pid =
        Triple-lookup (λ p w. Read' k m p w × Unit {0}) _ (get-Read k m _ (λ _. Unit) (λ r e. tt))
          λ p.
            Triple-given
              λ _. Triple-bind (query-Read p _) λ existing. unless_reviewed-Sound existing p
