-- ===== src/App/IssueAccess/Outcome.antt =====
-- What the issue of a link leaves behind, when the provider gives the link and when it does not.
use streaming_bot.Prelude.{
  ℕ, ◌+◌, ◌≤◌, refl, update_where, Text, text, text_eq, [], ◌∷◌, ◌++◌, some, true, false, not, ◌&&◌,
  any, find, length, ◌≡◌, arith, if◌then◌else◌,
}
use streaming_bot.Prelude.Int.{ℤ, pos, ltb_ℤ, is_int4}
use streaming_bot.Prelude.Tables.{any_mono, find-update_where, find-some}
use streaming_bot.Exec.{
  Error, ok, err, message, ◌>>=◌, pure, raise, attempt, present, raise_if, ignore, on, gets,
}
use streaming_bot.World.{text_message, World, Db, PurchaseRow, sql, send, time_now}
use streaming_bot.Domain.Content.{Content, can_be_purchased}
use streaming_bot.Domain.Purchase.{
  paid, access_issued, error, mark_access_issued, register_issue_access_failure,
}
use streaming_bot.Storage.Purchases
use streaming_bot.Storage.Purchases.{to_row, of_row, update_row}
use streaming_bot.Storage.Contents
use streaming_bot.Storage.Grants
use streaming_bot.App.Sender.{send_access_link}
use streaming_bot.App.IssueAccess.{Handler, finish, grant_access, after_provider, handle}
use streaming_bot.App.IssueAccess.Granted.{raw_token, grant_of, granted_world, grant_access-finish}

-- The purchase `r` and its item are there and on sale, and the database answers.
pub record IsOffered (id : Text) (r : PurchaseRow) (c : Content) (w : World) : Type 0 where
  pub calm : w.net ≡ []
  pub found : find (λ q. text_eq q.id id) w.db.purchases ≡ some r
  pub item : find (λ q. text_eq q.id r.content_id) w.db.content ≡ some c
  pub on_sale : can_be_purchased c ≡ true

-- The row after a failed attempt: one more is counted, with its error and its time, and at the limit
-- the status is `error`.
abbrev pub failed_row : Text → ℕ → ℤ → PurchaseRow → PurchaseRow
failed_row reason now limit r = to_row (record (of_row r) {
  issue_link_attempts = r.issue_link_attempts + 1;
  last_issue_link_error = reason;
  last_issue_link_at = some now;
  status = if ltb_ℤ (pos (r.issue_link_attempts + 1)) limit then (of_row r).status else error;
})

handle-failed :
    (h : Handler) (id : Text) (r : PurchaseRow) (c : Content) (e : Error) (w : World)
    → IsOffered id r c w
    → h.provider.issue_access_link c.external_ref r.user_id h.ttl r.id w ≡ (err e, w)
    → handle h id w ≡ (
      err e,
      record w {
        db =
            (update_row
              (to_row (register_issue_access_failure (message e) w.clock h.max_retries (of_row r)))
              w.db).1;
      },
    )
unfolding handle after_provider Purchases.get_by_id Purchases.select_one Purchases.update of_row
    Contents.get_by_id sql gets ◌>>=◌ raise_if attempt present ignore time_now raise
handle-failed h id r c e w offered fails = ground arith

registered :
    (e : Error) (now : ℕ) (limit : ℤ) (r : PurchaseRow)
    → to_row (register_issue_access_failure (message e) now limit (of_row r))
      ≡ failed_row (message e) now limit r
unfolding register_issue_access_failure of_row to_row
registered e now limit r = ground arith

clashes-failed :
    (reason : Text) (now : ℕ) (limit : ℤ) (r q : PurchaseRow)
    → Purchases.clashes (failed_row reason now limit r) q ≡ true
    → Purchases.clashes r q ≡ true
unfolding to_row of_row Purchases.nullable_string
clashes-failed reason now limit r q h = ground arith

update_row-failed :
    (reason : Text) (now : ℕ) (limit : ℤ) (r : PurchaseRow) (d : Db)
    → is_int4 (pos (r.issue_link_attempts + 1)) ≡ true
    → any (λ q. not (text_eq q.id r.id) && Purchases.clashes r q) d.purchases ≡ false
    → (update_row (failed_row reason now limit r) d).1 ≡ record d {
      purchases =
          update_where (λ q. text_eq q.id r.id) (λ _. failed_row reason now limit r) d.purchases;
    }
unfolding update_row to_row of_row
update_row-failed reason now limit r d counted alone = ground (
  arith,
  any_mono (λ q. not (text_eq q.id r.id) && Purchases.clashes (failed_row reason now limit r) q)
      (λ q. not (text_eq q.id r.id) && Purchases.clashes r q) d.purchases
      (λ q p. ground (arith, clashes-failed reason now limit r q)),
)

-- The purchase and its item are there and on sale, the database answers, one attempt more fits its
-- column, no other row is in the way of an update, and the provider fails and leaves the world as it is: the call returns the
-- provider's error, and nothing is written but the row of the purchase. That has one attempt more
-- than before, the error's text and the time of the failure, and the status `error` if the attempts
-- have reached the limit and the one that it had if not; its other columns, the other rows and
-- tables, and what was sent are as before.
pub issue_failed :
    (h : Handler) (id : Text) (r : PurchaseRow) (c : Content) (e : Error) (w : World)
    → IsOffered id r c w
    → is_int4 (pos (r.issue_link_attempts + 1)) ≡ true
    → any (λ q. not (text_eq q.id r.id) && Purchases.clashes r q) w.db.purchases ≡ false
    → h.provider.issue_access_link c.external_ref r.user_id h.ttl r.id w ≡ (err e, w)
    → handle h id w ≡ (
      err e,
      record w {
        db = record w.db {
          purchases =
              update_where
                (λ q. text_eq q.id r.id)
                (λ _. failed_row (message e) w.clock h.max_retries r)
                w.db.purchases;
        };
      },
    )
issue_failed h id r c e w offered counted alone fails =
    rw
      (
        handle-failed h id r c e w offered fails,
        registered e w.clock h.max_retries r,
        update_row-failed (message e) w.clock h.max_retries r w.db counted alone,
      )
      refl

-- The purchase is paid and its count of attempts fits its column, the provider gives a link, there is
-- entropy for the token, and nothing in the tables is in the way of the grant or of the new status.
pub record IsIssuable (h : Handler) (r : PurchaseRow) (c : Content) (link : Text) (until : ℕ)
    (w : World) : Type 0 where
  pub is_paid : (of_row r).status ≡ paid
  pub given :
      h.provider.issue_access_link c.external_ref r.user_id h.ttl r.id w ≡ (ok (link, until), w)
  pub counted : is_int4 (pos r.issue_link_attempts) ≡ true
  pub random : 32 ≤ length w.entropy
  pub fresh : any (Grants.clashes (grant_of h r until w)) w.db.access_grants ≡ false
  pub alone : any (λ q. not (text_eq q.id r.id) && Purchases.clashes r q) w.db.purchases ≡ false

-- What is left behind.
pub record HasIssued (h : Handler) (id : Text) (r : PurchaseRow) (link : Text) (until : ℕ)
    (w w' : World) : Type 0 where
  pub issued :
      find (λ q. text_eq q.id id) w'.db.purchases
      ≡ some (to_row (record (of_row r) { status = access_issued }))
  pub granted : w'.db.access_grants ≡ w.db.access_grants ++ grant_of h r until w ∷ []
  pub sent : w'.sent ≡ (
      if h.has_bot
      then w.sent
        ++ text_message (record {
          chat_id = r.user_id;
          body = text "Your access link is ready:\n" ++ (link ++ (text "?token=" ++ raw_token w));
          buttons = [];
        })
          ∷ []
      else w.sent)
  pub clock : w'.clock ≡ w.clock
  pub net : w'.net ≡ []

clashes-issued :
    (r q : PurchaseRow)
    → Purchases.clashes (to_row (record (of_row r) { status = access_issued })) q ≡ true
    → Purchases.clashes r q ≡ true
unfolding to_row of_row Purchases.nullable_string
clashes-issued r q h = ground arith

update_row-alone :
    (r : PurchaseRow) (d : Db)
    → is_int4 (pos r.issue_link_attempts) ≡ true
    → any (λ q. not (text_eq q.id r.id) && Purchases.clashes r q) d.purchases ≡ false
    → (update_row (to_row (record (of_row r) { status = access_issued })) d).0 ≡ ok tt
unfolding update_row to_row of_row
update_row-alone r d counted alone = ground (
  arith,
  any_mono
      (λ q.
        not (text_eq q.id r.id)
        && Purchases.clashes (to_row (record (of_row r) { status = access_issued })) q)
      (λ q. not (text_eq q.id r.id) && Purchases.clashes r q) d.purchases
      (λ q p. ground (arith, clashes-issued r q)),
)

pub handle-grant_access :
    (h : Handler) (id : Text) (r : PurchaseRow) (c : Content) (link : Text) (until : ℕ) (w : World)
    → IsOffered id r c w
    → h.provider.issue_access_link c.external_ref r.user_id h.ttl r.id w ≡ (ok (link, until), w)
    → handle h id w ≡ grant_access h link until (of_row r) w
unfolding handle after_provider Purchases.get_by_id Purchases.select_one Contents.get_by_id of_row
    sql gets ◌>>=◌ raise_if attempt present
handle-grant_access h id r c link until w offered given = ground arith

finish-HasIssued :
    (h : Handler) (id : Text) (r : PurchaseRow) (link : Text) (until : ℕ) (w : World)
    → w.net ≡ []
    → find (λ q. text_eq q.id id) w.db.purchases ≡ some r
    → (of_row r).status ≡ paid
    → (update_row (to_row (record (of_row r) { status = access_issued })) w.db).0 ≡ ok tt
    → let v = finish h link (raw_token w) (of_row r) (granted_world h r until w) in
      (v.0 ≡ ok tt) × HasIssued h id r link until w v.1
unfolding finish mark_access_issued on Purchases.update update_row of_row to_row sql
    send_access_link send ◌>>=◌ pure
finish-HasIssued h id r link until w calm found is_paid updated = (
  ground arith,
  record {
    issued = ground (
      arith,
      find-some (λ q. text_eq q.id id) w.db.purchases r found,
      find-update_where (λ q. text_eq q.id id) (λ q. text_eq q.id r.id) w.db.purchases r
          (to_row (record (of_row r) { status = access_issued })),
    );
    granted = ground arith;
    sent = ground arith;
    clock = ground arith;
    net = ground arith;
  },
)

-- The purchase and its item are there and on sale, the purchase is paid, the services answer, the
-- provider gives a link, there is entropy for the token, and no row is in the way: the call
-- returns no error; the purchase becomes `access_issued`; its one new grant holds the digest of
-- the raw token and the provider's expiry; and where there is a bot the user gets one message
-- with the link and the raw token.
pub issue_effects :
    (h : Handler) (id : Text) (r : PurchaseRow) (c : Content) (link : Text) (until : ℕ) (w : World)
    → IsOffered id r c w
    → IsIssuable h r c link until w
    → ((handle h id w).0 ≡ ok tt) × HasIssued h id r link until w (handle h id w).1
issue_effects h id r c link until w offered issuable =
    rw
      (
        handle-grant_access h id r c link until w offered issuable.given,
        grant_access-finish h r link until w offered.calm issuable.random issuable.fresh,
      )
      (finish-HasIssued h id r link until w offered.calm offered.found issuable.is_paid
        (update_row-alone r w.db issuable.counted issuable.alone))
