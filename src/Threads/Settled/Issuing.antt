-- ===== src/Threads/Settled/Issuing.antt =====
-- The issue of a link and the round of the outbox processor, beside other threads. The processor
-- has read a confirmation of the purchase, which stays; so the purchase that it reads is not
-- pending, and what it writes back is not either.
use streaming_bot.Prelude.{
  ℕ, ◌<◌, Text, text, text_eq, true, false, find, ◌≡◌, ◌≢◌, refl, sym, ◌∙◌, arith, Option, none,
  some, Bool,
}
use streaming_bot.Prelude.Tables.{any_of_find, find-some}
use streaming_bot.Prelude.Int.{ℤ}
use streaming_bot.Exec.{Result, ok, err, gets, message}
use streaming_bot.Exec.Triple.{OnSome}
use streaming_bot.World.{Db, PurchaseRow, time_now, rand_read}
use streaming_bot.World.Calls.{time_now-db, redis-db, rand_read-db, send-db}
use streaming_bot.Domain.Purchase.{
  Purchase, status_text, mark_access_issued, register_issue_access_failure,
}
use streaming_bot.Domain.Purchase.Lifecycle.{status_text-parse_status}
use streaming_bot.Storage.Purchases
use streaming_bot.Storage.Purchases.{to_row, of_row, select_one, nullable_string}
use streaming_bot.Storage.Grants
use streaming_bot.Storage.Tokens
use streaming_bot.Storage.Tokens.{RedisClient}
use streaming_bot.Storage.Contents
use streaming_bot.App.IssueAccess.{Handler}
use streaming_bot.System.Sound.{is_pending, confirmations}
use streaming_bot.System.Sound.Issue.{found_id}
use streaming_bot.Threads.{one, ignored}
use streaming_bot.Threads.Issuing.{
  sending_link, generating, finishing, granting, answering, issuing,
}
use streaming_bot.Threads.Rely.{Known}
use streaming_bot.Threads.Rely.Guards.{
  Guards, Guards-and_then, Guards-attempted, Guards-presented, Guards-raised_if, Guards-returned,
  Guards-applied, Guards-given, Guards-weaken, Guards-ignored, Guards-raised,
}
use streaming_bot.Threads.Rely.Calls.{Guards-gets}
use streaming_bot.Threads.Settled.{IsPaidFor, paid_rely}
use streaming_bot.Threads.Settled.Statements.{update_row-Keeps, insert_grant-Keeps}
use streaming_bot.Threads.Rely.Keeping.{Any, keep-sql, keep-same}
use streaming_bot.Threads.Settled.{Stays}
use streaming_bot.Threads.Quiet.{IsQuiet, quiet_rules}

module _ (k : Text) where
  ruleset calls = (quiet_rules, time_now-db, redis-db, rand_read-db, send-db)

  sending_link-IsQuiet :
      (has_bot : Bool) (user : ℤ) (link : Text)
      → IsQuiet (paid_rely k) (sending_link has_bot user link)
  unfolding sending_link
  sending_link-IsQuiet false user link = search calls
  sending_link-IsQuiet true user link = search calls

  time_now-IsQuiet : IsQuiet (paid_rely k) (one time_now)
  time_now-IsQuiet = search calls

  put-IsQuiet :
      (cache : RedisClient) (hash id : Text) (ttl : ℤ)
      → IsQuiet (paid_rely k) (ignored (one (Tokens.put cache hash id ttl)))
  unfolding Tokens.put
  put-IsQuiet cache hash id ttl = search calls

  -- A purchase that was read is confirmed and was not pending.
  abbrev Late : Purchase → Type 0
  Late p = p.id ≡ k → status_text p.status ≢ text "pending"

  failed-Late :
      (p : Purchase) (e : Text) (now : ℕ) (limit : ℤ)
      → Late p
      → Late (register_issue_access_failure e now limit p)
  unfolding register_issue_access_failure status_text
  failed-Late p e now limit late = ground arith

  OnSome-there :
      {A : Type 0} (P : Db → Type 0) (o : Option A) (d : Db) → P d → OnSome (λ _. P) Any o d
  OnSome-there P none d p = tt
  OnSome-there P (some a) d p = p

  abbrev pub Confirmed : Text → Db → Type 0
  Confirmed id d = id ≡ k → 0 < confirmations k d

  pub Confirmed-Stays : (id : Text) → Stays k (Confirmed id)
  Confirmed-Stays id d e x h = λ same. x.confirmed (h same)

  found-Late :
      (id : Text) (d : Db) (r : PurchaseRow)
      → IsPaidFor k d
      → Confirmed id d
      → find (λ r. text_eq r.id id) d.purchases ≡ some r
      → r.id ≡ id
      → Late (of_row r)
  unfolding of_row
  found-Late id d r i c e same at pending = ground (
    arith,
    c (sym same ∙ at),
    any_of_find (λ r. text_eq r.id id) (is_pending k) d.purchases r e,
    status_text-parse_status r.status,
  )

  find-Late :
      (id : Text) (d : Db)
      → IsPaidFor k d
      → Confirmed id d
      → OnSome
          (λ p d. Confirmed p.id d × Late p)
          Any
          (elim (find (λ r. text_eq r.id id) d.purchases) [
            | none ↦ none
            | some r ↦ some (of_row r)
          ])
          d
  find-Late id d i c = go (find (λ r. text_eq r.id id) d.purchases) refl
    where
      go :
          (o : Option PurchaseRow)
          → find (λ r. text_eq r.id id) d.purchases ≡ o
          → OnSome
              (λ p d. Confirmed p.id d × Late p)
              Any
              (elim o [ none ↦ none | some r ↦ some (of_row r) ])
              d
      go none e = tt
      go (some r) e =
          let found = find-some (λ r. text_eq r.id id) d.purchases r e in
          let same = found_id r id found in
          (λ at. c (sym same ∙ at), found-Late id d r i c e (ground arith))

  update-guards :
      (P : Db → Type 0) (p : Purchase)
      → Stays k P
      → Late p
      → Guards (paid_rely k) P (one (Purchases.update p)) (λ _. P)
  unfolding Purchases.update to_row
  update-guards P p kept late =
      keep-sql (paid_rely k) P kept _ λ d i c. update_row-Keeps k d i (to_row p) late

  -- After `MarkAccessIssued` nothing has to be known any more.
  finish-guards :
      (h : Handler) (link raw : Text) (p : Purchase)
      → Guards (paid_rely k) Any (finishing h link raw p) (λ _. Any)
  unfolding finishing mark_access_issued status_text
  finish-guards h link raw p =
      Guards-and_then (paid_rely k)
        (Guards-applied (paid_rely k) {Q = λ q d. Any d × Late q} p mark_access_issued
          λ d a done. (tt, λ same pending. ground arith))
        λ q. Guards-given (paid_rely k) λ late.
          Guards-and_then (paid_rely k) (update-guards Any q (λ d e x a. tt) late)
            λ _. (sending_link-IsQuiet h.has_bot q.user_id _).guards

  module _ (h : Handler) where
    generating-guards :
        (P : Db → Type 0) → Stays k P → Guards (paid_rely k) P (generating h) (λ _. P)
    unfolding generating
    generating-guards P kept =
        Guards-and_then (paid_rely k)
          (keep-same (paid_rely k) P kept (rand_read 32) (rand_read-db 32))
          λ buf. Guards-returned (paid_rely k) _ (λ d p. p)

    granting-guards :
        (link : Text) (until : ℕ) (p : Purchase)
        → Guards (paid_rely k) (Confirmed p.id) (granting h link until p) (λ _. Any)
    unfolding granting Grants.create Tokens.put
    granting-guards link until p =
        let kept = Confirmed-Stays p.id in
        Guards-and_then (paid_rely k) (generating-guards (Confirmed p.id) kept) λ token.
          Guards-and_then (paid_rely k)
            (keep-same (paid_rely k) (Confirmed p.id) kept time_now time_now-db)
            λ now.
              Guards-and_then (paid_rely k)
                (keep-sql (paid_rely k) (Confirmed p.id) kept _
                  (λ d i c. insert_grant-Keeps k d i _ c))
                λ _.
                  Guards-weaken (paid_rely k) (λ d c. tt)
                    (Guards-and_then (paid_rely k) time_now-IsQuiet.guards λ later.
                      Guards-and_then (paid_rely k) (put-IsQuiet h.cache _ p.id _).guards
                        λ _. finish-guards h link token.0 p)

    answering-guards :
        (r : Result (Text × ℕ)) (p : Purchase)
        → Late p
        → Guards
            (paid_rely k)
            (Known (paid_rely k) (λ _. Confirmed p.id) r)
            (answering h r p)
            (λ _. Any)
    unfolding answering
    answering-guards (ok (link, until)) p late = granting-guards link until p
    answering-guards (err e) p late = Guards-and_then (paid_rely k) time_now-IsQuiet.guards λ now.
        Guards-and_then (paid_rely k)
          (Guards-ignored (paid_rely k) (
            update-guards Any _ (λ d e x a. tt) (failed-Late p (message e) now h.max_retries late)))
          λ _. Guards-raised (paid_rely k) e

    pub issuing-guards : (id : Text) → Guards (paid_rely k) (Confirmed id) (issuing h id) (λ _. Any)
    unfolding issuing Purchases.get_by_id Contents.get_by_id select_one gets
    issuing-guards id =
        Guards-and_then (paid_rely k)
          (Guards-attempted (paid_rely k) (
            Guards-gets (paid_rely k) (Confirmed-Stays id) _
              (OnSome (λ p d. Confirmed p.id d × Late p) Any) (find-Late id)))
          λ found. Guards-and_then (paid_rely k) (Guards-presented (paid_rely k) Any found _) λ p.
            Guards-given (paid_rely k) λ late.
              let kept = Confirmed-Stays p.id in
              Guards-and_then (paid_rely k)
                (Guards-attempted (paid_rely k) (
                  Guards-gets (paid_rely k) kept _ (OnSome (λ _. Confirmed p.id) Any)
                    (λ d i c. OnSome-there (Confirmed p.id) _ d c)))
                λ item.
                  Guards-and_then (paid_rely k) (Guards-presented (paid_rely k) Any item _) λ c.
                    Guards-and_then (paid_rely k) (Guards-raised_if (paid_rely k) _ _) λ _.
                      Guards-and_then (paid_rely k)
                        (Guards-attempted (paid_rely k) (
                          keep-same (paid_rely k) (Confirmed p.id) kept _
                            (h.provider.issue_access_link-db c.external_ref p.user_id h.ttl p.id)))
                        λ issued. answering-guards issued p late
