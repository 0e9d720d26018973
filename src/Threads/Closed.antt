-- ===== src/Threads/Closed.antt =====
-- A property of the tables that every statement keeps, kept beside other threads.
use streaming_bot.Prelude.{ℕ, Text, List, [], ◌∷◌, Bool, true, false}
use streaming_bot.Prelude.Int.{ℤ}
use streaming_bot.Exec.{Result, ok, err}
use streaming_bot.World.{Db, PurchaseRow}
use streaming_bot.World.Calls.{time_now-db, redis-db, rand_read-db, send-db}
use streaming_bot.Domain.Access.{Grant}
use streaming_bot.Domain.Payment.{Event}
use streaming_bot.Domain.Purchase.{Purchase}
use streaming_bot.Storage.Purchases
use streaming_bot.Storage.Contents
use streaming_bot.Storage.Grants
use streaming_bot.Storage.Tokens
use streaming_bot.Storage.Payments
use streaming_bot.Storage.Payments.{is_processed, save_payment_event, mark_processed}
use streaming_bot.Storage.Outbox
use streaming_bot.Storage.Outbox.{publish_purchase_confirmed}
use streaming_bot.App.IssueAccess.{Handler}
use streaming_bot.Jobs
use streaming_bot.System.Closed.{IsClosed}
use streaming_bot.Threads.UseCases.{publishing, writing_paid, confirming_due, confirming}
use streaming_bot.Threads.Issuing.{
  sending_link, generating, finishing, granting, answering, issuing, marking, processing,
  processing_all, working,
}
use streaming_bot.Threads.Rely.{Rely}
use streaming_bot.Threads.Rely.Keeping.{Grows}
use streaming_bot.Threads.Quiet.{IsQuiet, quiet_rules, returned-IsQuiet, and_then-IsQuiet}
use streaming_bot.Threads.Quiet.Allows.{Allows}

-- Once it holds, it goes on holding.
abbrev pub closed_rely : (Db → Type 0) → Rely
closed_rely P = record {
  holds = λ d. Unit;
  extends = λ d e. P d → P e;
  same = λ d p. p;
  later = λ x y p. y (x p);
}

module _ (P : Db → Type 0) (c : IsClosed P) where
  abbrev R : Rely
  R = closed_rely P

  grows : (d e : Db) → (P d → P e) → Grows R d e
  grows d e f = (tt, f)

  update_purchase : (r : PurchaseRow) (d : Db) → Unit {0} → Grows R d (Purchases.update_row r d).1
  update_purchase r d i = grows d _ (c.stable.update_purchase r d)

  insert_grant : (g : Grant) (d : Db) → Unit {0} → Grows R d (Grants.insert_row g d).1
  insert_grant g d i = grows d _ (c.stable.insert_grant g d)

  insert_event : (e : Event) (d : Db) → Unit {0} → Grows R d (Payments.insert_event e d).1
  insert_event e d i = grows d _ (c.stable.insert_event e d)

  insert_key : (key : Text) (d : Db) → Unit {0} → Grows R d (Payments.insert_key key d).1
  insert_key key d i = grows d _ (c.stable.insert_key key d)

  insert_outbox : (id pid : Text) (d : Db) → Unit {0} → Grows R d (Outbox.insert_row id pid d).1
  insert_outbox id pid d i = grows d _ (c.stable.insert_outbox id pid d)

  mark_published : (id : Text) (d : Db) → Unit {0} → Grows R d (Outbox.mark_published_row id d).1
  mark_published id d i = grows d _ (c.mark_published id d)

  ruleset calls = (
    quiet_rules, time_now-db, redis-db, rand_read-db, send-db, update_purchase, insert_grant,
    insert_event, insert_key, insert_outbox, mark_published,
  )

  publishing-IsQuiet : (id : Text) → IsQuiet R (publishing id)
  unfolding publishing publish_purchase_confirmed
  publishing-IsQuiet id = search calls depth 30

  writing_paid-IsQuiet : (e : Event) (p : Purchase) → IsQuiet R (writing_paid e p)
  unfolding writing_paid Purchases.update save_payment_event mark_processed
  writing_paid-IsQuiet e p = search (calls, publishing-IsQuiet) depth 30

  confirming_due-IsQuiet : (e : Event) → IsQuiet R (confirming_due e)
  unfolding confirming_due Purchases.get_by_payload Purchases.select_one
  confirming_due-IsQuiet e = search (calls, writing_paid-IsQuiet) depth 30

  confirming-IsQuiet : (e : Event) → IsQuiet R (confirming e)
  unfolding confirming is_processed
  confirming-IsQuiet e = search (calls, confirming_due-IsQuiet) depth 30

  sending_link-IsQuiet :
      (has_bot : Bool) (user : ℤ) (link : Text) → IsQuiet R (sending_link has_bot user link)
  unfolding sending_link
  sending_link-IsQuiet false user link = search calls
  sending_link-IsQuiet true user link = search calls

  module _ (h : Handler) where
    generating-IsQuiet : IsQuiet R (generating h)
    unfolding generating
    generating-IsQuiet = search calls

    finishing-IsQuiet : (link raw : Text) (p : Purchase) → IsQuiet R (finishing h link raw p)
    unfolding finishing Purchases.update
    finishing-IsQuiet link raw p = search (calls, sending_link-IsQuiet) depth 30

    granting-IsQuiet :
        (link : Text) (until : ℕ) (p : Purchase) → IsQuiet R (granting h link until p)
    unfolding granting Grants.create Tokens.put
    granting-IsQuiet link until p = search (calls, generating-IsQuiet, finishing-IsQuiet) depth 30

    answering-IsQuiet : (r : Result (Text × ℕ)) (p : Purchase) → IsQuiet R (answering h r p)
    unfolding answering Purchases.update
    answering-IsQuiet (ok (link, until)) p = granting-IsQuiet link until p
    answering-IsQuiet (err e) p = search calls depth 30

    issuing-IsQuiet : (id : Text) → IsQuiet R (issuing h id)
    unfolding issuing Purchases.get_by_id Contents.get_by_id Purchases.select_one
    issuing-IsQuiet id = search (calls, answering-IsQuiet, h.provider.issue_access_link-db) depth 30

    marking-IsQuiet : (r : Result (Unit {0})) (e : Jobs.OutboxEvent) → IsQuiet R (marking h r e)
    unfolding marking Outbox.mark_published
    marking-IsQuiet (ok _) e = search calls
    marking-IsQuiet (err _) e = search calls

    processing-IsQuiet : (e : Jobs.OutboxEvent) → IsQuiet R (processing h e)
    unfolding processing
    processing-IsQuiet e = search (calls, issuing-IsQuiet, marking-IsQuiet) depth 30

    processing_all-IsQuiet : (es : List Jobs.OutboxEvent) → IsQuiet R (processing_all h es)
    unfolding processing_all
    processing_all-IsQuiet [] = returned-IsQuiet tt
    processing_all-IsQuiet (e ∷ es) =
        and_then-IsQuiet (processing-IsQuiet e) λ _. processing_all-IsQuiet es

    working-IsQuiet : IsQuiet R (working h)
    unfolding working Outbox.unpublished
    working-IsQuiet = search (calls, processing_all-IsQuiet) depth 30

  pub closed-Allows : Allows R
  closed-Allows = record {
    insert_purchase = λ r d p. grows d _ (c.stable.insert_purchase r d);
    mark_used = λ id d p. grows d _ (c.stable.mark_used id d);
    insert_review = λ r d p. grows d _ (c.stable.insert_review r d);
    upsert_content = λ i d p. grows d _ (c.stable.upsert_content i d);
    delete_content = λ id d p. grows d _ (c.stable.delete_content id d);
    seed_content = λ i d p. grows d _ (c.stable.seed_content i d);
    advance = λ now d p. grows d _ (c.stable.advance now d);
    confirm = confirming-IsQuiet;
    work = working-IsQuiet;
  }
