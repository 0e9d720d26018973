-- ===== src/Threads/Settled/Confirming.antt =====
-- The confirmation of a payment beside other threads.
use streaming_bot.Prelude.{
  Text, text, text_eq, true, find, ◌≡◌, ◌≢◌, refl, arith, Option, none, some, Bool,
}
use streaming_bot.Prelude.Tables.{any_of_find}
use streaming_bot.Exec.{ok, gets}
use streaming_bot.Exec.Triple.{OnSome}
use streaming_bot.World.{Db, PurchaseRow, time_now}
use streaming_bot.World.Calls.{time_now-db}
use streaming_bot.Domain.Payment.{Event}
use streaming_bot.Domain.Purchase.{Purchase, paid, mark_paid, status_text}
use streaming_bot.Storage.Purchases
use streaming_bot.Storage.Purchases.{to_row, of_row, select_one, nullable_string}
use streaming_bot.Storage.Payments.{is_processed, save_payment_event, mark_processed}
use streaming_bot.Storage.Outbox.{publish_purchase_confirmed, event_id}
use streaming_bot.System.Sound.{has_row}
use streaming_bot.System.Sound.Statements.{has_row-update, is_pending-update}
use streaming_bot.Threads.{one}
use streaming_bot.Threads.Locals.{applied}
use streaming_bot.Threads.UseCases.{publishing, writing_paid, confirming_due, confirming}
use streaming_bot.Threads.Rely.Guards.{
  Guards, Guards-and_then, Guards-attempted, Guards-presented, Guards-raised_if, Guards-branch,
  Guards-returned, Guards-applied, Guards-given, Guards-weaken,
}
use streaming_bot.Threads.Rely.Calls.{Guards-sql, Guards-gets}
use streaming_bot.Threads.Settled.{IsSettled, paid_rely}
use streaming_bot.Threads.Settled.Statements.{
  update_row-Keeps, insert_event-Keeps, insert_key-Keeps, insert_outbox-Keeps,
}
use streaming_bot.Threads.Rely.Keeping.{Known-of, Any, keep-sql, keep-gets, keep-same}
use streaming_bot.Threads.Settled.{Stays}

module _ (k : Text) where
  -- A purchase that was read has a row from then on.
  abbrev pub Stored : Purchase → Db → Type 0
  Stored p d = p.id ≡ k → has_row k d.purchases ≡ true

  pub Stored-Stays : (p : Purchase) → Stays k (Stored p)
  Stored-Stays p d e x h = λ same. x.row (h same)

  abbrev Settled : Text → Db → Type 0
  Settled id d = id ≡ k → IsSettled k d

  Settled-Stays : (id : Text) → Stays k (Settled id)
  Settled-Stays id d e x h = λ same. x.settled (h same)

  pub find-Stored :
      (q : PurchaseRow → Bool) (d : Db)
      → OnSome Stored Any (elim (find q d.purchases) [ none ↦ none | some r ↦ some (of_row r) ]) d
  unfolding of_row
  find-Stored q d = go (find q d.purchases) refl
    where
      go :
          (o : Option PurchaseRow)
          → find q d.purchases ≡ o
          → OnSome Stored Any (elim o [ none ↦ none | some r ↦ some (of_row r) ]) d
      go none e = tt
      go (some r) e = λ same. any_of_find q (λ s. text_eq s.id k) d.purchases r e (ground arith)

  update_row-Settled :
      (p : Purchase) (d : Db)
      → p.status ≡ paid
      → Stored p d
      → (Purchases.update_row (to_row p) d).0 ≡ ok tt
      → Settled p.id (Purchases.update_row (to_row p) d).1
  unfolding Purchases.update_row to_row nullable_string status_text
  update_row-Settled p d is_paid stored done same = ground (
    arith,
    stored same,
    has_row-update k (to_row p) d.purchases,
    is_pending-update k (to_row p) d.purchases,
  )

  not_pending :
      (p : Purchase) → p.status ≡ paid → (to_row p).id ≡ k → (to_row p).status ≢ text "pending"
  unfolding to_row status_text
  not_pending p is_paid same e = ground arith

  update-Settled :
      (p : Purchase)
      → p.status ≡ paid
      → Guards (paid_rely k) (Stored p) (one (Purchases.update p)) (λ _. Settled p.id)
  unfolding Purchases.update
  update-Settled p is_paid =
      Guards-sql (paid_rely k) (Stored p) (λ _. Settled p.id) (Purchases.update_row (to_row p))
        (Stored-Stays p)
        λ d i s.
          let g = update_row-Keeps k d i (to_row p) (not_pending p is_paid) in
          (
            g.0,
            g.1,
            Known-of (paid_rely k) (λ _. Settled p.id) (Purchases.update_row (to_row p) d).0
                (Purchases.update_row (to_row p) d).1 (λ a e. update_row-Settled p d is_paid s e),
          )

  pub publishing-guards :
      (id : Text) → Guards (paid_rely k) (Settled id) (publishing id) (λ _. Settled id)
  unfolding publishing publish_purchase_confirmed
  publishing-guards id =
      Guards-and_then (paid_rely k)
        (keep-same (paid_rely k) (Settled id) (Settled-Stays id) time_now time_now-db)
        λ now.
          keep-sql (paid_rely k) (Settled id) (Settled-Stays id) _
            λ d i s. insert_outbox-Keeps k d i (event_id now id) id s

  applied_paid :
      (e : Event) (now : _) (p : Purchase)
      → Guards
          (paid_rely k)
          (Stored p)
          (applied p (mark_paid e.charge_id now))
          (λ q d. Stored q d × (q.status ≡ paid))
  unfolding mark_paid
  applied_paid e now p =
      Guards-applied (paid_rely k) p _ λ d s done. (λ same. s (ground arith), ground arith)

  due-guards : (e : Event) → Guards (paid_rely k) Any (confirming_due e) (λ _. Any)
  unfolding confirming_due writing_paid select_one Purchases.get_by_payload save_payment_event
      mark_processed gets
  due-guards e =
      Guards-and_then (paid_rely k)
        (Guards-attempted (paid_rely k) (
          Guards-gets (paid_rely k) (λ d e x h. tt) _ (OnSome Stored Any)
            (λ d i a. find-Stored _ d)))
        λ found. Guards-and_then (paid_rely k) (Guards-presented (paid_rely k) Any found _) λ p.
          Guards-and_then (paid_rely k)
            (keep-same (paid_rely k) (Stored p) (Stored-Stays p) time_now time_now-db)
            λ now. Guards-and_then (paid_rely k) (applied_paid e now p) λ q.
              Guards-given (paid_rely k) λ is_paid.
                Guards-and_then (paid_rely k) (update-Settled q is_paid) λ _.
                  Guards-and_then (paid_rely k)
                    (keep-sql (paid_rely k) (Settled q.id) (Settled-Stays q.id) _
                      (λ d i s. insert_event-Keeps k d i e))
                    λ _. Guards-and_then (paid_rely k) (publishing-guards q.id) λ _.
                      Guards-weaken (paid_rely k) (λ d s. tt)
                        (keep-sql (paid_rely k) Any (λ d e x h. tt) _
                          (λ d i s. insert_key-Keeps k d i e.charge_id))

  pub confirming-guards : (e : Event) → Guards (paid_rely k) Any (confirming e) (λ _. Any)
  unfolding confirming is_processed gets
  confirming-guards e = Guards-and_then (paid_rely k) (Guards-raised_if (paid_rely k) _ _) λ _.
      Guards-and_then (paid_rely k) (keep-gets (paid_rely k) Any (λ d e x h. tt) _) λ already.
        Guards-branch (paid_rely k) already (Guards-returned (paid_rely k) tt (λ d h. tt))
          (due-guards e)
