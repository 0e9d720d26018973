-- ===== src/Tests/Whole.antt =====
-- The properties of the whole program, at the sale.
use streaming_bot.Prelude.{[], ◌⊎◌, ◌≡◌, ◌≢◌, ◌≤◌, refl, text_eq, find, any, some, none, true}
use streaming_bot.Prelude.Int.{pos, ◌≤ℤ◌}
use streaming_bot.Exec.{ok}
use streaming_bot.Domain.Access.{Grant}
use streaming_bot.Domain.Review.{Review}
use streaming_bot.Storage.Grants.Marks.{has_hash}
use streaming_bot.Platform.Crypto.{token_digest}
use streaming_bot.App.IssueAccess
use streaming_bot.App.UseAccess
use streaming_bot.App.SubmitReview
use streaming_bot.App.RequestReview
use streaming_bot.Jobs
use streaming_bot.System.Sound.{has_grant, confirmations}
use streaming_bot.System.Reach.{
  Reach, here, next, initial, publish, pass, start, confirm, work, redeem, submit,
}
use streaming_bot.System.Reach.Laws.{one_confirmation}
use streaming_bot.System.Reach.Published.{published_is_granted}
use streaming_bot.System.SingleUse.{single_use}
use streaming_bot.System.SingleUse
use streaming_bot.System.OneLink.{link_lost}
use streaming_bot.System.Reviews.{IsOf, review_stands, review_ends_requests}
use streaming_bot.Tests.{
  handler, item, listed, opened, order, sold, payment, confirmed, served, token, admission, digest,
  client, purchase_id, opinion, redeemed, reviewed,
}
use streaming_bot.Tests.Sale.{sale}

Reach-confirmed : Reach handler initial confirmed
Reach-confirmed =
    next
      (next (next (next here (publish item initial)) (pass 10 10 opened.entropy [] [] listed))
        (start order opened))
      (confirm payment sold)

Reach-served : Reach handler initial served
Reach-served = next Reach-confirmed (work confirmed)

Reach-reviewed : Reach handler initial reviewed
Reach-reviewed = next (next Reach-served (redeem token served)) (submit opinion redeemed)

single_use_example :
    ((g : Grant) × (find (has_hash (token_digest digest token)) served.db.access_grants ≡ some g)
      × (g.used_at ≡ none)
      × (served.clock ≤ g.expires_at)
      × (admission ≡ SingleUse.admission g))
    × ((UseAccess.handle digest client token reviewed).0 ≢ ok admission)
single_use_example =
    single_use handler token admission admission Reach-served sale.5
      (next here (submit opinion redeemed))

one_confirmation_example : confirmations purchase_id reviewed.db ≤ 1
one_confirmation_example = one_confirmation handler purchase_id Reach-reviewed

published_is_granted_example : has_grant purchase_id served.db ≡ true
published_is_granted_example = published_is_granted handler purchase_id Reach-served sale.3

link_lost_example : (IssueAccess.handle handler purchase_id reviewed).0 ≢ ok tt
link_lost_example =
    link_lost handler purchase_id sale.2
      (next (next here (redeem token served)) (submit opinion redeemed))

review_stands_example :
    (pos 1 ≤ℤ pos 4)
    × (pos 4 ≤ℤ pos 5)
    × (any (λ p. text_eq p.id purchase_id) redeemed.db.purchases ≡ true)
    × ((x : Review) × ((find (λ r. text_eq r.purchase_id purchase_id) redeemed.db.reviews ≡ some x)
          ⊎ (find (λ r. text_eq r.purchase_id purchase_id) redeemed.db.reviews ≡ none)
            × IsOf opinion x)
        × (find (λ r. text_eq r.purchase_id purchase_id) reviewed.db.reviews ≡ some x)
        × (find
              (λ r. text_eq r.purchase_id purchase_id)
              (Jobs.run_once handler reviewed).1.db.reviews
            ≡ some x))
    × ((SubmitReview.handle opinion (Jobs.run_once handler reviewed).1).1.db.reviews
        ≡ (Jobs.run_once handler reviewed).1.db.reviews)
review_stands_example =
    review_stands handler opinion opinion redeemed sale.6 refl (next here (work reviewed))

review_ends_requests_example : (RequestReview.handle true purchase_id reviewed).1 ≡ reviewed
review_ends_requests_example = review_ends_requests handler opinion redeemed sale.6 here sale.8
