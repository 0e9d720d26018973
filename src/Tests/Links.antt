-- ===== src/Tests/Links.antt =====
-- Links that are issued and never reach the buyer.
use streaming_bot.Prelude.{text, Text-discrete, [], ◌∷◌, false, find, any, ◌≡◌, ◌≢◌, refl, arith}
use streaming_bot.Exec.{ok, err, invalid_transition}
use streaming_bot.World.{World, PurchaseRow}
use streaming_bot.Domain.Content.{can_be_purchased}
use streaming_bot.Domain.Purchase.{paid, parse_status}
use streaming_bot.Storage.Purchases.{of_row}
use streaming_bot.Storage.Grants
use streaming_bot.App.IssueAccess
use streaming_bot.App.IssueAccess.{Handler}
use streaming_bot.App.IssueAccess.Granted.{granted_world, grant_of}
use streaming_bot.App.IssueAccess.Outcome.{IsOffered, issue_effects}
use streaming_bot.Jobs
use streaming_bot.System.Reach.{next, here, work}
use streaming_bot.System.Closed.Facts.{HasGrant}
use streaming_bot.System.OneLink.Unsent.{link_unsent}
use streaming_bot.System.OneLink.GivenUp.{given_up_is_lost}
use streaming_bot.Tests.{handler, item}
use streaming_bot.Tests.Calls.{paid_row, bought, offered, issuable}

-- The program without a bot.
abbrev silent : Handler
silent = record handler { has_bot = false }

silent_issues : (IssueAccess.handle silent (text "p1") bought).0 ≡ ok tt
silent_issues =
    (issue_effects silent (text "p1") paid_row item (text "https://v/v1") 105 bought offered
      (record {
        is_paid = issuable.is_paid;
        given = refl;
        counted = issuable.counted;
        random = issuable.random;
        fresh = issuable.fresh;
        alone = issuable.alone;
      })).0

link_unsent_example :
    ((IssueAccess.handle silent (text "p1") bought).1.sent ≡ bought.sent)
    × HasGrant (text "p1") (IssueAccess.handle silent (text "p1") bought).1.db
    × ((IssueAccess.handle silent
          (text "p1")
          (Jobs.run_once silent (IssueAccess.handle silent (text "p1") bought).1).1).0
        ≢ ok tt)
link_unsent_example =
    link_unsent silent (text "p1") bought refl (λ ref user ttl key w. refl) silent_issues
      (next here (work _))

-- After three failures of the provider.
abbrev given_up : PurchaseRow
given_up = record paid_row { status = text "error"; issue_link_attempts = 3 }

abbrev recovered : World
recovered = record bought { db = record bought.db { purchases = given_up ∷ [] } }

there : IsOffered (text "p1") given_up item recovered
unfolding find can_be_purchased Text-discrete
there = record { calm = refl; found = refl; item = refl; on_sale = refl }

not_paid : (of_row given_up).status ≢ paid
unfolding of_row parse_status Text-discrete
not_paid e = cc

no_grant :
    any (Grants.clashes (grant_of handler given_up 105 recovered)) recovered.db.access_grants
    ≡ false
unfolding any
no_grant = refl

given_up_is_lost_example :
    (IssueAccess.handle handler (text "p1") recovered
      ≡ (err invalid_transition, granted_world handler given_up 105 recovered))
    × ((IssueAccess.handle handler
          (text "p1")
          (Jobs.run_once handler (granted_world handler given_up 105 recovered)).1).0
        ≢ ok tt)
given_up_is_lost_example =
    given_up_is_lost handler given_up item (text "https://v/v1") 105 recovered there not_paid refl
      (omega arith) no_grant (next here (work _))
