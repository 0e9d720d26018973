-- ===== src/System/OneLink/GivenUp.antt =====
-- Links for a purchase that the issue has given up: its status is `error`, after as many failures
-- of the provider as are allowed.
use streaming_bot.Prelude.{ℕ, ◌≤◌, Text, text_eq, false, any, length, ◌≡◌, ◌≢◌, arith}
use streaming_bot.Exec.{ok, err, invalid_transition, ◌>>=◌, on}
use streaming_bot.World.{World, PurchaseRow}
use streaming_bot.Domain.Content.{Content}
use streaming_bot.Domain.Purchase.{Purchase, paid, mark_access_issued}
use streaming_bot.Storage.Purchases.{of_row}
use streaming_bot.Storage.Grants
use streaming_bot.App.IssueAccess.{Handler, finish, handle}
use streaming_bot.App.IssueAccess.Granted.{raw_token, grant_of, granted_world, grant_access-finish}
use streaming_bot.App.IssueAccess.Outcome.{IsOffered, handle-grant_access}
use streaming_bot.Prelude.Tables.{any-append}
use streaming_bot.System.Closed.Facts.{HasGrant}
use streaming_bot.System.Reach.{Reach}
use streaming_bot.System.OneLink.{link_lost}

finish-err :
    (h : Handler) (link raw : Text) (p : Purchase) (w : World)
    → p.status ≢ paid
    → finish h link raw p w ≡ (err invalid_transition, w)
unfolding finish mark_access_issued on ◌>>=◌
finish-err h link raw p w other = ground arith

granted_world-HasGrant :
    (h : Handler) (r : PurchaseRow) (until : ℕ) (w : World)
    → HasGrant r.id (granted_world h r until w).db
unfolding of_row
granted_world-HasGrant h r until w =
    ground (
      arith,
      any-append (λ q. text_eq q.purchase_id r.id) w.db.access_grants (grant_of h r until w),
    )

-- The purchase and its item are there and on sale, but the purchase is not paid any more (the
-- issue has given it up); the services answer, the provider gives a link again, there is entropy
-- for the token, and no grant is in the way. Then the grant is written and its token cached before
-- the status is looked at: the call ends as an invalid transition, with nothing sent and the status
-- as it was; and in every world that is reached afterwards, a further issue for the purchase does
-- not return without an error.
pub given_up_is_lost :
    (h : Handler) (r : PurchaseRow) (c : Content) (link : Text) (until : ℕ) (w : World) {v : World}
    → IsOffered r.id r c w
    → (of_row r).status ≢ paid
    → h.provider.issue_access_link c.external_ref r.user_id h.ttl r.id w ≡ (ok (link, until), w)
    → 32 ≤ length w.entropy
    → any (Grants.clashes (grant_of h r until w)) w.db.access_grants ≡ false
    → Reach h (granted_world h r until w) v
    → (handle h r.id w ≡ (err invalid_transition, granted_world h r until w))
      × ((handle h r.id v).0 ≢ ok tt)
given_up_is_lost h r c link until w offered other given random fresh later = (
  rw
      (
        handle-grant_access h r.id r c link until w offered given,
        grant_access-finish h r link until w offered.calm random fresh,
      )
      (finish-err h link (raw_token w) (of_row r) (granted_world h r until w) other),
  link_lost h r.id (granted_world-HasGrant h r until w) later,
)
