-- ===== src/App/IssueAccess/Redeemed.antt =====
-- From the issue of a link to its use.
use streaming_bot.Prelude.{
  ℕ, ◌≤◌, Text, text_eq, List, [], ◌∷◌, ◌++◌, none, some, Bool, true, false, any, find, ◌≡◌, refl,
  arith,
}
use streaming_bot.Prelude.Tables.{any_mono, find-append, find-none}
use streaming_bot.Exec.{ok, ◌>>=◌, attempt, present, raise_if, ignore, gets, pure}
use streaming_bot.World.{World, PurchaseRow, sql, redis, time_now}
use streaming_bot.Domain.Access.{Grant}
use streaming_bot.Domain.Content.{Content}
use streaming_bot.Storage.Purchases.{of_row}
use streaming_bot.Storage.Grants
use streaming_bot.Storage.Grants.{get_by_token_hash, select_by_hash, mark_used, mark_used_row}
use streaming_bot.Storage.Tokens
use streaming_bot.Platform.Crypto.{token_digest}
use streaming_bot.App.UseAccess
use streaming_bot.App.UseAccess.{Admission, was_used, check, redeem}
use streaming_bot.App.IssueAccess.{Handler, handle}
use streaming_bot.App.IssueAccess.Granted.{raw_token, grant_of}
use streaming_bot.App.IssueAccess.Outcome.{IsOffered, IsIssuable, issue_effects}

opens :
    (sum256 : Text → List ℕ) (cache : Tokens.RedisClient) (raw : Text) (g : Grant) (w : World)
    → w.net ≡ []
    → find (λ q. text_eq q.token_hash (token_digest sum256 raw)) w.db.access_grants ≡ some g
    → g.used_at ≡ none
    → w.clock ≤ g.expires_at
    → (UseAccess.handle sum256 cache raw w).0
      ≡ ok (record { purchase_id = g.purchase_id; user_id = g.user_id; valid = true })
unfolding UseAccess.handle check redeem Tokens.get Tokens.delete get_by_token_hash select_by_hash
    mark_used mark_used_row sql redis time_now ◌>>=◌ raise_if ignore gets attempt present pure
opens sum256 cache raw g w calm found unused fresh = ground arith

new_grant_found :
    (h : Handler) (r : PurchaseRow) (until : ℕ) (w : World)
    → any (Grants.clashes (grant_of h r until w)) w.db.access_grants ≡ false
    → find
        (λ q. text_eq q.token_hash (token_digest h.sum256 (raw_token w)))
        (w.db.access_grants ++ grant_of h r until w ∷ [])
      ≡ some (grant_of h r until w)
new_grant_found h r until w fresh =
    let q : Grant → Bool = λ q. text_eq q.token_hash (token_digest h.sum256 (raw_token w)) in
    ground (
      arith,
      find-append q w.db.access_grants (grant_of h r until w),
      find-none q w.db.access_grants,
      any_mono q (Grants.clashes (grant_of h r until w)) w.db.access_grants (λ x p. ground arith),
    )

-- The token that was sent opens the door: after a link was issued, under the conditions of
-- `issue_effects`, a call with the raw token that comes no later than the expiry returns the
-- purchase and its user.
pub token_opens :
    (h : Handler) (id : Text) (r : PurchaseRow) (c : Content) (link : Text) (until later : ℕ)
    (w : World)
    → IsOffered id r c w
    → IsIssuable h r c link until w
    → later ≤ until
    → (UseAccess.handle h.sum256 h.cache
        (raw_token w)
        (record (handle h id w).1 { clock = later })).0
      ≡ ok (record { purchase_id = r.id; user_id = r.user_id; valid = true })
unfolding of_row
token_opens h id r c link until later w offered issuable fresh =
    let (_, left) = issue_effects h id r c link until w offered issuable in
    opens h.sum256 h.cache (raw_token w) (grant_of h r until w)
      (record (handle h id w).1 { clock = later }) left.net
      (rw left.granted (new_grant_found h r until w issuable.fresh)) refl fresh
