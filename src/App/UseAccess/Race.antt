-- ===== src/App/UseAccess/Race.antt =====
-- The checks of a token against `IsUsable` of the domain, and two calls that interleave.
use streaming_bot.Prelude.{ℕ, Text, text_eq, List, [], none, some, true, find, ◌≡◌, ◌⊎◌, ◌↔◌, arith}
use streaming_bot.Exec.{ok, ◌>>=◌, attempt, present, raise_if, ignore, gets, pure}
use streaming_bot.World.{World, sql, redis, time_now}
use streaming_bot.Domain.Access.{Grant, is_usable}
use streaming_bot.Storage.Grants.{get_by_token_hash, select_by_hash, mark_used, mark_used_row}
use streaming_bot.Storage.Tokens
use streaming_bot.Storage.Tokens.{RedisClient}
use streaming_bot.App.UseAccess.{check, redeem}

-- With the services answering, and a grant of the token found, the handler's checks pass exactly
-- when `IsUsable` holds of the grant, or when it is not used and it is the very instant of the
-- expiry, which `IsUsable` excludes.
pub check-is_usable :
    (sum256 : Text → List ℕ) (cache : RedisClient) (h : Text) (w : World) (g : Grant)
    → w.net ≡ []
    → find (λ q. text_eq q.token_hash h) w.db.access_grants ≡ some g
    → ((check sum256 cache h w).0 ≡ ok g)
      ↔ ((is_usable g w.clock ≡ true) ⊎ ((g.used_at ≡ none) × (w.clock ≡ g.expires_at)))
unfolding check Tokens.get get_by_token_hash select_by_hash is_usable sql redis time_now ◌>>=◌
    raise_if ignore gets attempt present pure
check-is_usable sum256 cache h w g calm found = ground arith

-- Two calls with one token whose checks both come before the first `MarkUsed`, with the services
-- answering: where the first check passes, the second passes too, and both calls are admitted,
-- with the same result.
pub double_use :
    (sum256 : Text → List ℕ) (cache : RedisClient) (h : Text) (w : World) (g : Grant)
    → w.net ≡ []
    → (check sum256 cache h w).0 ≡ ok g
    → let first = (check sum256 cache h w).1 in
      let second = (check sum256 cache h first).1 in
      let marked = redeem sum256 cache h g second in
      ((check sum256 cache h first).0 ≡ ok g)
      × (marked.0 ≡ ok (record { purchase_id = g.purchase_id; user_id = g.user_id; valid = true }))
      × ((redeem sum256 cache h g marked.1).0 ≡ marked.0)
unfolding check redeem Tokens.get Tokens.delete get_by_token_hash select_by_hash mark_used
    mark_used_row sql redis time_now ◌>>=◌ raise_if ignore gets attempt present pure
double_use sum256 cache h w g calm checked = (ground arith, ground arith, ground arith)
