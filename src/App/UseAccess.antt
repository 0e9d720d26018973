-- ===== src/App/UseAccess.antt =====
-- internal/app/use_access.
pub mod Race
use streaming_bot.Prelude.{ℕ, Text, List, Option, none, some, Bool, true, false, ltb}
use streaming_bot.Prelude.Int.{ℤ}
use streaming_bot.Exec.{
  ◌>>=◌, ◌>>◌, pure, attempt, present, raise_if, ignore, invalid_token, token_expired, token_used,
}
use streaming_bot.World.{World, Io, time_now}
use streaming_bot.Domain.Access.{Grant}
use streaming_bot.Storage.Grants.{get_by_token_hash, mark_used}
use streaming_bot.Storage.Tokens
use streaming_bot.Storage.Tokens.{RedisClient}
use streaming_bot.Platform.Crypto.{token_digest}

pub record Admission : Type 0 where
  pub purchase_id : Text
  pub user_id : ℤ
  pub valid : Bool

abbrev pub was_used : Grant → Bool
was_used g = elim g.used_at [ none ↦ false | some _ ↦ true ]

module _ (sum256 : Text → List ℕ) (cache : RedisClient) where
  -- Up to the checks: the grant that a token opens at this moment.
  unfoldable pub check : Text → Io Grant
  check token_hash = do
    ignore (Tokens.get cache token_hash)
    found ← attempt (get_by_token_hash token_hash)
    grant ← present found invalid_token
    now ← time_now
    raise_if (was_used grant) token_used
    raise_if (ltb grant.expires_at now) token_expired
    pure grant

  -- From `MarkUsed` on.
  unfoldable pub redeem : Text → Grant → Io Admission
  redeem token_hash grant = do
    mark_used grant.id
    ignore (Tokens.delete cache token_hash)
    pure (record { purchase_id = grant.purchase_id; user_id = grant.user_id; valid = true })

  unfoldable pub handle : Text → Io Admission
  handle token = do
    let token_hash = token_digest sum256 token
    grant ← check token_hash
    redeem token_hash grant
