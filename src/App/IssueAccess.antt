-- ===== src/App/IssueAccess.antt =====
-- internal/app/issue_access, with the Telegram sender of internal/adapters/telegram/sender.go.
pub mod Granted
pub mod Outcome
pub mod Redeemed
use streaming_bot.Prelude.{
  ℕ, ◌≡◌, Text, text, text_eq, List, [], ◌++◌, none, Bool, not, if◌then◌else◌,
}
use streaming_bot.Prelude.Int.{ℤ, sub_ℕ}
use streaming_bot.Exec.{
  Result, ok, err, message, ◌>>=◌, ◌>>◌, pure, raise, attempt, present, raise_if, ignore, on,
  purchase_not_found, content_not_found, content_inactive,
}
use streaming_bot.World.{World, Io, time_now}
use streaming_bot.Domain.Access.{Grant}
use streaming_bot.Domain.Content.{Content, can_be_purchased}
use streaming_bot.Domain.Purchase.{Purchase, mark_access_issued, register_issue_access_failure}
use streaming_bot.Storage.Purchases
use streaming_bot.Storage.Contents
use streaming_bot.Storage.Grants
use streaming_bot.Storage.Tokens
use streaming_bot.Storage.Tokens.{RedisClient}
use streaming_bot.Platform.Crypto.{token_digest, generate}
use streaming_bot.App.Sender.{send_access_link}

-- The link and its expiry, for a video, a user, a time to live and an idempotency key. A provider
-- is another service: it does not write to the bot's database.
pub record StreamingProvider : Type 0 where
  pub issue_access_link : Text → ℤ → ℕ → Text → Io (Text × ℕ)
  pub issue_access_link-db :
      (external_ref : Text) (user_id : ℤ) (ttl : ℕ) (key : Text) (w : World)
      → (issue_access_link external_ref user_id ttl key w).1.db ≡ w.db

pub record Handler : Type 0 where
  pub provider : StreamingProvider
  pub cache : RedisClient
  pub sum256 : Text → List ℕ
  pub has_bot : Bool
  pub ttl : ℕ
  pub max_retries : ℤ

module _ (h : Handler) where
  -- `if tokenHash == ""`
  abbrev hash_or_digest : Text → Text → Text
  hash_or_digest raw hash = if text_eq hash [] then token_digest h.sum256 raw else hash

  abbrev pub new_grant : Purchase → Text → ℕ → ℕ → Grant
  new_grant p token_hash now expires_at = record {
    id = text "grant-" ++ p.id;
    purchase_id = p.id;
    user_id = p.user_id;
    token_hash = token_hash;
    issued_at = now;
    expires_at = expires_at;
    used_at = none;
  }

  -- From `MarkAccessIssued` on.
  unfoldable pub finish : Text → Text → Purchase → Io Unit
  finish link token_raw p = do
    p ← on p mark_access_issued
    Purchases.update p
    send_access_link h.has_bot p.user_id (link ++ (text "?token=" ++ token_raw))

  -- From `Tokens.Generate` on.
  unfoldable pub grant_access : Text → ℕ → Purchase → Io Unit
  grant_access link expires_at p = do
    token ← generate h.sum256
    let token_hash = hash_or_digest token.0 token.1
    now ← time_now
    Grants.create (new_grant p token_hash now expires_at)
    until ← time_now
    ignore (Tokens.put h.cache token_hash p.id (sub_ℕ expires_at until))
    finish link token.0 p

  -- The branch on the provider's error.
  unfoldable pub after_provider : Result (Text × ℕ) → Purchase → Io Unit
  after_provider (ok (link, expires_at)) p = grant_access link expires_at p
  after_provider (err e) p = do
    now ← time_now
    ignore (Purchases.update (register_issue_access_failure (message e) now h.max_retries p))
    raise e

  unfoldable pub handle : Text → Io Unit
  handle purchase_id = do
    found ← attempt (Purchases.get_by_id purchase_id)
    p ← present found purchase_not_found
    item ← attempt (Contents.get_by_id p.content_id)
    c ← present item content_not_found
    raise_if (not (can_be_purchased c)) content_inactive
    issued ← attempt (h.provider.issue_access_link c.external_ref p.user_id h.ttl p.id)
    after_provider issued p
