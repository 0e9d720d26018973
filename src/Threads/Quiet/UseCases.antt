-- ===== src/Threads/Quiet/UseCases.antt =====
-- The start of a purchase, a review and a token that is redeemed, beside other threads.
use streaming_bot.Prelude.{Text, List, ℕ}
use streaming_bot.World.Calls.{time_now-db, redis-db, rand_read-db}
use streaming_bot.Domain.Access.{Grant}
use streaming_bot.Domain.Review.{Review}
use streaming_bot.Storage.Purchases
use streaming_bot.Storage.Contents
use streaming_bot.Storage.Grants
use streaming_bot.Storage.Tokens
use streaming_bot.Storage.Tokens.{RedisClient}
use streaming_bot.App.StartPurchase
use streaming_bot.App.SubmitReview
use streaming_bot.Threads.UseCases.{
  new_identifier, starting, reviewed, submitting, cached, checking, redeeming, using_token,
}
use streaming_bot.Threads.Rely.{Rely}
use streaming_bot.Threads.Quiet.Allows.{Allows}
use streaming_bot.Threads.Quiet.{IsQuiet, quiet_rules}

module _ {R : Rely} (a : Allows R) where
  ruleset calls = (quiet_rules, time_now-db, redis-db, rand_read-db)

  new_identifier-IsQuiet : IsQuiet R new_identifier
  unfolding new_identifier
  new_identifier-IsQuiet = search calls

  pub starting-IsQuiet : (c : StartPurchase.Command) → IsQuiet R (starting c)
  unfolding starting Contents.get_by_id Purchases.create
  starting-IsQuiet c = search (calls, new_identifier-IsQuiet, a.insert_purchase) depth 30

  reviewed-IsQuiet : (r : Review) → IsQuiet R (reviewed r)
  unfolding reviewed
  reviewed-IsQuiet r = search (calls, a.insert_review) depth 30

  pub submitting-IsQuiet : (c : SubmitReview.Command) → IsQuiet R (submitting c)
  unfolding submitting Purchases.get_by_id Purchases.select_one
  submitting-IsQuiet c = search (calls, reviewed-IsQuiet) depth 30

  module _ (sum256 : Text → List ℕ) (cache : RedisClient) where
    cached-IsQuiet : (hash : Text) → IsQuiet R (cached sum256 cache hash)
    unfolding cached
    cached-IsQuiet hash = search calls

    checking-IsQuiet : (hash : Text) → IsQuiet R (checking sum256 cache hash)
    unfolding checking Grants.get_by_token_hash Grants.select_by_hash
    checking-IsQuiet hash = search (calls, cached-IsQuiet) depth 30

    redeeming-IsQuiet : (hash : Text) (g : Grant) → IsQuiet R (redeeming sum256 cache hash g)
    unfolding redeeming Grants.mark_used Tokens.delete
    redeeming-IsQuiet hash g = search (calls, a.mark_used) depth 30

    pub using_token-IsQuiet : (token : Text) → IsQuiet R (using_token sum256 cache token)
    unfolding using_token
    using_token-IsQuiet token = search (calls, checking-IsQuiet, redeeming-IsQuiet) depth 30
