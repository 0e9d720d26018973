-- ===== src/System/OneLink/Unsent.antt =====
-- Links that a program without a bot issues.
use streaming_bot.Prelude.{ℕ, Text, List, false, ◌≡◌, ◌≢◌, refl}
use streaming_bot.Prelude.Int.{ℤ}
use streaming_bot.Exec.{Exec, Result, ok, err, pure}
use streaming_bot.Exec.Triple.{Keeps, Keeps-of, state_of_Keeps}
use streaming_bot.Exec.Keeps.{keeps_rules}
use streaming_bot.World.{World, Db, Cache, Outgoing, sql, redis, time_now, rand_read}
use streaming_bot.World.Apart.{IsApart, sql-Apart, redis-Apart, time_now-Apart, rand_read-Apart}
use streaming_bot.Domain.Purchase.{Purchase}
use streaming_bot.Storage.Purchases
use streaming_bot.Storage.Contents
use streaming_bot.Storage.Grants
use streaming_bot.Storage.Tokens
use streaming_bot.Platform.Crypto.{generate}
use streaming_bot.App.Sender.{send_access_link}
use streaming_bot.App.IssueAccess.{
  Handler, StreamingProvider, finish, grant_access, after_provider, handle,
}
use streaming_bot.System.Closed.Facts.{HasGrant}
use streaming_bot.System.Reach.{Reach}
use streaming_bot.System.OneLink.{one_link}

-- The provider sends nothing to Telegram.
abbrev pub IsMute : StreamingProvider → Type 0
IsMute p =
    (ref : Text) (user : ℤ) (ttl : ℕ) (key : Text) (w : World)
    → (p.issue_access_link ref user ttl key w).1.sent ≡ w.sent

module _ (sent : List Outgoing) where
  abbrev HasSent : World → Type 0
  HasSent w = w.sent ≡ sent

  HasSent-IsApart : IsApart HasSent
  HasSent-IsApart = record {
    outcomes = λ net w h. h;
    tables = λ db w h. h;
    cached = λ cache w h. h;
    random = λ entropy w h. h;
  }

  keep-sql : {A : Type 0} (m : Exec Db A) → Keeps HasSent (sql m)
  keep-sql m = sql-Apart HasSent-IsApart m

  keep-redis : {A : Type 0} (m : Exec Cache A) → Keeps HasSent (redis m)
  keep-redis m = redis-Apart HasSent-IsApart m

  keep-now : Keeps HasSent time_now
  keep-now = time_now-Apart HasSent-IsApart

  keep-random : (n : ℕ) → Keeps HasSent (rand_read n)
  keep-random n = rand_read-Apart HasSent-IsApart n

  ruleset calls = (keeps_rules, keep-sql, keep-redis, keep-now, keep-random)

  module _ (h : Handler) (no_bot : h.has_bot ≡ false) (mute : IsMute h.provider) where
    unsent : (user : ℤ) (link : Text) → Keeps HasSent (send_access_link h.has_bot user link)
    unfolding send_access_link pure
    unsent user link = rw no_bot (Keeps-of (λ w s. s))

    asked :
        (ref : Text) (user : ℤ) (ttl : ℕ) (key : Text)
        → Keeps HasSent (h.provider.issue_access_link ref user ttl key)
    asked ref user ttl key = Keeps-of (λ w s. rw (mute ref user ttl key w) s)

    after_provider-HasSent :
        (r : Result (Text × ℕ)) (p : Purchase) → Keeps HasSent (after_provider h r p)
    unfolding after_provider grant_access finish generate Tokens.put Grants.create Purchases.update
    after_provider-HasSent (ok (link, expires_at)) p = search (calls, unsent) depth 30
    after_provider-HasSent (err e) p = search calls depth 30

    handle-HasSent : (k : Text) → Keeps HasSent (handle h k)
    unfolding handle Purchases.get_by_id Purchases.select_one Contents.get_by_id
    handle-HasSent k = search (calls, asked, after_provider-HasSent) depth 30

-- Without a bot (the polling is off, or the bot could not be made), and with a provider that sends
-- nothing to Telegram, an issue of a link that returns no error has sent nothing to anyone; the
-- purchase has its grant, and in every world that is reached afterwards a further issue for it does
-- not return without an error.
pub link_unsent :
    (h : Handler) (k : Text) (w : World) {v : World}
    → h.has_bot ≡ false
    → IsMute h.provider
    → (handle h k w).0 ≡ ok tt
    → Reach h (handle h k w).1 v
    → ((handle h k w).1.sent ≡ w.sent) × HasGrant k (handle h k w).1.db × ((handle h k v).0 ≢ ok tt)
link_unsent h k w no_bot mute e later =
    let (granted, never) = one_link h k w e later in
    (state_of_Keeps (handle-HasSent w.sent h no_bot mute k) w refl, granted, never)
