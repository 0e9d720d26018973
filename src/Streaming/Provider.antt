-- ===== src/Streaming/Provider.antt =====
-- The client of the video service as the provider of the access links.
use streaming_bot.Prelude.{ℕ, Text, List, ◌≡◌, refl}
use streaming_bot.Prelude.Int.{ℤ}
use streaming_bot.Exec.Triple.{Keeps, state_of_Keeps}
use streaming_bot.Exec.Keeps.{keeps_rules}
use streaming_bot.World.{World, Db, time_now}
use streaming_bot.World.Calls.{Keeps-same_db, time_now-db}
use streaming_bot.App.IssueAccess.{StreamingProvider}
use streaming_bot.Streaming.Client.{Client, BunnyApi, issue_access_link}

module _ (api : BunnyApi) (c : Client) (sum256 : Text → List ℕ) where
  module _ (d : Db) where
    abbrev Same : World → Type 0
    Same w = w.db ≡ d

    get-Same : (url key : Text) → Keeps Same (api.get url key)
    get-Same url key = Keeps-same_db (λ e. e ≡ d) _ (api.get-db url key)

    now-Same : Keeps Same time_now
    now-Same = Keeps-same_db (λ e. e ≡ d) _ time_now-db

    issue_access_link-Same :
        (ref : Text) (user : ℤ) (ttl : ℕ) (key : Text)
        → Keeps Same (issue_access_link api c sum256 ref user ttl key)
    unfolding issue_access_link
    issue_access_link-Same ref user ttl key = search (keeps_rules, get-Same, now-Same) depth 30

  pub issue_access_link-db :
      (ref : Text) (user : ℤ) (ttl : ℕ) (key : Text) (w : World)
      → (issue_access_link api c sum256 ref user ttl key w).1.db ≡ w.db
  issue_access_link-db ref user ttl key w =
      state_of_Keeps (issue_access_link-Same w.db ref user ttl key) w refl

  unfoldable pub bunny : StreamingProvider
  bunny = record {
    issue_access_link = issue_access_link api c sum256;
    issue_access_link-db = issue_access_link-db;
  }
