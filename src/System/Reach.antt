-- ===== src/System/Reach.antt =====
-- The program as a step relation: each step is one update of the bot, one request of the HTTP
-- interface, one call of a use case, one round of a job or of the synchronisation, one write of the
-- catalogue, or a move of the environment. Such a step is a whole call, so a reachable world is one
-- that calls reach which do not overlap. main.go lets them overlap: Threads/Pool has every order of
-- the single calls, and what holds of reachable worlds need not hold there (Threads/Pool/Twice).
pub mod Laws
pub mod Published
use streaming_bot.Prelude.{ℕ, Text, List, [], Bool}
use streaming_bot.Prelude.Int.{ℤ}
use streaming_bot.World.{World, Db, Cache, Outcome}
use streaming_bot.Domain.Content.{Content}
use streaming_bot.Domain.Payment.{Event}
use streaming_bot.Storage.Contents
use streaming_bot.App.StartPurchase
use streaming_bot.App.ConfirmPayment
use streaming_bot.App.IssueAccess.{Handler}
use streaming_bot.App.UseAccess
use streaming_bot.App.RequestReview
use streaming_bot.App.SubmitReview
use streaming_bot.Jobs
use streaming_bot.Streaming.Client.{Client, BunnyApi}
use streaming_bot.Streaming.Sync.{sync_library_content}
use streaming_bot.Telegram.Api.{Bot, Update}
use streaming_bot.Telegram.Bot.{handle_update}
use streaming_bot.Http.Server.{Server, Request, serve}

module _ (h : Handler) where
  pub data Step : World → World → Type 0 where
    start : (cmd : StartPurchase.Command) (w : World) → Step w (StartPurchase.handle cmd w).1
    confirm : (e : Event) (w : World) → Step w (ConfirmPayment.handle e w).1
    redeem : (token : Text) (w : World) → Step w (UseAccess.handle h.sum256 h.cache token w).1
    submit : (cmd : SubmitReview.Command) (w : World) → Step w (SubmitReview.handle cmd w).1
    request :
        (purchase_id : Text) (w : World) → Step w (RequestReview.handle h.has_bot purchase_id w).1
    work : (w : World) → Step w (Jobs.run_once h w).1
    publish : (c : Content) (w : World) → Step w (Contents.upsert c w).1
    withdraw : (id : Text) (w : World) → Step w (Contents.delete_by_id id w).1
    seed : (w : World) → Step w (Contents.ensure_demo_content w).1
    -- An update of the bot, a request of the HTTP interface, a round of the catalogue's
    -- synchronisation.
    telegram : (b : Bot) (u : Update) (w : World) → Step w (handle_update b u w).1
    http : (s : Server) (r : Request) (w : World) → Step w (serve s r w).1
    sync :
        (api : BunnyApi) (c : Client) (fuel : ℕ) (price : ℤ) (w : World)
        → Step w (sync_library_content api c fuel price w).1
    -- Time passes, the cache forgets, entropy comes in, and the services get as they get.
    pass :
        (now clock : ℕ) (entropy : List ℕ) (cache : Cache) (net : List Outcome) (w : World)
        → Step w (record w {
          db = record w.db { now = now };
          clock = clock;
          entropy = entropy;
          cache = cache;
          net = net;
        })

  pub data Reach (w : World) : World → Type 0 where
    here : Reach w w
    next : {u v : World} → Reach w u → Step u v → Reach w v

-- The tables as `EnsureSchema` makes them.
abbrev pub empty_db : Db
empty_db = record {
  users = [];
  content = [];
  purchases = [];
  access_grants = [];
  reviews = [];
  payment_events = [];
  idempotency_keys = [];
  outbox_events = [];
  now = 0;
}

-- Before the first step.
abbrev pub initial : World
initial = record {
  db = empty_db;
  cache = [];
  sent = [];
  clock = 0;
  entropy = [];
  net = [];
  admins = [];
}
