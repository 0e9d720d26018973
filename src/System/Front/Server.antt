-- ===== src/System/Front/Server.antt =====
-- The HTTP interface.
use streaming_bot.Exec.{Result, ok, err}
use streaming_bot.Exec.Triple.{Keeps}
use streaming_bot.Exec.Keeps.{keeps_rules}
use streaming_bot.World.{World, Io, time_now}
use streaming_bot.Http.Replies.{Response}
use streaming_bot.Http.Server
use streaming_bot.Http.Server.{Server, Request, PaymentBody, serve, on_post, decoded}
use streaming_bot.System.Front.{IsServed}

module _ {P : World → Type 0} (s : IsServed P) where
  keep-now : Keeps P time_now
  keep-now = s.now

  ruleset rules = (keeps_rules, keep-now)

  decoded-Keeps :
      {A : Type 0} (r : Result A) (f : A → Io Response)
      → ((a : A) → Keeps P (f a))
      → Keeps P (decoded r f)
  decoded-Keeps (ok a) f h = h a
  decoded-Keeps (err e) f h = search keeps_rules

  on_post-Keeps : (r : Request) (m : Io Response) → Keeps P m → Keeps P (on_post r m)
  on_post-Keeps r m h = search keeps_rules depth 30

  module _ (srv : Server) where
    catalog-Keeps : Keeps P (Server.handle_catalog srv)
    unfolding Server.handle_catalog
    catalog-Keeps = search (rules, s.list_active) depth 30

    start-Keeps : (r : Request) → Keeps P (Server.handle_start_purchase srv r)
    unfolding Server.handle_start_purchase Server.start_decoded
    start-Keeps r = search (rules, on_post-Keeps, decoded-Keeps, s.start) depth 30

    payment-Keeps : (r : Request) → Keeps P (Server.handle_successful_payment srv r)
    unfolding Server.handle_successful_payment Server.payment_decoded
    payment-Keeps r = search (rules, on_post-Keeps, decoded-Keeps, s.confirm) depth 30

    use-Keeps : (r : Request) → Keeps P (Server.handle_use_access srv r)
    unfolding Server.handle_use_access Server.use_decoded
    use-Keeps r = search (rules, on_post-Keeps, decoded-Keeps, s.redeem) depth 30

    review-Keeps : (r : Request) → Keeps P (Server.handle_submit_review srv r)
    unfolding Server.handle_submit_review Server.review_decoded
    review-Keeps r = search (rules, on_post-Keeps, decoded-Keeps, s.submit) depth 30

    -- What the use cases keep, every request keeps.
    pub serve-Keeps : (r : Request) → Keeps P (serve srv r)
    unfolding serve Server.handle_health
    serve-Keeps r =
        search (rules, catalog-Keeps, start-Keeps, payment-Keeps, use-Keeps, review-Keeps) depth 30
