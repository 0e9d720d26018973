-- ===== src/Threads/Front/Server.antt =====
-- The requests of the HTTP interface, as threads.
use streaming_bot.Prelude.{Text, text, text_eq}
use streaming_bot.Exec.{Result, ok, err}
use streaming_bot.World
use streaming_bot.World.{Io}
use streaming_bot.Storage.Contents
use streaming_bot.App.StartPurchase
use streaming_bot.App.SubmitReview
use streaming_bot.Http.Replies.{Response}
use streaming_bot.Http.Server.{Request, PaymentBody}
use streaming_bot.Http.Server
use streaming_bot.Threads.{Thread, one, branch, attempted, and_then}
use streaming_bot.Threads.Locals.{returned}
use streaming_bot.Threads.UseCases.{starting, confirming, submitting, using_token}

unfoldable pub posting : (r : Request) {m : Io Response} → Thread m → Thread (Server.on_post r m)
posting r t = branch _ t (returned _)

unfoldable pub decoding :
    {A : Type 0} (r : Result A) {f : A → Io Response}
    → ((a : A) → Thread (f a))
    → Thread (Server.decoded r f)
decoding (ok a) t = t a
decoding (err e) t = returned _

unfoldable pub starting_decoded : (c : StartPurchase.Command) → Thread (Server.start_decoded c)
unfolding Server.start_decoded
starting_decoded c = and_then (attempted (starting c)) λ res. returned _

unfoldable pub paying_decoded : (b : PaymentBody) → Thread (Server.payment_decoded b)
unfolding Server.payment_decoded
paying_decoded b =
    and_then (one World.time_now) λ now. and_then (attempted (confirming _)) λ res. returned _

unfoldable pub using_decoded :
    (s : Server.Server) (token : Text) → Thread (Server.use_decoded s token)
unfolding Server.use_decoded
using_decoded s token = and_then (attempted (using_token s.sum256 s.cache token)) λ res. returned _

unfoldable pub reviewing_decoded : (c : SubmitReview.Command) → Thread (Server.review_decoded c)
unfolding Server.review_decoded
reviewing_decoded c = and_then (attempted (submitting c)) λ res. returned _

unfoldable pub serving : (s : Server.Server) (r : Request) → Thread (Server.serve s r)
unfolding Server.serve Server.handle_health Server.handle_catalog Server.handle_start_purchase
    Server.handle_successful_payment Server.handle_use_access Server.handle_submit_review
serving s r = branch (text_eq r.path (text "/healthz")) (returned _) (
    branch (text_eq r.path (text "/catalog"))
      (and_then (attempted (one (Contents.list_active s.collate))) λ items. returned _)
      (branch (text_eq r.path (text "/purchase/start"))
        (posting r (decoding (s.decoder.start_command r.body) starting_decoded))
        (branch (text_eq r.path (text "/webhook/telegram/successful_payment"))
          (posting r (
            branch (Server.is_forged s r) (returned _)
              (decoding (s.decoder.payment_body r.body) paying_decoded)))
          (branch (text_eq r.path (text "/access/use"))
            (posting r (decoding (s.decoder.use_command r.body) (using_decoded s)))
            (branch (text_eq r.path (text "/review/submit"))
              (posting r (decoding (s.decoder.review_command r.body) reviewing_decoded))
              (returned _))))))
