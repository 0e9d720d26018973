-- ===== src/Threads/Quiet/Front/Server.antt =====
-- The requests of the HTTP interface, beside other threads.
use streaming_bot.Prelude.{Text}
use streaming_bot.Exec.{Result, ok, err}
use streaming_bot.World.{Io}
use streaming_bot.World.Calls.{time_now-db}
use streaming_bot.Storage.Contents
use streaming_bot.App.StartPurchase
use streaming_bot.App.SubmitReview
use streaming_bot.Http.Replies.{Response}
use streaming_bot.Http.Server.{Server, Request, PaymentBody}
use streaming_bot.Threads.{Thread}
use streaming_bot.Threads.Front.Server.{
  posting, decoding, starting_decoded, paying_decoded, using_decoded, reviewing_decoded, serving,
}
use streaming_bot.Threads.Rely.{Rely}
use streaming_bot.Threads.Quiet.Allows.{Allows}
use streaming_bot.Threads.Quiet.UseCases.{starting-IsQuiet, submitting-IsQuiet, using_token-IsQuiet}
use streaming_bot.Threads.Quiet.{IsQuiet, quiet_rules, returned-IsQuiet, branch-IsQuiet}

module _ {R : Rely} (a : Allows R) where
  ruleset calls = (quiet_rules, time_now-db)

  posting-IsQuiet :
      (r : Request) {m : Io Response} {t : Thread m} → IsQuiet R t → IsQuiet R (posting r t)
  unfolding posting
  posting-IsQuiet r q = branch-IsQuiet _ q (returned-IsQuiet _)

  decoding-IsQuiet :
      {A : Type 0} (r : Result A) {f : A → Io Response} {t : (a : A) → Thread (f a)}
      → ((a : A) → IsQuiet R (t a))
      → IsQuiet R (decoding r t)
  unfolding decoding
  decoding-IsQuiet (ok a) q = q a
  decoding-IsQuiet (err e) q = returned-IsQuiet _

  starting_decoded-IsQuiet : (c : StartPurchase.Command) → IsQuiet R (starting_decoded c)
  unfolding starting_decoded
  starting_decoded-IsQuiet c = search (calls, starting-IsQuiet) depth 30

  paying_decoded-IsQuiet : (b : PaymentBody) → IsQuiet R (paying_decoded b)
  unfolding paying_decoded
  paying_decoded-IsQuiet b = search (calls, a.confirm) depth 30

  using_decoded-IsQuiet : (s : Server) (token : Text) → IsQuiet R (using_decoded s token)
  unfolding using_decoded
  using_decoded-IsQuiet s token = search (calls, using_token-IsQuiet) depth 30

  reviewing_decoded-IsQuiet : (c : SubmitReview.Command) → IsQuiet R (reviewing_decoded c)
  unfolding reviewing_decoded
  reviewing_decoded-IsQuiet c = search (calls, submitting-IsQuiet) depth 30

  pub serving-IsQuiet : (s : Server) (r : Request) → IsQuiet R (serving s r)
  unfolding serving Contents.list_active
  serving-IsQuiet s r =
      search
        (
          calls, posting-IsQuiet, decoding-IsQuiet, starting_decoded-IsQuiet,
          paying_decoded-IsQuiet, using_decoded-IsQuiet, reviewing_decoded-IsQuiet,
        )
        depth 40
