-- ===== src/Tests/Interleaved.antt =====
-- The properties of the threads, at small schedules.
use streaming_bot.Prelude.{
  ap, ◌≡◌, ◌≢◌, ◌<◌, ◌≤◌, refl, text, text_eq, Text-discrete, List, [], ◌∷◌, ◌++◌, ◌+◌, find, any,
  true, false, some, none, not, ◌&&◌,
}
use streaming_bot.Prelude.Int.{pos, is_int4, ltb_ℤ}
use streaming_bot.Prelude.Tables.{count}
use streaming_bot.Prelude.Decimal.{decimal}
use mathlib.Core.Bool.{true≢false}
use streaming_bot.Exec.{ok}
use streaming_bot.Storage.Outbox
use streaming_bot.Platform.Crypto.{token_digest}
use streaming_bot.Threads.UseCases.{confirming}
use streaming_bot.Threads.Pool.{Move, arrive, turn, http, work, play}
use streaming_bot.Threads.Pool.Paid.{idle, interleaved_is_paid}
use streaming_bot.Threads.Pool.Later.{
  redeem_in, confirm_in, interleaved_single_use, interleaved_replay, interleaved_reviews,
  interleaved_catalogue,
}
use streaming_bot.Threads.Pool.Turns.{pair_of}
use streaming_bot.Threads.Pool.Twice.{confirmed_twice}
use streaming_bot.Threads.{ended}
use streaming_bot.Domain.Access.{Grant}
use streaming_bot.Domain.Review.{is_valid_rating}
use streaming_bot.Storage.Grants.Marks.{has_hash}
use streaming_bot.System.SingleUse
use streaming_bot.Tests.Calls.{event, row, waiting, due, alone, no_events}
use streaming_bot.Tests.Schedule.{
  scheduled, bought_id, server, post, schedule, bought_token, let_in, bought_with, before_payment,
}
use streaming_bot.System.Sound.{has_row, is_pending, confirmations}
use streaming_bot.Tests.{handler, digest}

interleaved_is_paid_example :
    (0 < confirmations bought_id (play handler schedule idle).world.db)
    × (has_row bought_id (play handler schedule idle).world.db.purchases ≡ true)
    × (any (is_pending bought_id) (play handler schedule idle).world.db.purchases ≡ false)
interleaved_is_paid_example = interleaved_is_paid handler schedule bought_id scheduled.0

-- The work goes on, and another round begins.
abbrev afterwards : List Move
afterwards = turn 4 ∷ turn 3 ∷ arrive work ∷ turn 4 ∷ turn 5 ∷ turn 4 ∷ []

interleaved_single_use_example :
    ((g : Grant) × (find
          (has_hash (token_digest digest bought_token))
          (play handler schedule idle).world.db.access_grants
        ≡ some g)
      × (g.used_at ≡ none)
      × ((play handler schedule idle).world.clock ≤ g.expires_at)
      × (let_in ≡ SingleUse.admission g))
    × ((redeem_in handler bought_token (
          play handler afterwards
            (redeem_in handler bought_token (play handler schedule idle)).1)).0
        ≢ ok let_in)
interleaved_single_use_example =
    interleaved_single_use handler bought_token schedule afterwards let_in let_in scheduled.1

abbrev second_delivery : List Move
second_delivery =
    arrive work
    ∷ arrive (http server (post (text "/webhook/telegram/successful_payment")))
    ∷ turn 2
    ∷ turn 3
    ∷ turn 2
    ∷ turn 3
    ∷ []

interleaved_replay_example :
    (confirm_in bought_with (
      play handler second_delivery
        (confirm_in bought_with (play handler before_payment idle)).1)).1.world.db
    ≡ (play handler second_delivery
        (confirm_in bought_with (play handler before_payment idle)).1).world.db
interleaved_replay_example =
    interleaved_replay handler bought_with bought_with before_payment second_delivery refl
      scheduled.2

-- Two reviews of the purchase, one after the other's check.
abbrev two_reviews : List Move
two_reviews =
    schedule
    ++ (arrive (http server (post (text "/review/submit")))
        ∷ arrive (http server (post (text "/review/submit")))
        ∷ turn 5
        ∷ turn 6
        ∷ turn 5
        ∷ turn 6
        ∷ turn 5
        ∷ turn 6
        ∷ turn 5
        ∷ turn 6
        ∷ [])

interleaved_reviews_example :
    (any (λ r. not (is_valid_rating r)) (play handler two_reviews idle).world.db.reviews ≡ false)
    × (count (λ r. text_eq r.purchase_id bought_id) (play handler two_reviews idle).world.db.reviews
        ≤ 1)
interleaved_reviews_example = interleaved_reviews handler two_reviews bought_id

interleaved_catalogue_example :
    (any
        (λ c. not (ltb_ℤ (pos 0) c.price_stars && is_int4 c.price_stars))
        (play handler schedule idle).world.db.content
      ≡ false)
    × (count
          (λ c. text_eq c.id (text "content-demo-1"))
          (play handler schedule idle).world.db.content
        ≤ 1)
interleaved_catalogue_example = interleaved_catalogue handler schedule (text "content-demo-1")

other_id : Outbox.event_id 6 row.id ≢ Outbox.event_id 5 row.id
unfolding Outbox.event_id decimal Text-discrete
other_id e = true≢false (ap (text_eq (Outbox.event_id 6 row.id)) e)

no_later_events :
    any (λ q. text_eq q.id (Outbox.event_id 6 row.id)) waiting.db.outbox_events ≡ false
unfolding any
no_later_events = refl

confirmed_twice_example :
    (ms : List Move) × let s =
        play handler ms (pair_of waiting (confirming event).prog (confirming event).prog) in
      (s.threads ≡ ended (ok tt) ∷ ended (ok tt) ∷ [])
      × (confirmations row.id s.world.db ≡ confirmations row.id waiting.db + 2)
confirmed_twice_example =
    confirmed_twice handler event row waiting 6 refl due alone no_events no_later_events other_id
