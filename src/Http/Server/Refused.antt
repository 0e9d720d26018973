-- ===== src/Http/Server/Refused.antt =====
-- The requests that are refused before a use case is called.
use streaming_bot.Prelude.{
  ℕ, Text, text, text_eq, Option, none, some, Bool, true, false, not, ◌&&◌, ◌||◌, ◌≡◌, ◌⊎◌, arith,
  if◌then◌else◌,
}
use streaming_bot.Exec.{Result, ok, err, pure, attempt, ◌>>=◌}
use streaming_bot.World.{World, Io}
use streaming_bot.App.StartPurchase
use streaming_bot.App.SubmitReview
use streaming_bot.App.ConfirmPayment
use streaming_bot.Http.Replies.{Response, write_json}
use streaming_bot.Http.Server.{Server, Request, reply_with, is_forged, review_decoded}

abbrev was_read : {A : Type 0} → Result A → Bool
was_read (ok _) = true
was_read (err _) = false

abbrev webhook : Text
webhook = text "/webhook/telegram/successful_payment"

-- The body is one that the path's struct can be read from.
abbrev is_readable : Server → Request → Bool
is_readable s r =
    if text_eq r.path (text "/purchase/start")
    then was_read (s.decoder.start_command r.body)
    else if text_eq r.path webhook
    then was_read (s.decoder.payment_body r.body)
    else if text_eq r.path (text "/access/use")
    then was_read (s.decoder.use_command r.body)
    else was_read (s.decoder.review_command r.body)

abbrev takes_post : Request → Bool
takes_post r =
    text_eq r.path (text "/purchase/start")
    || text_eq r.path webhook
    || text_eq r.path (text "/access/use")
    || text_eq r.path (text "/review/submit")

abbrev is_open : Request → Bool
is_open r = text_eq r.path (text "/healthz") || text_eq r.path (text "/catalog")

-- The status of the refusal.
abbrev pub refused_as : Server → Request → Option ℕ
refused_as s r =
    if is_open r
    then none
    else if not (takes_post r)
    then some 404
    else if not (text_eq r.method (text "POST"))
    then some 405
    else if text_eq r.path webhook && is_forged s r
    then some 401
    else if is_readable s r
    then none
    else some 400

abbrev pub status_of : Result Response → Option ℕ
status_of (ok resp) = some resp.status
status_of (err e) = none

-- The refused request changes nothing.
abbrev pub LeavesAlone : Option ℕ → World → World → Type 0
LeavesAlone none w v = Unit
LeavesAlone (some status) w v = v ≡ w

-- The statuses that a path answers with, where the request is not refused.
abbrev pub path_statuses : Text → ℕ × ℕ
path_statuses path =
    if text_eq path (text "/healthz")
    then (200, 200)
    else if text_eq path (text "/catalog")
    then (200, 500)
    else if text_eq path webhook || text_eq path (text "/access/use")
    then (200, 400)
    else (201, 400)

abbrev pub statuses : Option ℕ → Request → ℕ × ℕ
statuses none r = path_statuses r.path
statuses (some status) r = (status, status)

-- The answer has one of the two statuses.
abbrev pub HasStatus : ℕ × ℕ → Result Response → Type 0
HasStatus (good, bad) res = (status_of res ≡ some good) ⊎ (status_of res ≡ some bad)

replied :
    {A : Type 0} (m : Io A) (status : ℕ) (json : A → Text) (w : World)
    → HasStatus (status, 400) ((attempt m >>= λ res. pure (reply_with status json res)) w).0
unfolding attempt pure write_json ◌>>=◌
replied m status json w = ground arith

reviewed : (c : SubmitReview.Command) (w : World) → HasStatus (201, 400) (review_decoded c w).0
unfolding review_decoded
reviewed c w = replied _ _ _ w
