-- ===== src/Http/Server.antt =====
-- The endpoints of httpapi/server.go. A request has its body still as text; the JSON decoder's
-- reading of it into each of the four structs is a parameter.
pub mod Refused
use streaming_bot.Prelude.{ℕ, Text, text, text_eq, List, [], Bool, not, ◌&&◌, if◌then◌else◌}
use streaming_bot.Prelude.Int.{ℤ}
use streaming_bot.Exec.{Result, ok, err, attempt, ◌>>=◌, pure, method_not_allowed, bad_secret}
use streaming_bot.World.{Io, time_now}
use streaming_bot.Domain.Content.{Content}
use streaming_bot.Storage.Contents
use streaming_bot.Storage.Tokens.{RedisClient}
use streaming_bot.Platform.Strings.{trim_space}
use streaming_bot.App.StartPurchase
use streaming_bot.App.StartPurchase.{Invoice}
use streaming_bot.App.ConfirmPayment
use streaming_bot.App.UseAccess
use streaming_bot.App.UseAccess.{Admission}
use streaming_bot.App.SubmitReview
use streaming_bot.Http.Replies.{
  Response, write_json, write_error, status_json, catalog_json, invoice_json, admission_json,
}

-- `X-Telegram-Bot-Api-Secret-Token`, or the empty text
pub record Request : Type 0 where
  pub method : Text
  pub path : Text
  pub secret_token : Text
  pub body : Text

-- The body of the webhook.
pub record PaymentBody : Type 0 where
  pub charge_id : Text
  pub amount_stars : ℤ
  pub invoice_payload : Text
  pub raw_payload : Text

pub record Decoder : Type 0 where
  pub start_command : Text → Result StartPurchase.Command
  pub payment_body : Text → Result PaymentBody
  pub use_command : Text → Result Text
  pub review_command : Text → Result SubmitReview.Command

-- `collate` is the collation of the catalogue's database.
pub record Server : Type 0 where
  pub webhook_secret : Text
  pub collate : Text → Text → Bool
  pub sum256 : Text → List ℕ
  pub cache : RedisClient
  pub decoder : Decoder

unfoldable pub handle_health : Io Response
handle_health = pure (write_json 200 (status_json (text "ok")))

abbrev catalog_reply : Result (List Content) → Response
catalog_reply (ok items) = write_json 200 (catalog_json items)
catalog_reply (err e) = write_error 500 e

unfoldable pub handle_catalog : Server → Io Response
handle_catalog s = attempt (Contents.list_active s.collate) >>= λ items. pure (catalog_reply items)

-- `if r.Method != http.MethodPost`
abbrev pub on_post : Request → Io Response → Io Response
on_post r m =
    if text_eq r.method (text "POST") then m else pure (write_error 405 method_not_allowed)

-- The decoded body for the use case; 400 where it does not decode.
abbrev pub decoded : {A : Type 0} → Result A → (A → Io Response) → Io Response
decoded (ok a) f = f a
decoded (err e) f = pure (write_error 400 e)

-- The reply to how the use case ended: 400 for every error.
abbrev pub reply_with : {A : Type 0} → ℕ → (A → Text) → Result A → Response
reply_with status json (ok a) = write_json status (json a)
reply_with status json (err e) = write_error 400 e

unfoldable pub start_decoded : StartPurchase.Command → Io Response
start_decoded cmd =
    attempt (StartPurchase.handle cmd) >>= λ res. pure (reply_with 201 invoice_json res)

unfoldable pub handle_start_purchase : Server → Request → Io Response
handle_start_purchase s r = on_post r (decoded (s.decoder.start_command r.body) start_decoded)

unfoldable pub payment_decoded : PaymentBody → Io Response
payment_decoded body = do
  now ← time_now
  res ← attempt (
      ConfirmPayment.handle (record {
        charge_id = trim_space body.charge_id;
        amount_stars = body.amount_stars;
        invoice_payload = body.invoice_payload;
        raw_payload = body.raw_payload;
        occurred_at = now;
      }))
  pure (reply_with 200 (λ _. status_json (text "accepted")) res)

-- The header is not the secret, where a secret is set.
abbrev pub is_forged : Server → Request → Bool
is_forged s r = not (text_eq s.webhook_secret []) && not (text_eq r.secret_token s.webhook_secret)

unfoldable pub handle_successful_payment : Server → Request → Io Response
handle_successful_payment s r = on_post r (
    if is_forged s r
    then pure (write_error 401 bad_secret)
    else decoded (s.decoder.payment_body r.body) payment_decoded)

unfoldable pub use_decoded : Server → Text → Io Response
use_decoded s token = attempt (UseAccess.handle s.sum256 s.cache token) >>= λ res.
    pure (reply_with 200 admission_json res)

unfoldable pub handle_use_access : Server → Request → Io Response
handle_use_access s r = on_post r (decoded (s.decoder.use_command r.body) (use_decoded s))

unfoldable pub review_decoded : SubmitReview.Command → Io Response
review_decoded cmd = attempt (SubmitReview.handle cmd) >>= λ res.
    pure (reply_with 201 (λ _. status_json (text "saved")) res)

unfoldable pub handle_submit_review : Server → Request → Io Response
handle_submit_review s r = on_post r (decoded (s.decoder.review_command r.body) review_decoded)

-- `http.NotFound`
abbrev pub not_found : Response
not_found = record {
  status = 404;
  content_type = text "text/plain; charset=utf-8";
  content_length = 19;
  body = text "404 page not found\n";
}

-- `Handler`: the routes, for a path in its canonical form.
unfoldable pub serve : Server → Request → Io Response
serve s r =
    if text_eq r.path (text "/healthz")
    then handle_health
    else if text_eq r.path (text "/catalog")
    then handle_catalog s
    else if text_eq r.path (text "/purchase/start")
    then handle_start_purchase s r
    else if text_eq r.path (text "/webhook/telegram/successful_payment")
    then handle_successful_payment s r
    else if text_eq r.path (text "/access/use")
    then handle_use_access s r
    else if text_eq r.path (text "/review/submit")
    then handle_submit_review s r
    else pure not_found
