-- ===== src/Exec/Errors.antt =====
-- The `error` values of the program, and their texts.
use streaming_bot.Prelude.{Text, text, ◌++◌}

pub data Error : Type 0 where
  -- an error that a service or its driver returns, with its text
  driver : Text → Error
  -- a constraint of the schema that a statement breaks, by the constraint's name
  violation : Text → Error
  invalid_transition missing_charge_id empty_charge_id purchase_not_found : Error
  content_not_found content_inactive invalid_rating : Error
  invalid_token token_expired token_used : Error
  -- `rand.Read` fails
  no_entropy : Error
  empty_video_id missing_library_id missing_api_key : Error
  bad_status : Text → Error
  -- the status and the start of the answer
  list_failed : Text → Text → Error
  method_not_allowed bad_secret : Error
  -- the driver refuses a number that does not fit its column
  out_of_range : Error
  -- a text that the JSON decoder refuses, with its text
  malformed : Text → Error

pub data Result {ℓ} (A : Type ℓ) : Type ℓ where
  ok : A → Result A
  err : Error → Result A

-- `err.Error()`; of a broken constraint or range only a part is kept from the driver's text
unfoldable pub message : Error → Text
message (driver t) = t
message (violation c) = c
message invalid_transition = text "invalid purchase status transition"
message missing_charge_id = text "missing telegram charge id"
message empty_charge_id = text "empty charge id"
message purchase_not_found = text "purchase not found"
message content_not_found = text "content not found"
message content_inactive = text "content inactive"
message invalid_rating = text "invalid rating"
message invalid_token = text "invalid token"
message token_expired = text "token expired"
message token_used = text "token already used"
message no_entropy = text "entropy source failed"
message empty_video_id = text "empty bunny video id"
message missing_library_id = text "missing bunny library id"
message missing_api_key = text "missing bunny api key"
message (bad_status code) = text "bunny api returned status " ++ code
message (list_failed code body) = text "bunny list videos status " ++ (code ++ (text ": " ++ body))
message (malformed t) = t
message method_not_allowed = text "method not allowed"
message bad_secret = text "invalid webhook secret"
message out_of_range = text "greater than maximum value for int4"
