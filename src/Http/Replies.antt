-- ===== src/Http/Replies.antt =====
-- What the server writes (httpapi/server.go): JSON with a status.
use streaming_bot.Prelude.{ℕ, Text, text, List, [], ◌∷◌, ◌++◌, map, Bool, length, if◌then◌else◌}
use streaming_bot.Prelude.Decimal.{decimal_ℤ}
use streaming_bot.Exec.{Error, message}
use streaming_bot.Domain.Content.{Content}
use streaming_bot.Platform.Json.{marshal_string}
use streaming_bot.Platform.Strings.{join}
use streaming_bot.Platform.Url.{bytes_of}
use streaming_bot.Http.Base64
use streaming_bot.App.StartPurchase.{Invoice}
use streaming_bot.App.UseAccess.{Admission}

pub record Response : Type 0 where
  pub status : ℕ
  pub content_type : Text
  pub content_length : ℕ
  pub body : Text

-- `writeJSON`, of what `mustJSON` makes of the value
unfoldable pub write_json : ℕ → Text → Response
write_json status body = record {
  status = status;
  content_type = text "application/json";
  content_length = length (bytes_of body);
  body = body;
}

-- `"key":value`, and an object of such
abbrev member : Text → Text → Text
member key value = marshal_string key ++ (text ":" ++ value)

abbrev object : List Text → Text
object members = text "{" ++ (join (text ",") members ++ text "}")

unfoldable pub status_json : Text → Text
status_json s = object (member (text "status") (marshal_string s) ∷ [])

unfoldable pub error_json : Error → Text
error_json e = object (member (text "error") (marshal_string (message e)) ∷ [])

-- `writeError`
abbrev pub write_error : ℕ → Error → Response
write_error status e = write_json status (error_json e)

abbrev boolean : Bool → Text
boolean b = if b then text "true" else text "false"

-- A field with no tag keeps its name; a `[]byte` is its base64.
unfoldable pub content_json : Content → Text
content_json c = object (
    member (text "ID") (marshal_string c.id)
    ∷ member (text "ExternalRef") (marshal_string (Base64.encode (bytes_of c.external_ref)))
    ∷ member (text "Title") (marshal_string c.title)
    ∷ member (text "Description") (marshal_string c.description)
    ∷ member (text "PriceStars") (decimal_ℤ c.price_stars)
    ∷ member (text "Active") (boolean c.active)
    ∷ [])

-- With no rows the repository's slice is nil.
unfoldable pub catalog_json : List Content → Text
catalog_json [] = text "null"
catalog_json (c ∷ cs) = text "[" ++ (join (text ",") (map content_json (c ∷ cs)) ++ text "]")

unfoldable pub invoice_json : Invoice → Text
invoice_json r = object (
    member (text "purchase_id") (marshal_string r.purchase_id)
    ∷ member (text "invoice_payload") (marshal_string r.invoice_payload)
    ∷ member (text "amount_stars") (decimal_ℤ r.amount_stars)
    ∷ [])

unfoldable pub admission_json : Admission → Text
admission_json r = object (
    member (text "purchase_id") (marshal_string r.purchase_id)
    ∷ member (text "user_id") (decimal_ℤ r.user_id)
    ∷ member (text "valid") (boolean r.valid)
    ∷ [])
