-- ===== src/Storage/Purchases.antt =====
-- postgres/purchase_repo.go, over the table `purchases` of schema.go.
pub mod RoundTrip
use mathlib.Core.Option
use streaming_bot.Prelude.{
  Text, text, text_eq, List, [], ◌∷◌, ◌++◌, Option, none, some, Bool, true, false, ◌&&◌, ◌||◌, not,
  find, any, update_where, if◌then◌else◌,
}
use streaming_bot.Prelude.Int.{pos, is_int4}
use streaming_bot.Exec.{out_of_range, Exec, ok, err, gets, violation}
use streaming_bot.World.{World, Db, PurchaseRow, Io, sql}
use streaming_bot.Domain.Purchase.{Purchase, status_text, parse_status}

unfoldable pub nullable_string : Text → Option Text
nullable_string v = if text_eq v [] then none else some v

-- `if col.Valid { field = col.String }`
abbrev string_or_empty : Option Text → Text
string_or_empty none = []
string_or_empty (some v) = v

-- The parameters of `Create` and `Update`.
unfoldable pub to_row : Purchase → PurchaseRow
to_row p = record {
  id = p.id;
  user_id = p.user_id;
  content_id = p.content_id;
  status = status_text p.status;
  telegram_payload = p.telegram_payload;
  telegram_charge_id = nullable_string p.telegram_charge_id;
  stars_amount = p.stars_amount;
  created_at = p.created_at;
  paid_at = p.paid_at;
  issue_link_attempts = p.issue_link_attempts;
  last_issue_link_error = nullable_string p.last_issue_link_error;
  last_issue_link_at = p.last_issue_link_at;
  review_requested_at = p.review_requested_at;
}

-- The scan in `getOne`.
unfoldable pub of_row : PurchaseRow → Purchase
of_row r = record {
  id = r.id;
  user_id = r.user_id;
  content_id = r.content_id;
  status = parse_status r.status;
  telegram_payload = r.telegram_payload;
  telegram_charge_id = string_or_empty r.telegram_charge_id;
  stars_amount = r.stars_amount;
  created_at = r.created_at;
  paid_at = r.paid_at;
  issue_link_attempts = r.issue_link_attempts;
  last_issue_link_error = string_or_empty r.last_issue_link_error;
  last_issue_link_at = r.last_issue_link_at;
  review_requested_at = r.review_requested_at;
}

-- `getOne`: the first row that fits, or nil.
unfoldable pub select_one : (PurchaseRow → Bool) → Exec Db (Option Purchase)
select_one p = gets (λ d. Option.map of_row (find p d.purchases))

-- NULL is equal to nothing.
abbrev pub same_charge : Option Text → Option Text → Bool
same_charge (some a) (some b) = text_eq a b
same_charge _ _ = false

-- A row that breaks a UNIQUE constraint beside `r`.
abbrev pub clashes : PurchaseRow → PurchaseRow → Bool
clashes r q =
    text_eq q.telegram_payload r.telegram_payload
    || same_charge q.telegram_charge_id r.telegram_charge_id

unfoldable pub insert_row : PurchaseRow → Exec Db Unit
insert_row r d =
    if any (λ q. text_eq q.id r.id) d.purchases
    then (err (violation (text "purchases_pkey")), d)
    else if any (clashes r) d.purchases
    then (err (violation (text "purchases_unique")), d)
    else (ok tt, record d { purchases = d.purchases ++ r ∷ [] })

-- The statement fails where the count leaves its INTEGER column or the new row clashes with another
-- one; with no row of this id it changes nothing.
unfoldable pub update_row : PurchaseRow → Exec Db Unit
update_row r d =
    if not (is_int4 (pos r.issue_link_attempts))
    then (err out_of_range, d)
    else if any (λ q. text_eq q.id r.id) d.purchases
        && any (λ q. not (text_eq q.id r.id) && clashes r q) d.purchases
    then (err (violation (text "purchases_unique")), d)
    else (
      ok tt,
      record d { purchases = update_where (λ q. text_eq q.id r.id) (λ _. r) d.purchases },
    )

unfoldable pub get_by_id : Text → Io (Option Purchase)
get_by_id id = sql (select_one (λ r. text_eq r.id id))

unfoldable pub get_by_payload : Text → Io (Option Purchase)
get_by_payload payload = sql (select_one (λ r. text_eq r.telegram_payload payload))

unfoldable pub get_by_charge_id : Text → Io (Option Purchase)
get_by_charge_id charge_id =
    sql (select_one (λ r. same_charge r.telegram_charge_id (some charge_id)))

unfoldable pub create : Purchase → Io Unit
create p = sql (insert_row (to_row p))

unfoldable pub update : Purchase → Io Unit
update p = sql (update_row (to_row p))
