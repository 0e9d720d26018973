-- ===== src/Storage/Reviews.antt =====
-- postgres/review_repo.go, over the table `reviews` of schema.go.
use streaming_bot.Prelude.{
  ℕ, Text, text, text_eq, [], ◌∷◌, ◌++◌, Option, not, ◌==◌, find, any, if◌then◌else◌,
}
use streaming_bot.Exec.{Exec, ok, err, gets, violation, ◌>>=◌}
use streaming_bot.World.{Db, Io, sql, time_now}
use streaming_bot.Domain.Review.{Review, is_valid_rating}

unfoldable pub get_by_purchase_id : Text → Io (Option Review)
get_by_purchase_id id = sql (gets (λ d. find (λ r. text_eq r.purchase_id id) d.reviews))

-- `CHECK (rating BETWEEN 1 AND 5)`, then `ON CONFLICT (purchase_id) DO NOTHING`, then the key.
unfoldable pub insert_row : Review → Exec Db Unit
insert_row r d =
    if not (is_valid_rating r)
    then (err (violation (text "reviews_rating_check")), d)
    else if any (λ q. text_eq q.purchase_id r.purchase_id) d.reviews
    then (ok tt, d)
    else if any (λ q. text_eq q.id r.id) d.reviews
    then (err (violation (text "reviews_pkey")), d)
    else (ok tt, record d { reviews = d.reviews ++ r ∷ [] })

-- The zero time stands for `IsZero`.
abbrev pub stamped : ℕ → Review → Review
stamped now r = if r.created_at == 0 then record r { created_at = now } else r

unfoldable pub create : Review → Io Unit
create r = do now ← time_now; sql (insert_row (stamped now r))
