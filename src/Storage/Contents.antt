-- ===== src/Storage/Contents.antt =====
-- postgres/content_repo.go and seed.go, over the table `content` of schema.go.
use streaming_bot.Prelude.{
  Text, text, text_eq, List, [], ◌∷◌, ◌++◌, Option, Bool, true, not, find, any, select,
  update_where, if◌then◌else◌,
}
use streaming_bot.Prelude.Int.{pos, ltb_ℤ, is_int4}
use streaming_bot.Exec.{Exec, ok, err, gets, violation, out_of_range}
use streaming_bot.World.{Db, Io, sql}
use streaming_bot.Domain.Content.{Content}

unfoldable pub get_by_id : Text → Io (Option Content)
get_by_id id = sql (gets (λ d. find (λ c. text_eq c.id id) d.content))

-- `ORDER BY id`, under the collation of the database, which the repository does not fix.
module _ (collate : Text → Text → Bool) where
  insert_by_id : Content → List Content → List Content
  insert_by_id c [] = c ∷ []
  insert_by_id c (d ∷ l) = if collate c.id d.id then c ∷ d ∷ l else d ∷ insert_by_id c l

  unfoldable pub order_by_id : List Content → List Content
  unfolding insert_by_id
  order_by_id [] = []
  order_by_id (c ∷ l) = insert_by_id c (order_by_id l)

  unfoldable pub list_active : Io (List Content)
  list_active = sql (gets (λ d. order_by_id (select (λ c. c.active) d.content)))

-- The range of the column, `CHECK (price_stars > 0)`, and `ON CONFLICT (id)`.
unfoldable pub upsert_row : Content → Exec Db Unit
upsert_row c d =
    if not (is_int4 c.price_stars)
    then (err out_of_range, d)
    else if not (ltb_ℤ (pos 0) c.price_stars)
    then (err (violation (text "content_price_stars_check")), d)
    else if any (λ q. text_eq q.id c.id) d.content
    then (ok tt, record d { content = update_where (λ q. text_eq q.id c.id) (λ _. c) d.content })
    else (ok tt, record d { content = d.content ++ c ∷ [] })

unfoldable pub upsert : Content → Io Unit
upsert c = sql (upsert_row c)

unfoldable pub delete_row : Text → Exec Db Unit
delete_row id d = (ok tt, record d { content = select (λ q. not (text_eq q.id id)) d.content })

unfoldable pub delete_by_id : Text → Io Unit
delete_by_id id = sql (delete_row id)

-- `ON CONFLICT (id) DO NOTHING`
unfoldable pub seed_row : Content → Exec Db Unit
seed_row c d =
    if not (is_int4 c.price_stars)
    then (err out_of_range, d)
    else if not (ltb_ℤ (pos 0) c.price_stars)
    then (err (violation (text "content_price_stars_check")), d)
    else if any (λ q. text_eq q.id c.id) d.content
    then (ok tt, d)
    else (ok tt, record d { content = d.content ++ c ∷ [] })

abbrev pub demo_content : Content
demo_content = record {
  id = text "content-demo-1";
  external_ref = text "provider:video:demo1";
  title = text "Demo Streaming Content";
  description = text "Demo content seeded at startup";
  price_stars = pos 25;
  active = true;
}

unfoldable pub ensure_demo_content : Io Unit
ensure_demo_content = sql (seed_row demo_content)
