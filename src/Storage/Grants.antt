-- ===== src/Storage/Grants.antt =====
-- postgres/access_repo.go, over the table `access_grants` of schema.go.
pub mod Marks
use streaming_bot.Prelude.{
  ℕ, Text, text, text_eq, List, [], ◌∷◌, ◌++◌, Option, none, some, Bool, true, false, ◌&&◌, ◌||◌,
  find, any, update_where, if◌then◌else◌,
}
use streaming_bot.Exec.{Exec, ok, err, gets, violation}
use streaming_bot.World.{Db, Io, sql}
use streaming_bot.Domain.Access.{Grant}

unfoldable pub select_by_hash : Text → Exec Db (Option Grant)
select_by_hash h = gets (λ d. find (λ g. text_eq g.token_hash h) d.access_grants)

unfoldable pub get_by_token_hash : Text → Io (Option Grant)
get_by_token_hash h = sql (select_by_hash h)

unfoldable pub get_by_purchase_id : Text → Io (Option Grant)
get_by_purchase_id id = sql (gets (λ d. find (λ g. text_eq g.purchase_id id) d.access_grants))

-- The primary key and the two UNIQUE columns.
abbrev pub clashes : Grant → Grant → Bool
clashes g q =
    text_eq q.id g.id || text_eq q.purchase_id g.purchase_id || text_eq q.token_hash g.token_hash

abbrev pub is_unused : Grant → Bool
is_unused g = elim g.used_at [ none ↦ true | some _ ↦ false ]

unfoldable pub insert_row : Grant → Exec Db Unit
insert_row g d =
    if any (clashes g) d.access_grants
    then (err (violation (text "access_grants_unique")), d)
    else (ok tt, record d { access_grants = d.access_grants ++ g ∷ [] })

unfoldable pub create : Grant → Io Unit
create g = sql (insert_row g)

-- `SET used_at=NOW() WHERE id=$1 AND used_at IS NULL`; how many rows it changed is not looked at.
unfoldable pub mark_used_row : Text → Exec Db Unit
mark_used_row id d = (
  ok tt,
  record d {
    access_grants =
        update_where (λ g. text_eq g.id id && is_unused g) (λ g. record g { used_at = some d.now })
          d.access_grants;
  },
)

unfoldable pub mark_used : Text → Io Unit
mark_used id = sql (mark_used_row id)
