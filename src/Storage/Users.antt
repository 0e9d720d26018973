-- ===== src/Storage/Users.antt =====
-- postgres/user_repo.go, over the table `users` of schema.go.
use streaming_bot.Prelude.{[], ◌∷◌, ◌++◌, Option, find, any, update_where, if◌then◌else◌}
use streaming_bot.Prelude.Int.{ℤ, int_eq}
use streaming_bot.Exec.{Exec, ok, gets}
use streaming_bot.World.{Db, Io, sql}
use streaming_bot.Domain.User.{User}

unfoldable pub get_by_id : ℤ → Io (Option User)
get_by_id id = sql (gets (λ d. find (λ u. int_eq u.id id) d.users))

-- `ON CONFLICT (id) DO UPDATE SET username, banned`: the creation time stays.
unfoldable pub upsert_row : User → Exec Db Unit
upsert_row u d =
    if any (λ q. int_eq q.id u.id) d.users
    then (
      ok tt,
      record d {
        users =
            update_where (λ q. int_eq q.id u.id)
              (λ q. record q { username = u.username; banned = u.banned }) d.users;
      },
    )
    else (ok tt, record d { users = d.users ++ u ∷ [] })

unfoldable pub upsert : User → Io Unit
upsert u = sql (upsert_row u)
