-- ===== src/System/Front/Tables.antt =====
-- The same for an assertion about the tables alone.
use streaming_bot.Prelude.{Text}
use streaming_bot.Prelude.Int.{ℤ}
use streaming_bot.Exec.Triple.{Keeps, Keeps-of}
use streaming_bot.World.{Db}
use streaming_bot.World.Calls.{Keeps-sql}
use streaming_bot.Domain.Content.{Content}
use streaming_bot.Storage.Contents
use streaming_bot.Telegram.Api.{Bot, Update, toggle_admin}
use streaming_bot.Telegram.Bot.{handle_update}
use streaming_bot.System.Front.{IsServed, IsEdited, AllowsCalls-IsServed}
use streaming_bot.System.Front.Updates.{handle_update-Keeps}
use streaming_bot.System.Closed.{IsStable, stable-AllowsCalls}

module _ (P : Db → Type 0) where
  toggle-Kept : (user : ℤ) → Keeps (λ w. P w.db) (toggle_admin user)
  unfolding toggle_admin
  toggle-Kept user = Keeps-of (λ w p. p)

  pub tables-IsEdited :
      ((c : Content) (d : Db) → P d → P (Contents.upsert_row c d).1)
      → ((id : Text) (d : Db) → P d → P (Contents.delete_row id d).1)
      → IsEdited (λ w. P w.db)
  unfolding Contents.upsert Contents.delete_by_id
  tables-IsEdited upsert delete = record {
    upsert = λ c. Keeps-sql P _ (upsert c);
    delete = λ id. Keeps-sql P _ (delete id);
  }

  pub update-Kept :
      (s : IsServed (λ w. P w.db)) (e : IsEdited (λ w. P w.db)) (b : Bot) (u : Update)
      → Keeps (λ w. P w.db) (handle_update b u)
  update-Kept s e b u = handle_update-Keeps s e toggle-Kept b u

  module _ (c : IsStable P) where
    pub stable-IsServed : IsServed (λ w. P w.db)
    stable-IsServed = AllowsCalls-IsServed (stable-AllowsCalls P c)

    pub stable-IsEdited : IsEdited (λ w. P w.db)
    stable-IsEdited = tables-IsEdited c.upsert_content c.delete_content
