-- ===== src/Threads/Quiet/Allows.antt =====
-- What the threads of the program do to the tables: the statements of which nothing has to be known,
-- the confirmation of a payment, and the round of the outbox processor.
use streaming_bot.Prelude.{ℕ, Text}
use streaming_bot.World.{Db, PurchaseRow}
use streaming_bot.Domain.Content.{Content}
use streaming_bot.Domain.Payment.{Event}
use streaming_bot.Domain.Review.{Review}
use streaming_bot.Storage.Purchases
use streaming_bot.Storage.Grants
use streaming_bot.Storage.Reviews
use streaming_bot.Storage.Contents
use streaming_bot.App.IssueAccess.{Handler}
use streaming_bot.Threads.UseCases.{confirming}
use streaming_bot.Threads.Issuing.{working}
use streaming_bot.Threads.Rely.{Rely}
use streaming_bot.Threads.Rely.Keeping.{Grows}
use streaming_bot.Threads.Quiet.{IsQuiet}

pub record Allows (R : Rely) : Type 0 where
  pub insert_purchase :
      (r : PurchaseRow) (d : Db) → R.holds d → Grows R d (Purchases.insert_row r d).1
  pub mark_used : (id : Text) (d : Db) → R.holds d → Grows R d (Grants.mark_used_row id d).1
  pub insert_review : (r : Review) (d : Db) → R.holds d → Grows R d (Reviews.insert_row r d).1
  pub upsert_content : (c : Content) (d : Db) → R.holds d → Grows R d (Contents.upsert_row c d).1
  pub delete_content : (id : Text) (d : Db) → R.holds d → Grows R d (Contents.delete_row id d).1
  pub seed_content : (c : Content) (d : Db) → R.holds d → Grows R d (Contents.seed_row c d).1
  pub advance : (now : ℕ) (d : Db) → R.holds d → Grows R d (record d { now = now })
  pub confirm : (e : Event) → IsQuiet R (confirming e)
  pub work : (h : Handler) → IsQuiet R (working h)
