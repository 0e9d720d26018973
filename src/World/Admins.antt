-- ===== src/World/Admins.antt =====
-- No call of a service touches the bot's map of admins.
use streaming_bot.Prelude.{ℕ, List, ◌≡◌}
use streaming_bot.Prelude.Int.{ℤ}
use streaming_bot.Exec.{Exec}
use streaming_bot.Exec.Triple.{Keeps}
use streaming_bot.World.{World, Db, Cache, Outgoing, sql, redis, send, time_now, rand_read}
use streaming_bot.World.Apart.{
  IsApart, send-Apart, sql-Apart, redis-Apart, time_now-Apart, rand_read-Apart,
}

module _ (admins : List ℤ) where
  abbrev pub HasAdmins : World → Type 0
  HasAdmins w = w.admins ≡ admins

  HasAdmins-IsApart : IsApart HasAdmins
  HasAdmins-IsApart = record {
    outcomes = λ net w h. h;
    tables = λ db w h. h;
    cached = λ cache w h. h;
    random = λ entropy w h. h;
  }

  pub sql-HasAdmins : {A : Type 0} (m : Exec Db A) → Keeps HasAdmins (sql m)
  sql-HasAdmins m = sql-Apart HasAdmins-IsApart m

  pub redis-HasAdmins : {A : Type 0} (m : Exec Cache A) → Keeps HasAdmins (redis m)
  redis-HasAdmins m = redis-Apart HasAdmins-IsApart m

  pub send-HasAdmins : (m : Outgoing) → Keeps HasAdmins (send m)
  send-HasAdmins m = send-Apart HasAdmins-IsApart (λ sent w h. h) m

  pub time_now-HasAdmins : Keeps HasAdmins time_now
  time_now-HasAdmins = time_now-Apart HasAdmins-IsApart

  pub rand_read-HasAdmins : (n : ℕ) → Keeps HasAdmins (rand_read n)
  rand_read-HasAdmins n = rand_read-Apart HasAdmins-IsApart n
