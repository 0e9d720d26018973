-- ===== src/World/Apart.antt =====
-- An assertion about a part of the world that is none of the tables, the cache, the entropy or the
-- faults is kept by every call but those to Telegram.
use streaming_bot.Prelude.{ℕ, List, [], ◌∷◌, Bool, true, false, if◌then◌else◌}
use streaming_bot.Exec.{Exec, Result}
use streaming_bot.Exec.Triple.{Keeps, Keeps-of}
use streaming_bot.World.{
  World, Db, Cache, Outcome, done, refused, unheard, Io, respond, on_db, on_cache, push_call,
  Outgoing, sql, redis, send, time_now, rand_read,
}

pub record IsApart (P : World → Type 0) : Type 0 where
  pub outcomes : (net : List Outcome) (w : World) → P w → P (record w { net = net })
  pub tables : (db : Db) (w : World) → P w → P (record w { db = db })
  pub cached : (cache : Cache) (w : World) → P w → P (record w { cache = cache })
  pub random : (entropy : List ℕ) (w : World) → P w → P (record w { entropy = entropy })

module _ {P : World → Type 0} (a : IsApart P) where
  respond-Apart :
      {A : Type 0} (m : Io A)
      → ((w : World) → P w → P (m w).1)
      → (net : List Outcome) (w : World) → P w
      → P (respond net m w).1
  unfolding respond
  respond-Apart m same [] w h = same w h
  respond-Apart m same (done ∷ net) w h = same (record w { net = net }) (a.outcomes net w h)
  respond-Apart m same (refused e ∷ net) w h = a.outcomes net w h
  respond-Apart m same (unheard e ∷ net) w h = same (record w { net = net }) (a.outcomes net w h)

  pub sql-Apart : {A : Type 0} (m : Exec Db A) → Keeps P (sql m)
  unfolding sql
  sql-Apart m = Keeps-of (λ w h. respond-Apart (on_db m) (λ v k. a.tables _ v k) w.net w h)

  pub redis-Apart : {A : Type 0} (m : Exec Cache A) → Keeps P (redis m)
  unfolding redis
  redis-Apart m = Keeps-of (λ w h. respond-Apart (on_cache m) (λ v k. a.cached _ v k) w.net w h)

  pub time_now-Apart : Keeps P time_now
  unfolding time_now
  time_now-Apart = Keeps-of (λ w h. h)

  either-Apart :
      (b : Bool) (r s : Result (List ℕ)) (w v : World)
      → P w
      → P v
      → P (if◌then◌else◌ {A = Result (List ℕ) × World} b (r, w) (s, v)).1
  either-Apart true r s w v h k = h
  either-Apart false r s w v h k = k

  pub rand_read-Apart : (n : ℕ) → Keeps P (rand_read n)
  unfolding rand_read
  rand_read-Apart n = Keeps-of (λ w h. either-Apart _ _ _ w _ h (a.random _ w h))

  -- Telegram too, where the messages do not matter.
  pub send-Apart :
      ((sent : List Outgoing) (w : World) → P w → P (record w { sent = sent }))
      → (m : Outgoing) → Keeps P (send m)
  unfolding send
  send-Apart apart m = Keeps-of (λ w h. respond-Apart (push_call m) (λ v k. apart _ v k) w.net w h)
