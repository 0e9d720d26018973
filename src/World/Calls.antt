-- ===== src/World/Calls.antt =====
-- Rules for the calls of a service: an assertion about the database, before and after.
use streaming_bot.Prelude.{ℕ, List, [], ◌∷◌, arith, ◌≡◌, refl, sym}
use mathlib.Core.Path.{subst}
use streaming_bot.Exec.{Exec, Result, ok, err, gets, ignore, attempt, continue, ◌>>=◌}
use streaming_bot.Exec.Triple.{Ends, Triple, Keeps, Keeps-of}
use streaming_bot.World.{
  World, Db, Cache, Outgoing, Outcome, done, refused, unheard, Io, respond, on_db, on_cache,
  push_call, sql, redis, send, time_now, rand_read,
}

module _ {A : Type 0} (P : Db → Type 0) (Q : A → Db → Type 0) (E : Db → Type 0)
    (lost : (a : A) (d : Db) → Q a d → E d) (idle : (d : Db) → P d → E d) where
  Ends-lost : (r : Result A) (d : Db) → Ends Q E r d → E d
  Ends-lost (ok a) d h = lost a d h
  Ends-lost (err e) d h = h

  Ends-db : (r : Result A) (w : World) → Ends Q E r w.db → Ends (λ a v. Q a v.db) (λ v. E v.db) r w
  Ends-db (ok a) w h = h
  Ends-db (err e) w h = h

  respond-on_db :
      (m : Exec Db A)
      → Triple P m Q E
      → (net : List Outcome) (w : World) → P w.db
      → Ends (λ a w. Q a w.db) (λ w. E w.db) (respond net (on_db m) w).0 (respond net (on_db m) w).1
  unfolding respond on_db
  respond-on_db m h [] w p = Ends-db (m w.db).0 (on_db m w).1 (h.at w.db p)
  respond-on_db m h (done ∷ net) w p =
      Ends-db (m w.db).0 (on_db m (record w { net = net })).1 (h.at w.db p)
  respond-on_db m h (refused e ∷ net) w p = idle w.db p
  respond-on_db m h (unheard e ∷ net) w p = Ends-lost (m w.db).0 (m w.db).1 (h.at w.db p)

  -- A statement whose triple bears a lost answer has the triple of the statement alone.
  pub Triple-sql :
      {m : Exec Db A}
      → Triple P m Q E
      → Triple (λ w. P w.db) (sql m) (λ a w. Q a w.db) (λ w. E w.db)
  unfolding sql
  Triple-sql {m} h = record { at = λ w p. respond-on_db m h w.net w p }

module _ {A : Type 0} (P : Db → Type 0) where
  pub Keeps-sql : (m : Exec Db A) → ((d : Db) → P d → P (m d).1) → Keeps (λ w. P w.db) (sql m)
  Keeps-sql m h = Triple-sql P (λ _. P) P (λ a d p. p) (λ d p. p) (Keeps-of h)

  -- A call that leaves the database alone keeps every assertion about it.
  pub Keeps-same_db : (m : Io A) → ((w : World) → (m w).1.db ≡ w.db) → Keeps (λ w. P w.db) m
  Keeps-same_db m same = Keeps-of (λ w p. subst P (sym (same w)) p)

respond-db :
    {A : Type 0} (m : Io A)
    → ((w : World) → (m w).1.db ≡ w.db)
    → (net : List Outcome) (w : World) → (respond net m w).1.db ≡ w.db
unfolding respond
respond-db m same [] w = same w
respond-db m same (done ∷ net) w = same (record w { net = net })
respond-db m same (refused e ∷ net) w = refl
respond-db m same (unheard e ∷ net) w = same (record w { net = net })

pub gets-db : {A : Type 0} (f : Db → A) (w : World) → (sql (gets f) w).1.db ≡ w.db
unfolding sql gets
gets-db f w = respond-db (on_db (gets f)) (λ v. refl) w.net w

pub redis-db : {A : Type 0} (m : Exec Cache A) (w : World) → (redis m w).1.db ≡ w.db
unfolding redis
redis-db m w = respond-db (on_cache m) (λ v. refl) w.net w

pub send-db : (m : Outgoing) (w : World) → (send m w).1.db ≡ w.db
unfolding send
send-db m w = respond-db (push_call m) (λ v. refl) w.net w

pub rand_read-db : (n : ℕ) (w : World) → (rand_read n w).1.db ≡ w.db
unfolding rand_read
rand_read-db n w = ground arith

pub time_now-db : (w : World) → (time_now w).1.db ≡ w.db
unfolding time_now
time_now-db w = refl

pub ignore-db :
    {A : Type 0} (call : Io A)
    → ((w : World) → (call w).1.db ≡ w.db)
    → (w : World) → (ignore call w).1.db ≡ w.db
unfolding ignore
ignore-db call same w = same w

pub attempt-db :
    {A : Type 0} (call : Io A)
    → ((w : World) → (call w).1.db ≡ w.db)
    → (w : World) → (attempt call w).1.db ≡ w.db
unfolding attempt
attempt-db call same w = same w

-- A call that leaves the database alone, after another one, however that ended.
pub after-db :
    {A B : Type 0} (m : Io A) (f : A → Io B) (w : World)
    → ((a : A) (v : World) → (f a v).1.db ≡ v.db)
    → ((m >>= f) w).1.db ≡ (m w).1.db
unfolding ◌>>=◌
after-db {A} {B} m f w same = go (m w).0
  where
    go : (r : Result A) → (continue r f (m w).1).1.db ≡ (m w).1.db
    go (ok a) = same a (m w).1
    go (err e) = refl
