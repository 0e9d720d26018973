-- ===== src/System/SingleUse.antt =====
-- Who is let in: what an accepted token proves, and what becomes of it.
use streaming_bot.Prelude.{ℕ, ◌≤◌, Text, List, none, some, true, find, ◌≡◌, ◌≢◌, refl, arith}
use streaming_bot.Prelude.Tables.{any_of_find, find-some, count}
use streaming_bot.Exec.{ok, ◌>>=◌, raise_if, ignore, gets}
use streaming_bot.Exec.Triple.{
  Triple, Triple-bind, Triple-pure, Triple-weaken, Triple_of_state, Triple-ok,
}
use streaming_bot.World.Calls.{Triple-sql, Keeps-same_db, redis-db, ignore-db}
use streaming_bot.Exec.Ensures.{bind-ok}
use streaming_bot.World.{World, Db, sql, redis, time_now}
use streaming_bot.Domain.Access.{Grant}
use streaming_bot.Storage.Grants.{get_by_token_hash, select_by_hash, mark_used, mark_used_row}
use streaming_bot.Storage.Grants.Marks.{has_hash, is_open, any-mark_used, mark_used-closes}
use streaming_bot.Storage.Tokens
use streaming_bot.Storage.Tokens.{RedisClient}
use streaming_bot.Platform.Crypto.{token_digest}
use streaming_bot.System.Closed.Facts.{HasOneGrant, HasOneGrant-IsClosed, IsSpent, IsSpent-IsClosed}
use streaming_bot.System.Reach.{Reach, initial}
use streaming_bot.System.Reach.Laws.{Reach-closed}
use streaming_bot.App.IssueAccess.{Handler}
use streaming_bot.App.UseAccess.{Admission, check, redeem, handle}

abbrev pub admission : Grant → Admission
admission g = record { purchase_id = g.purchase_id; user_id = g.user_id; valid = true }

mark_used_row-IsSpent :
    (h : Text) (g : Grant) (d : Db)
    → HasOneGrant h d × (find (has_hash h) d.access_grants ≡ some g)
    → IsSpent h (mark_used_row g.id d).1
unfolding mark_used_row
mark_used_row-IsSpent h g d (one, found) = (
  ground (
    arith,
    any-mark_used h g.id d.now d.access_grants,
    any_of_find (has_hash h) (has_hash h) d.access_grants g found
        (find-some _ d.access_grants g found),
  ),
  mark_used-closes h d.now g d.access_grants one found,
)

module _ (sum256 : Text → List ℕ) (cache : RedisClient) where
  check-ok :
      (h : Text) (w : World) (g : Grant)
      → (check sum256 cache h w).0 ≡ ok g
      → (find (has_hash h) w.db.access_grants ≡ some g)
        × (g.used_at ≡ none)
        × (w.clock ≤ g.expires_at)
        × ((check sum256 cache h w).1.db ≡ w.db)
  unfolding check Tokens.get get_by_token_hash select_by_hash sql redis time_now ◌>>=◌ raise_if
      ignore gets
  check-ok h w g e = (ground arith, ground arith, ground arith, ground arith)

  redeem-IsSpent :
      (h : Text) (g : Grant)
      → Triple
          (λ w. HasOneGrant h w.db × (find (has_hash h) w.db.access_grants ≡ some g))
          (redeem sum256 cache h g)
          (λ a w. IsSpent h w.db × (a ≡ admission g))
          (λ _. Unit)
  unfolding redeem mark_used Tokens.delete
  redeem-IsSpent h g =
      Triple-bind
        (Triple-sql _ (λ _. IsSpent h) (λ _. Unit) (λ _ d x. tt) (λ d x. tt)
          (Triple-weaken (λ d x. x) (λ _ d x. x) (λ d x. tt)
            (Triple_of_state (mark_used_row-IsSpent h g))))
        λ _.
          Triple-bind
            (Triple-weaken (λ w x. x) (λ a w x. x) (λ w x. tt)
              (Keeps-same_db (IsSpent h) (ignore (redis _)) (ignore-db _ (redis-db _))))
            λ _. Triple-pure _ (λ w x. (x, refl))

  -- A spent token is refused, however the services behave.
  pub handle-IsSpent :
      (token : Text) (w : World) (a : Admission)
      → IsSpent (token_digest sum256 token) w.db
      → (handle sum256 cache token w).0 ≢ ok a
  unfolding handle
  handle-IsSpent token w a spent e =
      let h = token_digest sum256 token in
      let (g, checked, _, _) = bind-ok (check sum256 cache h) (redeem sum256 cache h) w a e in
      let (found, unused, _, _) = check-ok h w g checked in
      ground (
        arith,
        any_of_find (has_hash h) (is_open h) w.db.access_grants g found,
        find-some (has_hash h) w.db.access_grants g found,
      )

  pub handle-ok :
      (token : Text) (w : World) (a : Admission)
      → HasOneGrant (token_digest sum256 token) w.db
      → (handle sum256 cache token w).0 ≡ ok a
      → IsSpent (token_digest sum256 token) (handle sum256 cache token w).1.db
        × ((g : Grant) × (find (has_hash (token_digest sum256 token)) w.db.access_grants ≡ some g)
            × (g.used_at ≡ none)
            × (w.clock ≤ g.expires_at)
            × (a ≡ admission g))
  unfolding handle
  handle-ok token w a one e =
      let h = token_digest sum256 token in
      let (g, checked, redeemed, state) =
        bind-ok (check sum256 cache h) (redeem sum256 cache h) w a e in
      let (found, unused, fresh, same) = check-ok h w g checked in
      let (spent, result) =
        Triple-ok (redeem-IsSpent h g) (check sum256 cache h w).1 a (rw same (one, found))
          redeemed in
      (rw state spent, (g, found, unused, fresh, result))

-- A token admits at most once: in every reachable world, a call that admits has found an open grant
-- of the token, not used and not expired, and returns the purchase and the user of that grant; and
-- in every world that is reached from there the token is refused. (The calls follow one another.)
pub single_use :
    (h : Handler) (token : Text) {w v : World} (a b : Admission)
    → Reach h initial w
    → (handle h.sum256 h.cache token w).0 ≡ ok a
    → Reach h (handle h.sum256 h.cache token w).1 v
    → ((g : Grant) × (find (has_hash (token_digest h.sum256 token)) w.db.access_grants ≡ some g)
        × (g.used_at ≡ none)
        × (w.clock ≤ g.expires_at)
        × (a ≡ admission g))
      × ((handle h.sum256 h.cache token v).0 ≢ ok b)
unfolding count
single_use h token {w} {v} a b r e later =
    let d = token_digest h.sum256 token in
    let one = Reach-closed h (HasOneGrant d) (HasOneGrant-IsClosed d) (omega arith) r in
    let (spent, opened) = handle-ok h.sum256 h.cache token w a one e in
    let kept = Reach-closed h (IsSpent d) (IsSpent-IsClosed d) spent later in
    (opened, handle-IsSpent h.sum256 h.cache token v b kept)
