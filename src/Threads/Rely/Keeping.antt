-- ===== src/Threads/Rely/Keeping.antt =====
-- The calls of a thread that keep what is known.
use streaming_bot.Prelude.{◌≡◌, refl}
use streaming_bot.Exec.{Result, ok, err, Exec, gets}
use streaming_bot.World.{World, Db, Io, sql}
use streaming_bot.Threads.{one}
use streaming_bot.Threads.Rely.{Rely, IsKept, Known}
use streaming_bot.Threads.Rely.Guards.{Guards}
use streaming_bot.Threads.Rely.Calls.{Guards-sql, Guards-same, Guards-gets}

-- Nothing is known.
abbrev pub Any : Db → Type 0
Any d = Unit

module _ (R : Rely) where
  open R use {holds, extends}

  -- The invariant, and how the tables went on.
  abbrev pub Grows : Db → Db → Type 0
  Grows d e = holds e × extends d e

  module _ (P : Db → Type 0) (kept : IsKept R P) {A : Type 0} where
    Known-stays : (r : Result A) (d : Db) → P d → Known R (λ _. P) r d
    Known-stays (ok a) d p = p
    Known-stays (err e) d p = tt

    -- A statement.
    pub keep-sql :
        (stmt : Exec Db A)
        → ((d : Db) → holds d → P d → Grows d (stmt d).1)
        → Guards R P (one (sql stmt)) (λ _. P)
    keep-sql stmt h =
        Guards-sql R P (λ _. P) stmt kept
          λ d i p.
            let g = h d i p in
            (g.0, g.1, Known-stays (stmt d).0 (stmt d).1 (kept d (stmt d).1 g.1 p))

    -- A query.
    pub keep-gets : (f : Db → A) → Guards R P (one (sql (gets f))) (λ _. P)
    keep-gets f = Guards-gets R kept f (λ _. P) (λ d i p. p)

    -- A call that leaves the database alone.
    pub keep-same : (m : Io A) → ((w : World) → (m w).1.db ≡ w.db) → Guards R P (one m) (λ _. P)
    keep-same = Guards-same R kept

  -- A result that says something where the call returned.
  pub Known-of :
      {A : Type 0} (Q : A → Db → Type 0) (r : Result A) (d : Db)
      → ((a : A) → r ≡ ok a → Q a d)
      → Known R Q r d
  Known-of Q (ok a) d h = h a refl
  Known-of Q (err e) d h = tt
