-- ===== src/Threads/Rely/Calls.antt =====
-- Rules for the calls of a thread: a statement, and a call that leaves the database alone.
use mathlib.Core.Path.{subst}
use streaming_bot.Prelude.{◌≡◌, sym}
use streaming_bot.Exec.{Result, ok, err, Exec, gets}
use streaming_bot.Exec.Triple.{Triple, Ends}
use streaming_bot.World.{World, Db, Io, sql}
use streaming_bot.World.Calls.{Triple-sql}
use streaming_bot.Threads.{one}
use streaming_bot.Threads.Rely.{Rely, IsKept, Known}
use streaming_bot.Threads.Rely.Guards.{Guards, Guards-one}

module _ (R : Rely) where
  open R use {holds, extends, same, later}

  module _ {A : Type 0} (P : Db → Type 0) (Q : A → Db → Type 0) where
    -- What a statement comes to, from tables in the invariant and in `P`.
    abbrev pub Writes : Exec Db A → Type 0
    Writes stmt =
        (d : Db)
        → holds d
        → P d
        → holds (stmt d).1 × extends d (stmt d).1 × Known R Q (stmt d).0 (stmt d).1

    split-Known :
        (d e : Db) (r : Result A)
        → Ends (λ a e. holds e × extends d e × Q a e) (λ e. holds e × extends d e) r e
        → holds e × extends d e × Known R Q r e
    split-Known d e (ok a) h = h
    split-Known d e (err _) h = (h.0, h.1, tt)

    join-Known :
        (c d e : Db) (r : Result A)
        → extends c d
        → holds e × extends d e × Known R Q r e
        → Ends (λ a e. holds e × extends c e × Q a e) (λ e. holds e × extends c e) r e
    join-Known c d e (ok a) x h = (h.0, later x h.1, h.2)
    join-Known c d e (err _) x h = (h.0, later x h.1)

    Ends-world :
        (c : Db) (w : World) (r : Result A)
        → Ends
            (λ a v. holds v.db × extends c v.db × Q a v.db)
            (λ v. holds v.db × extends c v.db)
            r
            w
        → Ends (λ a e. holds e × extends c e × Q a e) (λ e. holds e × extends c e) r w.db
    Ends-world c w (ok a) h = h
    Ends-world c w (err _) h = h

    pub Guards-sql : (stmt : Exec Db A) → IsKept R P → Writes stmt → Guards R P (one (sql stmt)) Q
    Guards-sql stmt kept h = Guards-one R kept λ w i p.
        let t : Triple (λ v. holds v.db × P v.db × extends w.db v.db) (sql stmt)
            (λ a v. holds v.db × extends w.db v.db × Q a v.db)
            (λ v. holds v.db × extends w.db v.db) =
          Triple-sql (λ d. holds d × P d × extends w.db d) (λ a e. holds e × extends w.db e × Q a e)
            (λ e. holds e × extends w.db e) (λ a d q. (q.0, q.1)) (λ d q. (q.0, q.2))
            (record { at = λ d q. join-Known w.db d (stmt d).1 (stmt d).0 q.2 (h d q.0 q.1) }) in
        split-Known w.db (sql stmt w).1.db (sql stmt w).0
          (Ends-world w.db (sql stmt w).1 (sql stmt w).0 (t.at w (i, p, same w.db)))

  module _ {A : Type 0} {P : Db → Type 0} (kept : IsKept R P) where
    Known-same : (r : Result A) (d : Db) → P d → Known R (λ _. P) r d
    Known-same (ok a) d p = p
    Known-same (err e) d p = tt

    pub Guards-same : (m : Io A) → ((w : World) → (m w).1.db ≡ w.db) → Guards R P (one m) (λ _. P)
    Guards-same m alike = Guards-one R kept λ w i p.
        let e = sym (alike w) in
        (
          subst holds e i,
          subst (extends w.db) e (same w.db),
          subst (Known R (λ _. P) (m w).0) e (Known-same (m w).0 w.db p),
        )

    -- A query.
    pub Guards-gets :
        (f : Db → A) (Q : A → Db → Type 0)
        → ((d : Db) → holds d → P d → Q (f d) d)
        → Guards R P (one (sql (gets f))) Q
    unfolding gets
    Guards-gets f Q h = Guards-sql P Q (gets f) kept (λ d i p. (i, same d, h d i p))
