-- ===== src/Threads/Quiet.antt =====
-- Threads, or parts of them, of which nothing has to be known: rules for `search`.
pub mod Allows
pub mod UseCases
pub mod Front
use streaming_bot.Prelude.{Bool, Option}
use streaming_bot.Exec.{Error, Result, Exec, gets}
use streaming_bot.World.{World, Db, Io, sql}
use streaming_bot.Prelude.{◌≡◌}
use streaming_bot.Threads.{Thread, one, branch, attempted, ignored, and_then}
use streaming_bot.Threads.Locals.{returned, raised, lifted, presented, raised_if, applied}
use streaming_bot.Threads.Rely.Guards.{
  Guards, Guards-and_then, Guards-attempted, Guards-ignored, Guards-presented_any, Guards-raised,
  Guards-lifted, Guards-raised_if, Guards-branch, Guards-returned, Guards-applied, Guards-weaken,
  Guards-forget,
}
use streaming_bot.Threads.Rely.{Rely}
use streaming_bot.Threads.Rely.Keeping.{Any, Grows, keep-sql, keep-gets, keep-same}

pub record IsQuiet (R : Rely) {A : Type 0} {m : Io A} (t : Thread m) : Type 0 where
  pub guards : Guards R Any t (λ _. Any)

module _ {R : Rely} where
  module _ {A : Type 0} where
    pub returned-IsQuiet : (a : A) → IsQuiet R (returned a)
    returned-IsQuiet a = record { guards = Guards-returned R a (λ d p. tt) }

    pub raised-IsQuiet : (e : Error) → IsQuiet R (raised {A = A} e)
    raised-IsQuiet e = record { guards = Guards-raised R e }

    pub lifted-IsQuiet : (r : Result A) → IsQuiet R (lifted r)
    lifted-IsQuiet r = record { guards = Guards-lifted R r }

    pub presented-IsQuiet : (r : Result (Option A)) (e : Error) → IsQuiet R (presented r e)
    presented-IsQuiet r e = record { guards = Guards-presented_any R r e }

    pub applied-IsQuiet : (t : A) (m : Exec A Unit) → IsQuiet R (applied t m)
    applied-IsQuiet t m = record { guards = Guards-applied R t m (λ d p e. tt) }

    module _ {m : Io A} {t : Thread m} where
      pub attempted-IsQuiet : IsQuiet R t → IsQuiet R (attempted t)
      attempted-IsQuiet g = record { guards = Guards-forget R (Guards-attempted R g.guards) }

      pub ignored-IsQuiet : IsQuiet R t → IsQuiet R (ignored t)
      ignored-IsQuiet g = record { guards = Guards-ignored R g.guards }

    pub branch-IsQuiet :
        (b : Bool) {m n : Io A} {t : Thread m} {u : Thread n}
        → IsQuiet R t
        → IsQuiet R u
        → IsQuiet R (branch b t u)
    branch-IsQuiet b g h = record { guards = Guards-branch R b g.guards h.guards }

    pub sql-IsQuiet :
        (stmt : Exec Db A)
        → ((d : Db) → R.holds d → Grows R d (stmt d).1)
        → IsQuiet R (one (sql stmt))
    sql-IsQuiet stmt h = record { guards = keep-sql R Any (λ d e x p. tt) stmt (λ d i p. h d i) }

    pub gets-IsQuiet : (f : Db → A) → IsQuiet R (one (sql (gets f)))
    gets-IsQuiet f = record { guards = keep-gets R Any (λ d e x p. tt) f }

    pub same-IsQuiet : (m : Io A) → ((w : World) → (m w).1.db ≡ w.db) → IsQuiet R (one m)
    same-IsQuiet m alike = record { guards = keep-same R Any (λ d e x p. tt) m alike }

  pub raised_if-IsQuiet : (b : Bool) (e : Error) → IsQuiet R (raised_if b e)
  raised_if-IsQuiet b e = record { guards = Guards-raised_if R b e }

  pub and_then-IsQuiet :
      {A B : Type 0} {m : Io A} {f : A → Io B} {t : Thread m} {u : (a : A) → Thread (f a)}
      → IsQuiet R t
      → ((a : A) → IsQuiet R (u a))
      → IsQuiet R (and_then t u)
  and_then-IsQuiet g h = record { guards = Guards-and_then R g.guards (λ a. (h a).guards) }

pub ruleset quiet_rules = (
  returned-IsQuiet, raised-IsQuiet, lifted-IsQuiet, presented-IsQuiet, applied-IsQuiet,
  attempted-IsQuiet, ignored-IsQuiet, branch-IsQuiet, gets-IsQuiet, sql-IsQuiet, same-IsQuiet,
  raised_if-IsQuiet, and_then-IsQuiet,
)
