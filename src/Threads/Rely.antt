-- ===== src/Threads/Rely.antt =====
-- Assertions about a thread among others. The threads share an invariant of the tables and a
-- relation that says how the tables may go on; a thread that keeps both at each of its calls may
-- rely on them between its calls.
pub mod Guards
pub mod Calls
pub mod Keeping
use streaming_bot.Prelude.{◌≡◌, refl, Bool, true, false, Option, none, some, if◌then◌else◌}
use streaming_bot.Exec.{Error, Result, ok, err, Exec, pure, raise, present, raise_if, on}
use streaming_bot.Exec.Triple.{Ends, OnSome}
use streaming_bot.World.{World, Db, Io}
use streaming_bot.Threads.{
  Prog, ended, call, run, tried, dropped, chain, Thread, one, local, branch, attempted, ignored,
  and_then,
}
use streaming_bot.Threads.Locals.{returned, raised, presented, raised_if, applied}

pub record Rely : Type 1 where
  pub holds : Db → Type 0
  pub extends : Db → Db → Type 0
  pub same : (d : Db) → extends d d
  pub later : {c d e : Db} → extends c d → extends d e → extends c e

module _ (R : Rely) where
  open R use {holds, extends, same, later}

  -- From the tables `d` on, with any steps of the others between its calls.
  pub Safe : {A : Type 0} → (A → Db → Type 0) → Prog A → Db → Type 0
  Safe Q (ended (ok a)) d = Q a d
  Safe Q (ended (err e)) d = Unit
  Safe Q (call m k) d =
      (w : World)
      → extends d w.db
      → holds w.db
      → holds (m w).1.db × extends w.db (m w).1.db × Safe Q (k (m w).0) (m w).1.db

  pub Safe-call :
      {A B : Type 0} (Q : A → Db → Type 0) (m : Io B) (k : Result B → Prog A) (d : Db)
      → Safe Q (call m k) d
      → (w : World) → extends d w.db
      → holds w.db
      → holds (m w).1.db × extends w.db (m w).1.db × Safe Q (k (m w).0) (m w).1.db
  unfolding Safe
  Safe-call Q m k d s = s

  -- A thread that has made no call is as safe later.
  abbrev pub IsKept : (Db → Type 0) → Type 0
  IsKept P = (d e : Db) → extends d e → P d → P e

  pub Safe-later :
      {A : Type 0} (Q : A → Db → Type 0)
      → ((a : A) → IsKept (Q a))
      → (p : Prog A) (d e : Db) → extends d e
      → Safe Q p d
      → Safe Q p e
  unfolding Safe
  Safe-later Q kept (ended (ok a)) d e x s = kept a d e x s
  Safe-later Q kept (ended (err _)) d e x s = tt
  Safe-later Q kept (call m k) d e x s = λ w y h. s w (later x y) h

  module _ {A B : Type 0} (S : A → Db → Type 0) (Q : B → Db → Type 0) where
    pub Safe-chain :
        (p : Prog A) (f : A → Prog B)
        → ((a : A) (d : Db) → S a d → Safe Q (f a) d)
        → (d : Db) → Safe S p d
        → Safe Q (chain p f) d
    unfolding Safe chain
    Safe-chain (ended (ok a)) f h d s = h a d s
    Safe-chain (ended (err e)) f h d s = tt
    Safe-chain (call m k) f h d s =
        λ w x i. let (i', x', s') = s w x i in (i', x', Safe-chain (k (m w).0) f h (m w).1.db s')

  abbrev pub Known : {A : Type 0} → (A → Db → Type 0) → Result A → Db → Type 0
  Known Q = Ends Q (λ _. Unit)

  pub Safe-tried :
      {A : Type 0} (Q : A → Db → Type 0) (p : Prog A) (d : Db)
      → Safe Q p d
      → Safe (Known Q) (tried p) d
  unfolding Safe tried
  Safe-tried Q (ended (ok a)) d s = s
  Safe-tried Q (ended (err e)) d s = tt
  Safe-tried Q (call m k) d s =
      λ w x i. let (i', x', s') = s w x i in (i', x', Safe-tried Q (k (m w).0) (m w).1.db s')

  abbrev pub Free : {A : Type 0} → A → Db → Type 0
  Free a d = Unit

  pub Safe-dropped :
      {A : Type 0} (Q : A → Db → Type 0) (p : Prog A) (d : Db)
      → Safe Q p d
      → Safe Free (dropped p) d
  unfolding Safe dropped
  Safe-dropped Q (ended (ok a)) d s = tt
  Safe-dropped Q (ended (err e)) d s = tt
  Safe-dropped Q (call m k) d s =
      λ w x i. let (i', x', s') = s w x i in (i', x', Safe-dropped Q (k (m w).0) (m w).1.db s')

  -- Alone, to its end.
  pub Safe-run :
      {A : Type 0} (Q : A → Db → Type 0) (p : Prog A) (w : World)
      → Safe Q p w.db
      → holds w.db
      → holds (run p w).1.db × extends w.db (run p w).1.db
  unfolding Safe run
  Safe-run Q (ended (ok a)) w s i = (i, same w.db)
  Safe-run Q (ended (err e)) w s i = (i, same w.db)
  Safe-run Q (call m k) w s i =
      let (i', x, s') = s w (same w.db) i in
      let (j, y) = Safe-run Q (k (m w).0) (m w).1 s' i' in (j, later x y)
