-- ===== src/Threads/Locals.antt =====
-- The Go code of the handlers that makes no call, as parts of a thread.
use streaming_bot.Prelude.{Bool, Option, none, some, if◌then◌else◌}
use streaming_bot.Exec.{Error, Result, ok, err, Exec, pure, raise, present, raise_if, on, lift}
use streaming_bot.Threads.{Thread, local}

module _ {A : Type 0} where
  unfoldable pub returned : (a : A) → Thread (pure a)
  unfolding pure
  returned a = local (ok a)

  unfoldable pub raised : (e : Error) → Thread (raise {A = A} e)
  unfolding raise
  raised e = local (err e)

  unfoldable pub lifted : (r : Result A) → Thread (lift r)
  unfolding lift
  lifted r = local r

  unfoldable pub presented : (r : Result (Option A)) (e : Error) → Thread (present r e)
  unfolding present
  presented (ok (some a)) e = local (ok a)
  presented (ok none) e = local (err e)
  presented (err _) e = local (err e)

unfoldable pub raised_if : (b : Bool) (e : Error) → Thread (raise_if b e)
unfolding raise_if
raised_if b e = local (if b then err e else ok tt)

unfoldable pub applied : {T : Type 0} (t : T) (m : Exec T Unit) → Thread (on t m)
unfolding on
applied t m = local (elim (m t).0 [ ok _ ↦ ok (m t).1 | err e ↦ err e ])
