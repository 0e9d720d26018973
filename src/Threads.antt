-- ===== src/Threads.antt =====
-- Calls that interleave. A handler as a thread: the calls of the services, of the clock and of the
-- source of random bytes, each of them one step, and between two of them whatever other threads do.
pub mod Locals
pub mod UseCases
pub mod Issuing
pub mod Rely
pub mod Quiet
pub mod Settled
pub mod Closed
pub mod Front
pub mod Pool
use streaming_bot.Prelude.{◌≡◌, refl, ◌∙◌, ap, Bool, true, false, if◌then◌else◌}
use mathlib.Core.Path.{fun_ext}
use streaming_bot.Exec.{Result, ok, err, continue, attempt, ignore, ◌>>=◌}
use streaming_bot.World.{World, Io}

-- What a thread still has to do: it has ended, or it makes a call and goes on with the answer.
pub data Prog (A : Type 0) : Type 1 where
  ended : Result A → Prog A
  call : {B : Type 0} → Io B → (Result B → Prog A) → Prog A

module _ {A : Type 0} where
  -- The thread alone, to its end.
  unfoldable pub run : Prog A → Io A
  run (ended r) w = (r, w)
  run (call m k) w = let (r, w') = m w in run (k r) w'

  unfoldable pub tried : Prog A → Prog (Result A)
  tried (ended r) = ended (ok r)
  tried (call m k) = call m (λ r. tried (k r))

  unfoldable pub dropped : Prog A → Prog (Unit {0})
  dropped (ended r) = ended (ok tt)
  dropped (call m k) = call m (λ r. dropped (k r))

module _ {A B : Type 0} where
  unfoldable pub chain : Prog A → (A → Prog B) → Prog B
  chain (ended (ok a)) f = f a
  chain (ended (err e)) f = ended (err e)
  chain (call m k) f = call m (λ r. chain (k r) f)

  run-chain :
      (p : Prog A) (f : A → Prog B) (w : World) → run (chain p f) w ≡ (run p >>= λ a. run (f a)) w
  unfolding run chain ◌>>=◌ continue
  run-chain (ended (ok a)) f w = refl
  run-chain (ended (err e)) f w = refl
  run-chain (call m k) f w = run-chain (k (m w).0) f (m w).1

-- The thread of a handler: alone, it does what the handler does.
pub record Thread {A : Type 0} (m : Io A) : Type 1 where
  pub prog : Prog A
  pub alone : run prog ≡ m

module _ {A : Type 0} where
  -- One call.
  unfoldable pub one : (m : Io A) → Thread m
  unfolding run
  one m = record { prog = call m ended; alone = refl }

  -- Go code between two calls, which reads nothing of the world.
  unfoldable pub local : (r : Result A) → Thread (λ w. (r, w))
  unfolding run
  local r = record { prog = ended r; alone = refl }

  unfoldable pub branch :
      (b : Bool) {m n : Io A} → Thread m → Thread n → Thread (if b then m else n)
  branch true s t = s
  branch false s t = t

  run-tried : (p : Prog A) (w : World) → run (tried p) w ≡ attempt (run p) w
  unfolding run tried attempt
  run-tried (ended r) w = refl
  run-tried (call m k) w = run-tried (k (m w).0) (m w).1

  run-dropped : (p : Prog A) (w : World) → run (dropped p) w ≡ ignore (run p) w
  unfolding run dropped ignore
  run-dropped (ended r) w = refl
  run-dropped (call m k) w = run-dropped (k (m w).0) (m w).1

  module _ {m : Io A} (t : Thread m) where
    pub attempt-alone : run (tried t.prog) ≡ attempt m
    attempt-alone = fun_ext (run-tried t.prog) ∙ ap attempt t.alone

    pub ignore-alone : run (dropped t.prog) ≡ ignore m
    ignore-alone = fun_ext (run-dropped t.prog) ∙ ap ignore t.alone

    unfoldable pub attempted : Thread (attempt m)
    attempted = record { prog = tried t.prog; alone = attempt-alone }

    unfoldable pub ignored : Thread (ignore m)
    ignored = record { prog = dropped t.prog; alone = ignore-alone }

module _ {A B : Type 0} {m : Io A} {f : A → Io B} (t : Thread m) (u : (a : A) → Thread (f a)) where
  pub then-alone : run (chain t.prog (λ a. (u a).prog)) ≡ (m >>= f)
  then-alone =
      fun_ext (run-chain t.prog (λ a. (u a).prog))
      ∙ (ap (λ n. n >>= (λ a. run (u a).prog)) t.alone)
      ∙ (ap (λ g. m >>= g) (fun_ext (λ a. (u a).alone)))

  -- One after the other.
  unfoldable pub and_then : Thread (m >>= f)
  and_then = record { prog = chain t.prog (λ a. (u a).prog); alone = then-alone }
