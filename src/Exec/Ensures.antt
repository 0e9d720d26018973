-- ===== src/Exec/Ensures.antt =====
-- What holds of the result and the state when a call returns.
use streaming_bot.Prelude.{◌≡◌, arith}
use streaming_bot.Exec.{Exec, Result, ok, err, continue, ◌>>=◌}

pub record Ensures {S A : Type 0} (Q : A → S → Type 0) (m : Exec S A) : Type 0 where
  pub at : (s : S) (a : A) → (m s).0 ≡ ok a → Q a (m s).1

module _ {S A B : Type 0} {Q : B → S → Type 0} where
  Ensures-continue :
      (r : Result A) (f : A → Exec S B) → ((a : A) → Ensures Q (f a)) → Ensures Q (continue r f)
  unfolding continue
  Ensures-continue (ok a) f h = h a
  Ensures-continue (err e) f h = record { at = λ s a p. cc }

  -- What the rest of a block ensures, the block ensures.
  pub Ensures-bind :
      (m : Exec S A) (f : A → Exec S B) → ((a : A) → Ensures Q (f a)) → Ensures Q (m >>= f)
  unfolding ◌>>=◌
  Ensures-bind m f h = record { at = λ s. let (r, s') = m s in (Ensures-continue r f h).at s' }

-- A block that returned went through its first call.
pub bind-ok :
    {S A B : Type 0} (m : Exec S A) (f : A → Exec S B) (s : S) (b : B)
    → ((m >>= f) s).0 ≡ ok b
    → (a : A) × ((m s).0 ≡ ok a) × ((f a (m s).1).0 ≡ ok b) × (((m >>= f) s).1 ≡ (f a (m s).1).1)
unfolding ◌>>=◌ continue
bind-ok m f s b e = ground arith
