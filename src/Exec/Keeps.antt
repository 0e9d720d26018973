-- ===== src/Exec/Keeps.antt =====
-- Assertions that a call keeps, however it ends: a rule for each way to build a call, for `search`.
use streaming_bot.Prelude.{Bool, true, false, Option, none, some, if◌then◌else◌}
use streaming_bot.Exec.{Exec, Error, Result, ok, err, pure, raise, present, raise_if, on, ◌>>=◌}
use streaming_bot.Exec.Triple.{Triple, Keeps, Keeps-of, Keeps-attempt, Keeps-ignore, Triple-bind}

module _ {S A : Type 0} {P : S → Type 0} where
  pub Keeps-pure : (a : A) → Keeps P (pure a)
  unfolding pure
  Keeps-pure a = Keeps-of (λ s p. p)

  pub Keeps-raise : (e : Error) → Keeps P (raise {A = A} e)
  unfolding raise
  Keeps-raise e = Keeps-of (λ s p. p)

  pub Keeps-present : (r : Result (Option A)) (e : Error) → Keeps P (present r e)
  unfolding present
  Keeps-present (ok (some a)) e = Keeps-of (λ s p. p)
  Keeps-present (ok none) e = Keeps-of (λ s p. p)
  Keeps-present (err x) e = Keeps-of (λ s p. p)

  pub Keeps-if : (b : Bool) (m n : Exec S A) → Keeps P m → Keeps P n → Keeps P (if b then m else n)
  Keeps-if true m n hm hn = hm
  Keeps-if false m n hm hn = hn

module _ {S : Type 0} {P : S → Type 0} where
  pub Keeps-raise_if : (b : Bool) (e : Error) → Keeps P (raise_if b e)
  unfolding raise_if
  Keeps-raise_if b e = Keeps-of (λ s p. p)

  pub Keeps-on : {T : Type 0} (t : T) (m : Exec T Unit) → Keeps P (on t m)
  unfolding on
  Keeps-on t m = Keeps-of (λ s p. p)

pub Keeps-bind :
    {S A B : Type 0} {P : S → Type 0} (m : Exec S A) (f : A → Exec S B)
    → Keeps P m
    → ((a : A) → Keeps P (f a))
    → Keeps P (m >>= f)
Keeps-bind m f hm hf = Triple-bind hm hf

pub ruleset keeps_rules = (
  Keeps-pure, Keeps-raise, Keeps-present, Keeps-attempt, Keeps-ignore, Keeps-if, Keeps-raise_if,
  Keeps-on, Keeps-bind,
)
