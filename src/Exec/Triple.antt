-- ===== src/Exec/Triple.antt =====
-- Hoare triples for calls: from a state in `P`, a call that returns `a` ends in `Q a`, and one that
-- fails ends in `E`.
use mathlib.Core.Path.{subst}
use streaming_bot.Prelude.{◌≡◌, refl, Bool, true, false, Option, none, some, if◌then◌else◌}
use streaming_bot.Exec.{
  Exec, Error, Result, ok, err, pure, raise, attempt, present, raise_if, ignore, continue, ◌>>=◌,
}

-- What holds of a result beside the state.
abbrev pub Ends : {S A : Type 0} → (A → S → Type 0) → (S → Type 0) → Result A → S → Type 0
Ends Q E (ok a) s = Q a s
Ends Q E (err _) s = E s

pub record Triple {S A : Type 0} (P : S → Type 0) (m : Exec S A) (Q : A → S → Type 0)
    (E : S → Type 0) : Type 0 where
  pub at : (s : S) → P s → Ends Q E (m s).0 (m s).1

module _ {S A : Type 0} {P : S → Type 0} {Q : A → S → Type 0} {E : S → Type 0} where
  pub Triple-pure : (a : A) → ((s : S) → P s → Q a s) → Triple P (pure a) Q E
  unfolding pure
  Triple-pure a h = record { at = h }

  pub Triple-raise : (e : Error) → ((s : S) → P s → E s) → Triple P (raise e) Q E
  unfolding raise
  Triple-raise e h = record { at = h }

  pub Triple-if :
      (b : Bool) (m n : Exec S A)
      → (b ≡ true → Triple P m Q E)
      → (b ≡ false → Triple P n Q E)
      → Triple P (if b then m else n) Q E
  Triple-if true m n hm hn = hm refl
  Triple-if false m n hm hn = hn refl

module _ {S A B : Type 0} (R : A → S → Type 0) (Q : B → S → Type 0) (E : S → Type 0) where
  Triple-continue :
      (r : Result A) (f : A → Exec S B)
      → ((a : A) → Triple (R a) (f a) Q E)
      → (s : S) → Ends R E r s
      → Ends Q E (continue r f s).0 (continue r f s).1
  unfolding continue
  Triple-continue (ok a) f h s p = (h a).at s p
  Triple-continue (err e) f h s p = p

module _ {S A B : Type 0} {P : S → Type 0} {R : A → S → Type 0} {Q : B → S → Type 0}
    {E : S → Type 0} where
  pub Triple-bind :
      {m : Exec S A} {f : A → Exec S B}
      → Triple P m R E
      → ((a : A) → Triple (R a) (f a) Q E)
      → Triple P (m >>= f) Q E
  unfolding ◌>>=◌
  Triple-bind {m} {f} hm hf = record {
    at = λ s p. let (r, s') = m s in Triple-continue R Q E r f hf s' (hm.at s p);
  }

-- An assertion that a call keeps, however it ends.
abbrev pub Keeps : {S A : Type 0} → (S → Type 0) → Exec S A → Type 0
Keeps P m = Triple P m (λ _. P) P

Ends-weaken : {S A : Type 0} (P : S → Type 0) (r : Result A) (s : S) → Ends (λ _. P) P r s → P s
Ends-weaken P (ok a) s h = h
Ends-weaken P (err e) s h = h

module _ {S A : Type 0} {P : S → Type 0} where
  pub Keeps-attempt : {m : Exec S A} → Keeps P m → Keeps P (attempt m)
  unfolding attempt
  Keeps-attempt {m} h = record { at = λ s p. let (r, s') = m s in Ends-weaken P r s' (h.at s p) }

  -- What each state comes to, with the result left open.
  pub Triple_of_state :
      {R : S → Type 0} {m : Exec S A} → ((s : S) → P s → R (m s).1) → Triple P m (λ _. R) R
  Triple_of_state {R} {m} h = record { at = λ s p. go (m s).0 (m s).1 (h s p) }
    where
      go : (r : Result A) (s : S) → R s → Ends (λ _. R) R r s
      go (ok a) s p = p
      go (err e) s p = p

  -- A call whose result is dropped.
  pub Triple-ignore :
      {R : S → Type 0} {m : Exec S A} → Triple P m (λ _. R) R → Triple P (ignore m) (λ _. R) R
  unfolding ignore
  Triple-ignore {R} {m} h = record {
    at = λ s p. let (r, s') = m s in Ends-weaken R r s' (h.at s p);
  }

  pub Keeps-ignore : {m : Exec S A} → Keeps P m → Keeps P (ignore m)
  Keeps-ignore h = Triple-ignore h

  pub Keeps-of : {m : Exec S A} → ((s : S) → P s → P (m s).1) → Keeps P m
  Keeps-of h = Triple_of_state h

  pub state_of_Triple :
      {R : S → Type 0} {m : Exec S A} → Triple P m (λ _. R) R → (s : S) → P s → R (m s).1
  state_of_Triple {R} {m} h s p = Ends-weaken R (m s).0 (m s).1 (h.at s p)

  pub state_of_Keeps : {m : Exec S A} → Keeps P m → (s : S) → P s → P (m s).1
  state_of_Keeps {m} h s p = Ends-weaken P (m s).0 (m s).1 (h.at s p)

module _ {S : Type 0} {P : S → Type 0} where
  -- Past the test, its condition is known to be false.
  pub Triple-raise_if :
      (b : Bool) (e : Error) → Triple P (raise_if b e) (λ _ s. P s × (b ≡ false)) P
  unfolding raise_if
  Triple-raise_if true e = record { at = λ s p. p }
  Triple-raise_if false e = record { at = λ s p. (p, refl) }

module _ {S A : Type 0} (Q Q' : A → S → Type 0) (E E' : S → Type 0) where
  Ends-mono :
      ((a : A) (s : S) → Q a s → Q' a s)
      → ((s : S) → E s → E' s)
      → (r : Result A) (s : S) → Ends Q E r s
      → Ends Q' E' r s
  Ends-mono q e (ok a) s h = q a s h
  Ends-mono q e (err x) s h = e s h

module _ {S A : Type 0} {P P' : S → Type 0} {Q Q' : A → S → Type 0} {E E' : S → Type 0} where
  -- The rule of consequence.
  pub Triple-weaken :
      {m : Exec S A}
      → ((s : S) → P' s → P s)
      → ((a : A) (s : S) → Q a s → Q' a s)
      → ((s : S) → E s → E' s)
      → Triple P m Q E
      → Triple P' m Q' E'
  Triple-weaken {m} p q e h = record {
    at = λ s x. Ends-mono Q Q' E E' q e (m s).0 (m s).1 (h.at s (p s x));
  }

-- A read result: what holds of a value that is there, and what holds where there is none.
abbrev pub OnSome : {S A : Type 0} → (A → S → Type 0) → (S → Type 0) → Option A → S → Type 0
OnSome F E (some a) s = F a s
OnSome F E none s = E s

module _ {S A B : Type 0} {Q : B → S → Type 0} {E : S → Type 0} where
  Triple-present :
      (F : A → S → Type 0) (e : Error) (f : A → Exec S B)
      → ((a : A) → Triple (F a) (f a) Q E)
      → (r : Result (Option A)) → Triple (λ s. Ends (OnSome F E) E r s) (present r e >>= f) Q E
  unfolding ◌>>=◌
  Triple-present F e f h (ok (some a)) = h a
  Triple-present F e f h (ok none) = record { at = λ s p. p }
  Triple-present F e f h (err x) = record { at = λ s p. p }

Triple-attempt :
    {S A : Type 0} {P : S → Type 0} {E : S → Type 0} (R : A → S → Type 0) {m : Exec S A}
    → Triple P m R E
    → Triple P (attempt m) (λ r s. Ends R E r s) E
unfolding attempt
Triple-attempt R h = record { at = h.at }

module _ {S A B : Type 0} {P : S → Type 0} {Q : B → S → Type 0} {E : S → Type 0} where
  -- `x, err := m(); if err != nil || x == nil { return e }; …`
  pub Triple-lookup :
      (F : A → S → Type 0) {m : Exec S (Option A)} (e : Error) {f : A → Exec S B}
      → Triple P m (OnSome F E) E
      → ((a : A) → Triple (F a) (f a) Q E)
      → Triple P (attempt m >>= λ found. present found e >>= f) Q E
  Triple-lookup F e {f} h k = Triple-bind (Triple-attempt (OnSome F E) h) (Triple-present F e f k)

-- A fact that no state bears on.
pub Triple-given :
    {S B X : Type 0} {P : S → Type 0} {Q : B → S → Type 0} {E : S → Type 0} {m : Exec S B}
    → (X → Triple P m Q E)
    → Triple (λ s. P s × X) m Q E
Triple-given h = record { at = λ s p. (h p.1).at s p.0 }

ok-injective : {A : Type 0} {a b : A} → ok a ≡ ok b → a ≡ b
ok-injective e = cc

-- A triple at a call that returned.
pub Triple-ok :
    {S A : Type 0} {P : S → Type 0} {Q : A → S → Type 0} {E : S → Type 0} {m : Exec S A}
    → Triple P m Q E
    → (s : S) (a : A) → P s
    → (m s).0 ≡ ok a
    → Q a (m s).1
Triple-ok {A} {Q} {E} {m} h s a p e = go (m s).0 (h.at s p) e
  where
    go : (r : Result A) → Ends Q E r (m s).1 → r ≡ ok a → Q a (m s).1
    go (ok b) x e = subst (λ c. Q c (m s).1) (ok-injective e) x
    go (err _) x e = cc

-- What holds after a call, however it ends.
abbrev pub Takes : {S A : Type 0} → (S → Type 0) → Exec S A → (S → Type 0) → Type 0
Takes P m Q = Triple P m (λ _. Q) Q

module _ {S A : Type 0} {P Q : S → Type 0} where
  pub Takes_of_Keeps : {m : Exec S A} → ((s : S) → P s → Q s) → Keeps Q m → Takes P m Q
  Takes_of_Keeps weaken h = Triple-weaken weaken (λ a s q. q) (λ s q. q) h
