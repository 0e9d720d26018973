-- ===== src/Threads/Rely/Guards.antt =====
-- Rules for threads among others: from tables in `P`, a thread is safe, and what it returns is in
-- `Q` of the tables at that moment.
use streaming_bot.Prelude.{◌≡◌, refl, Bool, true, false, Option, none, some}
use streaming_bot.Exec.{Error, Result, ok, err, Exec}
use streaming_bot.Exec.Triple.{OnSome}
use streaming_bot.World.{World, Db, Io}
use streaming_bot.Threads.{
  Prog, ended, call, Thread, one, local, branch, attempted, ignored, and_then,
}
use streaming_bot.Threads.Locals.{returned, raised, lifted, presented, raised_if, applied}
use streaming_bot.Threads.Rely.{
  Rely, Safe, IsKept, Known, Free, Safe-chain, Safe-tried, Safe-dropped,
}

module _ (R : Rely) where
  open R use {holds, extends, same, later}

  pub record Guards {A : Type 0} {m : Io A} (P : Db → Type 0) (t : Thread m) (Q : A → Db → Type 0)
      : Type 0 where
    pub at : (d : Db) → P d → Safe R Q t.prog d

  Safe-answer :
      {A : Type 0} (Q : A → Db → Type 0) (r : Result A) (d : Db)
      → Known R Q r d
      → Safe R Q (ended r) d
  unfolding Safe
  Safe-answer Q (ok a) d h = h
  Safe-answer Q (err e) d h = tt

  module _ {A : Type 0} {P : Db → Type 0} {Q : A → Db → Type 0} where
    -- One call.
    pub Guards-one :
        {m : Io A}
        → IsKept R P
        → ((w : World)
            → holds w.db
            → P w.db
            → holds (m w).1.db × extends w.db (m w).1.db × Known R Q (m w).0 (m w).1.db)
        → Guards P (one m) Q
    unfolding Safe one
    Guards-one {m} kept h = record {
      at = λ d p w x i.
          let (i', x', q) = h w i (kept d w.db x p) in (i', x', Safe-answer Q (m w).0 (m w).1.db q);
    }

    pub Guards-weaken :
        {P' : Db → Type 0} {m : Io A} {t : Thread m}
        → ((d : Db) → P' d → P d)
        → Guards P t Q
        → Guards P' t Q
    Guards-weaken weaken g = record { at = λ d p. g.at d (weaken d p) }

    pub Guards-branch :
        (b : Bool) {m n : Io A} {t : Thread m} {u : Thread n}
        → Guards P t Q
        → Guards P u Q
        → Guards P (branch b t u) Q
    unfolding branch
    Guards-branch true g h = g
    Guards-branch false g h = h

    pub Guards-given :
        {X : Type 0} {m : Io A} {t : Thread m} → (X → Guards P t Q) → Guards (λ d. P d × X) t Q
    Guards-given h = record { at = λ d p. (h p.1).at d p.0 }

    pub Guards-returned : (a : A) → ((d : Db) → P d → Q a d) → Guards P (returned a) Q
    unfolding Safe returned local
    Guards-returned a h = record { at = h }

    pub Guards-raised : (e : Error) → Guards P (raised e) Q
    unfolding Safe raised local
    Guards-raised e = record { at = λ d p. tt }

    pub Guards-applied :
        (t : A) (m : Exec A Unit)
        → ((d : Db) → P d → (m t).0 ≡ ok tt → Q (m t).1 d)
        → Guards P (applied t m) Q
    unfolding Safe applied local
    Guards-applied t m h = record { at = λ d p. go d (m t).0 (h d p) }
      where
        go :
            (d : Db) (r : Result (Unit {0}))
            → (r ≡ ok tt → Q (m t).1 d)
            → Safe R Q (ended (elim r [ ok _ ↦ ok (m t).1 | err e ↦ err e ])) d
        go d (ok tt) h = h refl
        go d (err e) h = tt

  module _ {A : Type 0} (P : Db → Type 0) {F : A → Db → Type 0} where
    pub Guards-presented :
        (r : Result (Option A)) (e : Error) → Guards (Known R (OnSome F P) r) (presented r e) F
    unfolding Safe presented local
    Guards-presented (ok (some a)) e = record { at = λ d p. p }
    Guards-presented (ok none) e = record { at = λ d p. tt }
    Guards-presented (err _) e = record { at = λ d p. tt }

  pub Guards-presented_any :
      {A : Type 0} {P : Db → Type 0} (r : Result (Option A)) (e : Error)
      → Guards P (presented r e) (Free R)
  unfolding Safe presented local
  Guards-presented_any (ok (some a)) e = record { at = λ d p. tt }
  Guards-presented_any (ok none) e = record { at = λ d p. tt }
  Guards-presented_any (err _) e = record { at = λ d p. tt }

  pub Guards-lifted : {A : Type 0} {P : Db → Type 0} (r : Result A) → Guards P (lifted r) (Free R)
  unfolding Safe lifted local
  Guards-lifted (ok a) = record { at = λ d p. tt }
  Guards-lifted (err e) = record { at = λ d p. tt }

  pub Guards-raised_if :
      {P : Db → Type 0} (b : Bool) (e : Error) → Guards P (raised_if b e) (λ _. P)
  unfolding Safe raised_if local
  Guards-raised_if true e = record { at = λ d p. tt }
  Guards-raised_if false e = record { at = λ d p. p }

  module _ {A : Type 0} {P : Db → Type 0} {Q : A → Db → Type 0} {m : Io A} {t : Thread m} where
    pub Guards-attempted : Guards P t Q → Guards P (attempted t) (Known R Q)
    unfolding attempted
    Guards-attempted g = record { at = λ d p. Safe-tried R Q t.prog d (g.at d p) }

    pub Guards-ignored : Guards P t Q → Guards P (ignored t) (Free R)
    unfolding ignored
    Guards-ignored g = record { at = λ d p. Safe-dropped R Q t.prog d (g.at d p) }

  pub Guards-and_then :
      {A B : Type 0} {P : Db → Type 0} {S : A → Db → Type 0} {Q : B → Db → Type 0} {m : Io A}
      {f : A → Io B} {t : Thread m} {u : (a : A) → Thread (f a)}
      → Guards P t S
      → ((a : A) → Guards (S a) (u a) Q)
      → Guards P (and_then t u) Q
  unfolding and_then
  Guards-and_then {S} {Q} {t} {u} g h = record {
    at = λ d p. Safe-chain R S Q t.prog (λ a. (u a).prog) (λ a e s. (h a).at e s) d (g.at d p);
  }

  Safe-forget :
      {A : Type 0} (Q : A → Db → Type 0) (p : Prog A) (d : Db) → Safe R Q p d → Safe R (Free R) p d
  unfolding Safe
  Safe-forget Q (ended (ok a)) d s = tt
  Safe-forget Q (ended (err e)) d s = tt
  Safe-forget Q (call m k) d s =
      λ w x i. let (i', x', s') = s w x i in (i', x', Safe-forget Q (k (m w).0) (m w).1.db s')

  -- What is returned is not looked at.
  pub Guards-forget :
      {A : Type 0} {P : Db → Type 0} {Q : A → Db → Type 0} {m : Io A} {t : Thread m}
      → Guards P t Q
      → Guards P t (Free R)
  Guards-forget {Q} {t} g = record { at = λ d p. Safe-forget Q t.prog d (g.at d p) }

  -- What the others keep stays known beside a thread.
  module _ {A : Type 0} (F : Db → Type 0) (kept : IsKept R F) where
    Safe-frame :
        (Q : A → Db → Type 0) (p : Prog A) (d : Db)
        → F d
        → Safe R Q p d
        → Safe R (λ a e. Q a e × F e) p d
    unfolding Safe
    Safe-frame Q (ended (ok a)) d f s = (s, f)
    Safe-frame Q (ended (err e)) d f s = tt
    Safe-frame Q (call m k) d f s = λ w x i.
        let (i', x', s') = s w x i in
        (i', x', Safe-frame Q (k (m w).0) (m w).1.db (kept d (m w).1.db (later x x') f) s')

    pub Guards-frame :
        {P : Db → Type 0} {Q : A → Db → Type 0} {m : Io A} {t : Thread m}
        → Guards P t Q
        → Guards (λ d. P d × F d) t (λ a d. Q a d × F d)
    Guards-frame {Q} {t} g = record { at = λ d p. Safe-frame Q t.prog d p.1 (g.at d p.0) }
