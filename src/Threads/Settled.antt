-- ===== src/Threads/Settled.antt =====
-- What the threads agree on for the purchase `k`: it has a grant only if it has a confirmation, a
-- confirmation only if it has a row and is not pending; rows and confirmations stay, and once the
-- purchase is not pending it does not become so again.
pub mod Statements
pub mod Confirming
pub mod Issuing
pub mod Working
pub mod Allowed
use streaming_bot.Prelude.{ℕ, ◌<◌, Text, text_eq, true, false, any, ◌≡◌, arith}
use streaming_bot.World.{Db}
use streaming_bot.System.Sound.{has_row, is_pending, confirmations, has_grant}
use streaming_bot.Threads.Rely.{Rely}

-- The purchase has a row, and none that is pending.
pub record IsSettled (k : Text) (d : Db) : Type 0 where
  pub row : has_row k d.purchases ≡ true
  pub late : any (is_pending k) d.purchases ≡ false

pub record IsPaidFor (k : Text) (d : Db) : Type 0 where
  pub confirmed : 0 < confirmations k d → IsSettled k d
  pub granted : has_grant k d ≡ true → 0 < confirmations k d

pub record GoesOn (k : Text) (d e : Db) : Type 0 where
  pub row : has_row k d.purchases ≡ true → has_row k e.purchases ≡ true
  pub settled : IsSettled k d → IsSettled k e
  pub confirmed : 0 < confirmations k d → 0 < confirmations k e

module _ (k : Text) where
  pub GoesOn-same : (d : Db) → GoesOn k d d
  GoesOn-same d = record { row = λ h. h; settled = λ h. h; confirmed = λ h. h }

  pub GoesOn-later : {c d e : Db} → GoesOn k c d → GoesOn k d e → GoesOn k c e
  GoesOn-later x y = record {
    row = λ h. y.row (x.row h);
    settled = λ h. y.settled (x.settled h);
    confirmed = λ h. y.confirmed (x.confirmed h);
  }

  abbrev pub paid_rely : Rely
  paid_rely = record {
    holds = IsPaidFor k;
    extends = GoesOn k;
    same = GoesOn-same;
    later = GoesOn-later;
  }

-- What stays true as the tables go on.
abbrev pub Stays : Text → (Db → Type 0) → Type 0
Stays k P = (d e : Db) → GoesOn k d e → P d → P e
