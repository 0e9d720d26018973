-- ===== src/Domain/Purchase/Lifecycle.antt =====
-- The status machine of a purchase: its diagram, and what each method does on every branch.
use streaming_bot.Prelude.{ℕ, ◌+◌, Text, [], ◌≡◌, refl, ◌≢◌, ◌⊎◌, some, arith, Text-discrete}
use streaming_bot.Prelude.Int.{ℤ, pos, ◌≤ℤ◌}
use streaming_bot.Exec.{Result, Error, ok, err}
use streaming_bot.Domain.Purchase.{
  Status, pending, paid, access_issued, expired, error, unknown, Purchase, mark_paid,
  mark_access_issued, mark_expired, register_issue_access_failure, status_text, parse_status,
}

-- A status that is read from a column is written back as the same text.
pub status_text-parse_status : (t : Text) → status_text (parse_status t) ≡ t
unfolding status_text parse_status
status_text-parse_status t = ground arith

-- One of the five constants.
abbrev pub IsKnown : Status → Type 0
IsKnown (unknown _) = ⊥
IsKnown _ = Unit

-- A constant survives the round trip through the column.
pub parse_status-status_text : (s : Status) → IsKnown s → parse_status (status_text s) ≡ s
unfolding status_text parse_status Text-discrete
parse_status-status_text pending h = refl
parse_status-status_text paid h = refl
parse_status-status_text access_issued h = refl
parse_status-status_text expired h = refl
parse_status-status_text error h = refl
parse_status-status_text (unknown t) h = absurd h

-- The three methods that test the status first.
pub data Method : Type 0 where
  pay : Text → ℕ → Method
  issue : Method
  expire : Method

abbrev pub apply : Method → Purchase → Result (Unit {0}) × Purchase
apply (pay charge_id now) p = mark_paid charge_id now p
apply issue p = mark_access_issued p
apply expire p = mark_expired p

-- The diagram: the status that a method starts from, and the one that it ends in.
abbrev pub source : Method → Status
source (pay _ _) = pending
source issue = paid
source expire = access_issued

abbrev pub target : Method → Status
target (pay _ _) = paid
target issue = access_issued
target expire = expired

-- The method may be called: a payment needs a charge.
abbrev pub IsGiven : Method → Type 0
IsGiven (pay charge_id _) = charge_id ≢ []
IsGiven issue = Unit
IsGiven expire = Unit

abbrev pub recorded : Method → Purchase → Purchase
recorded (pay charge_id now) p = record p {
  status = paid;
  telegram_charge_id = charge_id;
  paid_at = some now;
}
recorded issue p = record p { status = access_issued }
recorded expire p = record p { status = expired }

-- Called in the status that its edge of the diagram starts from, and a payment with a charge id,
-- a method returns no error and moves the purchase along the edge; a payment also writes the
-- charge and the time, and nothing else of the purchase changes.
apply-ok :
    (m : Method) (p : Purchase)
    → p.status ≡ source m
    → IsGiven m
    → apply m p ≡ (ok tt, recorded m p)
unfolding mark_paid mark_access_issued mark_expired
apply-ok (pay charge_id now) p s g = ground arith
apply-ok issue p s g = ground arith
apply-ok expire p s g = ground arith

-- A method that returns an error leaves the purchase alone, and it was called in another status or
-- without a charge id.
apply-err :
    (m : Method) (p : Purchase) (e : Error)
    → (apply m p).0 ≡ err e
    → ((apply m p).1 ≡ p) × ¬ ((p.status ≡ source m) × IsGiven m)
unfolding mark_paid mark_access_issued mark_expired
apply-err (pay charge_id now) p e h = (ground arith, λ g. ground arith)
apply-err issue p e h = (ground arith, λ g. ground arith)
apply-err expire p e h = (ground arith, λ g. ground arith)

-- A failed issue counts one attempt and keeps its error and its time; it moves the purchase to
-- `error`, from whatever status, when the attempts have reached the limit, and leaves the status
-- otherwise. Nothing else of the purchase changes.
register_issue_access_failure_lem :
    (err_msg : Text) (now : ℕ) (limit : ℤ) (p : Purchase)
    → let q = register_issue_access_failure err_msg now limit p in
      ((limit ≤ℤ pos (p.issue_link_attempts + 1)) × (q.status ≡ error)
        ⊎ ¬ (limit ≤ℤ pos (p.issue_link_attempts + 1)) × (q.status ≡ p.status))
      × (q ≡ record p {
        status = q.status;
        issue_link_attempts = p.issue_link_attempts + 1;
        last_issue_link_error = err_msg;
        last_issue_link_at = some now;
      })
unfolding register_issue_access_failure
register_issue_access_failure_lem err_msg now limit p = (ground arith, ground arith)
