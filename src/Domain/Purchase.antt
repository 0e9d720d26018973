-- ===== src/Domain/Purchase.antt =====
-- internal/domain/purchase: the purchase and its status machine.
pub mod Lifecycle
use native.Mathlib.Decide.{ℕ_discrete}
use streaming_bot.Prelude.{
  ℕ, ◌+◌, Text, text, text_eq, Text-discrete, Option, none, some, Bool, true, false, not, [],
  if◌then◌else◌, ◌≡◌,
}
use streaming_bot.Prelude.Int.{ℤ, pos, ltb_ℤ}
use streaming_bot.Exec.{
  Exec, raise_if, modify, gets, ◌>>=◌, ◌>>◌, invalid_transition, missing_charge_id,
}

-- `type Status string`: the five constants, and any other text that a column may hold.
pub data Status : Type 0 where
  pending paid access_issued expired error : Status
  unknown : Text → Status

unfoldable pub Status-discrete : Discrete Status
unfolding ℕ_discrete
Status-discrete = hlevel ℕ_discrete

abbrev pub status_eq : Status → Status → Bool
status_eq a b = elim (Status-discrete a b) [ yes _ ↦ true | no _ ↦ false ]

-- `string(p.Status)`
unfoldable pub status_text : Status → Text
status_text pending = text "pending"
status_text paid = text "paid"
status_text access_issued = text "access_issued"
status_text expired = text "expired"
status_text error = text "error"
status_text (unknown t) = t

-- `purchase.Status(status)`
unfoldable pub parse_status : Text → Status
parse_status t =
    if text_eq t (text "pending")
    then pending
    else if text_eq t (text "paid")
    then paid
    else if text_eq t (text "access_issued")
    then access_issued
    else if text_eq t (text "expired")
    then expired
    else if text_eq t (text "error")
    then error
    else unknown t

pub record Purchase : Type 0 where
  pub id : Text
  pub user_id : ℤ
  pub content_id : Text
  pub status : Status
  pub telegram_payload : Text
  pub telegram_charge_id : Text
  pub stars_amount : ℤ
  pub created_at : ℕ
  pub paid_at : Option ℕ
  pub issue_link_attempts : ℕ
  pub last_issue_link_error : Text
  pub last_issue_link_at : Option ℕ
  pub review_requested_at : Option ℕ

unfoldable pub mark_paid : Text → ℕ → Exec Purchase Unit
unfolding ◌>>=◌ raise_if modify gets
mark_paid charge_id now = do
  p ← gets (λ p. p)
  raise_if (not (status_eq p.status pending)) invalid_transition
  raise_if (text_eq charge_id []) missing_charge_id
  modify (λ p. record p { status = paid; telegram_charge_id = charge_id; paid_at = some now })

unfoldable pub mark_access_issued : Exec Purchase Unit
unfolding ◌>>=◌ raise_if modify gets
mark_access_issued = do
  p ← gets (λ p. p)
  raise_if (not (status_eq p.status paid)) invalid_transition
  modify (λ p. record p { status = access_issued })

unfoldable pub mark_expired : Exec Purchase Unit
unfolding ◌>>=◌ raise_if modify gets
mark_expired = do
  p ← gets (λ p. p)
  raise_if (not (status_eq p.status access_issued)) invalid_transition
  modify (λ p. record p { status = expired })

-- `if p.IssueLinkAttempts >= maxAttempts { p.Status = StatusError }`
unfoldable pub give_up_after : ℤ → Purchase → Purchase
give_up_after max_attempts p =
    if ltb_ℤ (pos p.issue_link_attempts) max_attempts then p else record p { status = error }

-- The count starts at 0 and only grows by one, so it stays a natural number.
unfoldable pub register_issue_access_failure : Text → ℕ → ℤ → Purchase → Purchase
unfolding give_up_after
register_issue_access_failure err_msg now max_attempts p = give_up_after max_attempts (record p {
  issue_link_attempts = p.issue_link_attempts + 1;
  last_issue_link_error = err_msg;
  last_issue_link_at = some now;
})
