-- ===== src/System/Sound.antt =====
-- What ties the tables together, for the purchase `k`: at most one confirmation in the outbox, only
-- for a purchase that has been paid, and a grant only where there is a confirmation. `m` is a
-- number of confirmations that were there before.
pub mod Statements
pub mod Handlers
pub mod Issue
pub mod Outbox
use streaming_bot.Prelude.{
  ℕ, ◌≤◌, ◌<◌, Text, text, text_eq, List, Bool, true, false, ◌&&◌, any, ◌≡◌,
}
use streaming_bot.Prelude.Tables.{count}
use streaming_bot.World.{World, Db, PurchaseRow}

abbrev pub has_row : Text → List PurchaseRow → Bool
has_row k rows = any (λ r. text_eq r.id k) rows

abbrev pub is_pending : Text → PurchaseRow → Bool
is_pending k r = text_eq r.id k && text_eq r.status (text "pending")

abbrev pub confirmations : Text → Db → ℕ
confirmations k d = count (λ e. text_eq e.purchase_id k) d.outbox_events

abbrev pub has_grant : Text → Db → Bool
has_grant k d = any (λ g. text_eq g.purchase_id k) d.access_grants

pub record IsSound (k : Text) (m : ℕ) (d : Db) : Type 0 where
  pub once : confirmations k d ≤ 1
  pub paid : 0 < confirmations k d → any (is_pending k) d.purchases ≡ false
  pub known : 0 < confirmations k d → has_row k d.purchases ≡ true
  pub granted : has_grant k d ≡ true → 0 < confirmations k d
  pub kept : m ≤ confirmations k d

abbrev pub Sound : Text → ℕ → World → Type 0
Sound k m w = IsSound k m w.db
