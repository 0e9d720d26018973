-- ===== src/App.antt =====
-- internal/app: the use cases. Each handler's repositories are those of the Postgres adapter, as
-- cmd/bot/main.go wires them, and its `Now` is nil there.
pub mod StartPurchase
pub mod ConfirmPayment
pub mod Sender
pub mod IssueAccess
pub mod UseAccess
pub mod RequestReview
pub mod SubmitReview
