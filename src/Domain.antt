-- ===== src/Domain.antt =====
-- internal/domain: the entities and their own rules. A time is a number of microseconds, the
-- precision of a `timestamptz` column.
pub mod Purchase
pub mod Access
pub mod Content
pub mod Payment
pub mod Review
pub mod User
use streaming_bot.Prelude.{ℕ}

abbrev pub Time : Type 0
Time = ℕ
