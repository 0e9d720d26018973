-- ===== src/Threads/Settled/Allowed.antt =====
-- What the threads agree on about a purchase allows all that the program does.
use streaming_bot.Prelude.{Text}
use streaming_bot.Threads.Quiet.Allows.{Allows}
use streaming_bot.Threads.Settled.{paid_rely}
use streaming_bot.Threads.Settled.Statements.{
  insert_purchase-Keeps, mark_used-Keeps, insert_review-Keeps, upsert_row-Keeps, delete_row-Keeps,
  seed_row-Keeps, advance-Keeps,
}
use streaming_bot.Threads.Settled.Confirming.{confirming-guards}
use streaming_bot.Threads.Settled.Working.{working-guards}

pub paid-Allows : (k : Text) → Allows (paid_rely k)
paid-Allows k = record {
  insert_purchase = λ r d i. insert_purchase-Keeps k d i r;
  mark_used = λ id d i. mark_used-Keeps k d i id;
  insert_review = λ r d i. insert_review-Keeps k d i r;
  upsert_content = λ c d i. upsert_row-Keeps k d i c;
  delete_content = λ id d i. delete_row-Keeps k d i id;
  seed_content = λ c d i. seed_row-Keeps k d i c;
  advance = λ now d i. advance-Keeps k d i now;
  confirm = λ e. record { guards = confirming-guards k e };
  work = λ h. record { guards = working-guards k h };
}
