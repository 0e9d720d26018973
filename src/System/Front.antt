-- ===== src/System/Front.antt =====
-- The bot, the HTTP interface and the synchronisation of the catalogue keep what the use cases and
-- the calls that they make keep.
pub mod Bot
pub mod Updates
pub mod Server
pub mod Tables
use streaming_bot.Prelude.{ℕ, Text, List, Bool}
use streaming_bot.Prelude.Int.{ℤ}
use streaming_bot.Exec.Triple.{Keeps}
use streaming_bot.World.{World, Outgoing, send, time_now}
use streaming_bot.Domain.Content.{Content}
use streaming_bot.Domain.Payment.{Event}
use streaming_bot.Storage.Purchases
use streaming_bot.Storage.Contents
use streaming_bot.Storage.Tokens
use streaming_bot.App.StartPurchase
use streaming_bot.App.ConfirmPayment
use streaming_bot.App.UseAccess
use streaming_bot.App.SubmitReview
use streaming_bot.System.UseCases.{AllowsCalls, start-Keeps, confirm-Keeps, submit-Keeps, use-Keeps}

-- What the bot and the HTTP interface call, but for the writes of the catalogue.
pub record IsServed (P : World → Type 0) : Type 0 where
  pub start : (cmd : StartPurchase.Command) → Keeps P (StartPurchase.handle cmd)
  pub confirm : (e : Event) → Keeps P (ConfirmPayment.handle e)
  pub submit : (cmd : SubmitReview.Command) → Keeps P (SubmitReview.handle cmd)
  pub redeem :
      (sum256 : Text → List ℕ) (cache : Tokens.RedisClient) (token : Text)
      → Keeps P (UseAccess.handle sum256 cache token)
  pub get_content : (id : Text) → Keeps P (Contents.get_by_id id)
  pub list_active : (collate : Text → Text → Bool) → Keeps P (Contents.list_active collate)
  pub get_by_payload : (payload : Text) → Keeps P (Purchases.get_by_payload payload)
  pub sends : (m : Outgoing) → Keeps P (send m)
  pub now : Keeps P time_now

-- The writes of the catalogue.
pub record IsEdited (P : World → Type 0) : Type 0 where
  pub upsert : (c : Content) → Keeps P (Contents.upsert c)
  pub delete : (id : Text) → Keeps P (Contents.delete_by_id id)

pub AllowsCalls-IsServed : {P : World → Type 0} → AllowsCalls P → IsServed P
unfolding Contents.get_by_id Contents.list_active Purchases.get_by_payload Purchases.select_one
AllowsCalls-IsServed c = record {
  start = λ cmd. start-Keeps c cmd;
  confirm = λ e. confirm-Keeps c e;
  submit = λ cmd. submit-Keeps c cmd;
  redeem = λ sum256 cache token. use-Keeps c sum256 cache token;
  get_content = λ id. c.read _;
  list_active = λ collate. c.read _;
  get_by_payload = λ payload. c.read _;
  sends = λ m. c.sends m;
  now = c.now;
}
