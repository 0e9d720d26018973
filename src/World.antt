-- ===== src/World.antt =====
-- The world that the handlers act on: the database of schema.go, the token cache, what has been
-- sent to Telegram, the clock, the source of random bytes, and how the next calls of a service end,
-- and who is an admin of the bot.
pub mod Calls
pub mod Apart
pub mod Admins
use streaming_bot.Prelude.{
  ℕ, zero, suc, Text, List, [], ◌∷◌, ◌++◌, Option, Bool, take, length, ltb, if◌then◌else◌,
}
use streaming_bot.Prelude.Int.{ℤ}
use streaming_bot.Exec.{Result, ok, err, Exec, driver, no_entropy}
use streaming_bot.Domain.Access.{Grant}
use streaming_bot.Domain.Content.{Content}
use streaming_bot.Domain.Payment.{Event}
use streaming_bot.Domain.Review.{Review}
use streaming_bot.Domain.User.{User}

-- A row of `purchases`: a nullable column is an `Option`.
pub record PurchaseRow : Type 0 where
  pub id : Text
  pub user_id : ℤ
  pub content_id : Text
  pub status : Text
  pub telegram_payload : Text
  pub telegram_charge_id : Option Text
  pub stars_amount : ℤ
  pub created_at : ℕ
  pub paid_at : Option ℕ
  pub issue_link_attempts : ℕ
  pub last_issue_link_error : Option Text
  pub last_issue_link_at : Option ℕ
  pub review_requested_at : Option ℕ

-- A row of `outbox_events`.
pub record OutboxEvent : Type 0 where
  pub id : Text
  pub event_type : Text
  pub purchase_id : Text
  pub created_at : ℕ
  pub published : Bool

-- The tables, in insertion order, and `NOW()` of the server.
pub record Db : Type 0 where
  pub users : List User
  pub content : List Content
  pub purchases : List PurchaseRow
  pub access_grants : List Grant
  pub reviews : List Review
  pub payment_events : List Event
  pub idempotency_keys : List Text
  pub outbox_events : List OutboxEvent
  pub now : ℕ

-- A message to a chat, with the callback data of its buttons.
pub record Message : Type 0 where
  pub chat_id : ℤ
  pub body : Text
  pub buttons : List (Text × Text)

-- An invoice in Telegram Stars.
pub record InvoiceMessage : Type 0 where
  pub chat_id : ℤ
  pub title : Text
  pub description : Text
  pub payload : Text
  pub start_parameter : Text
  pub currency : Text
  pub label : Text
  pub amount : ℤ

-- What goes out to the Telegram API.
pub data Outgoing : Type 0 where
  text_message : Message → Outgoing
  invoice : InvoiceMessage → Outgoing
  -- the id of the query and the text
  callback_answer : Text → Text → Outgoing
  -- the commands of the menu and what they are for
  menu : List (Text × Text) → Outgoing
  -- the id of the query, whether the payment may go on, and the error message
  pre_checkout_answer : Text → Bool → Text → Outgoing

-- How a call of a service ends: it is done; it fails and nothing happened; or it takes effect and
-- the answer is lost.
pub data Outcome : Type 0 where
  done : Outcome
  refused : Text → Outcome
  unheard : Text → Outcome

-- What the token cache holds: keys and values.
abbrev pub Cache : Type 0
Cache = List (Text × Text)

-- When `net` is used up, every further call is done.
pub record World : Type 0 where
  pub db : Db
  pub cache : Cache
  pub sent : List Outgoing
  pub clock : ℕ
  pub entropy : List ℕ
  pub net : List Outcome
  -- the users whose entry in the bot's map of admins is true
  pub admins : List ℤ

abbrev pub Io : Type 0 → Type 0
Io A = Exec World A

module _ {A : Type 0} where
  respond : List Outcome → Io A → Io A
  respond [] m w = m w
  respond (done ∷ rest) m w = m (record w { net = rest })
  respond (refused e ∷ rest) m w = (err (driver e), record w { net = rest })
  respond (unheard e ∷ rest) m w = let (_, w') = m (record w { net = rest }) in (err (driver e), w')

  -- A call of a service, which ends as `net` says.
  unfoldable pub service : Io A → Io A
  unfolding respond
  service m w = respond w.net m w

  on_db : Exec Db A → Io A
  on_db m w = let (r, d) = m w.db in (r, record w { db = d })

  -- One SQL statement.
  unfoldable pub sql : Exec Db A → Io A
  unfolding service on_db
  sql m = service (on_db m)

  on_cache : Exec Cache A → Io A
  on_cache m w = let (r, c) = m w.cache in (r, record w { cache = c })

  -- One command of the cache's server.
  unfoldable pub redis : Exec Cache A → Io A
  unfolding service on_cache
  redis m = service (on_cache m)

-- `time.Now()`
unfoldable pub time_now : Io ℕ
time_now w = (ok w.clock, w)

push_call : Outgoing → Io Unit
push_call m w = (ok tt, record w { sent = w.sent ++ m ∷ [] })

-- `api.Send` and `api.Request`
unfoldable pub send : Outgoing → Io Unit
unfolding service push_call
send m = service (push_call m)

abbrev pub drop_bytes : ℕ → List ℕ → List ℕ
drop_bytes zero bs = bs
drop_bytes (suc n) [] = []
drop_bytes (suc n) (b ∷ bs) = drop_bytes n bs

-- `rand.Read` of `n` bytes, which fails when the source has too few.
unfoldable pub rand_read : ℕ → Io (List ℕ)
rand_read n w =
    if ltb (length w.entropy) n
    then (err no_entropy, w)
    else (ok (take n w.entropy), record w { entropy = drop_bytes n w.entropy })
