-- ===== src/App/Sender.antt =====
-- internal/adapters/telegram/sender.go, the sender of the use cases. `has_bot` is `s.bot != nil`.
use streaming_bot.Prelude.{Text, text, ◌≡◌, refl, [], ◌∷◌, ◌++◌, Bool, true, false}
use streaming_bot.Prelude.Int.{ℤ}
use streaming_bot.Exec.{pure}
use streaming_bot.World.{World, Io, text_message, send}
use streaming_bot.World.Calls.{send-db}

unfoldable pub send_access_link : Bool → ℤ → Text → Io Unit
send_access_link false user_id link = pure tt
send_access_link true user_id link = send (
    text_message (record {
      chat_id = user_id;
      body = text "Your access link is ready:\n" ++ link;
      buttons = [];
    }))

-- `review:<purchase>:<rating>`
abbrev pub rating_button : Text → Text → Text × Text
rating_button purchase_id rating = (rating, text "review:" ++ (purchase_id ++ (text ":" ++ rating)))

unfoldable pub send_review_request : Bool → ℤ → Text → Io Unit
send_review_request false user_id purchase_id = pure tt
send_review_request true user_id purchase_id = send (
    text_message (record {
      chat_id = user_id;
      body = text "Please rate your purchase";
      buttons =
          rating_button purchase_id (text "1")
          ∷ rating_button purchase_id (text "2")
          ∷ rating_button purchase_id (text "3")
          ∷ rating_button purchase_id (text "4")
          ∷ rating_button purchase_id (text "5")
          ∷ [];
    }))

-- Sending leaves the database alone.
pub send_access_link-db :
    (has_bot : Bool) (user : ℤ) (link : Text) (w : World)
    → (send_access_link has_bot user link w).1.db ≡ w.db
unfolding send_access_link pure
send_access_link-db false user link w = refl
send_access_link-db true user link w = send-db _ w

pub send_review_request-db :
    (has_bot : Bool) (user : ℤ) (id : Text) (w : World)
    → (send_review_request has_bot user id w).1.db ≡ w.db
unfolding send_review_request pure
send_review_request-db false user id w = refl
send_review_request-db true user id w = send-db _ w
