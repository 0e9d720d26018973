-- ===== src/Telegram/Bot/Buttons.antt =====
-- What the bot reads from a button is what was put on it: the rating buttons of the request for a
-- review (telegram/sender.go), and the buttons of the catalogue.
use streaming_bot.Prelude.{
  ℕ, ◌+◌, ◌-◌, ◌*◌, ◌^◌, ◌<◌, Text, text, [], ◌∷◌, ◌++◌, some, false, any, find, text_eq, ◌≡◌, refl,
  arith, ap, ◌∙◌,
}
use streaming_bot.Prelude.Int.{ℤ, pos}
use streaming_bot.Prelude.Decimal.{decimal, digits_from, digits_from-decimal}
use streaming_bot.Exec.{Result, ok, err, ◌>>=◌, ignore, attempt, gets}
use streaming_bot.World.{World, send}
use streaming_bot.World.Calls.{after-db, send-db, attempt-db, gets-db}
use streaming_bot.Domain.Content.{Content}
use streaming_bot.Storage.Contents
use streaming_bot.App.Sender.{rating_button}
use streaming_bot.App.SubmitReview
use streaming_bot.App.StartPurchase
use streaming_bot.App.StartPurchase.{Invoice}
use streaming_bot.Platform.Atoi.{atoi-decimal}
use streaming_bot.Platform.Strings.{split, strip_prefix}
use streaming_bot.Platform.Strings.Laws.{has_char, split-append, split-whole, strip_prefix-append}
use streaming_bot.Telegram.Api.{CallbackQuery}
use streaming_bot.Telegram.Api.Laws.{reply-db, ack-db}
use streaming_bot.Telegram.Api.{ack}
use streaming_bot.Telegram.Checkout.{after_invoice, send_invoice, after_start, start_purchase}
use streaming_bot.Telegram.Catalogue.{buy_button}
use streaming_bot.Telegram.Bot.{handle_callback, press_buy, press_review, rate_parts, rate}

digits-no_colon :
    (acc : ℕ) (s : Text) (n : ℕ) → digits_from acc s ≡ some n → has_char b':' s ≡ false
unfolding digits_from any
digits-no_colon acc [] n h = refl
digits-no_colon acc (c ∷ s) n h = ground (arith, digits-no_colon (acc * 10 + (c - b'0')) s n)

split-rating :
    (id : Text) (n : ℕ)
    → has_char b':' id ≡ false
    → split b':' (text "review:" ++ (id ++ (text ":" ++ decimal n)))
      ≡ text "review" ∷ id ∷ decimal n ∷ []
unfolding any
split-rating id n h =
    split-append b':' (text "review") (id ++ (text ":" ++ decimal n)) refl
    ∙ (ap (λ ps. text "review" ∷ ps) (split-append b':' id (decimal n) h)
        ∙ ap (λ ps. text "review" ∷ id ∷ ps)
            (split-whole b':' (decimal n)
              (digits-no_colon 0 (decimal n) n (digits_from-decimal n))))

abbrev pub rated : ℤ → Text → ℕ → SubmitReview.Command
rated user purchase_id n = record {
  user_id = user;
  purchase_id = purchase_id;
  rating = pos n;
  comment = text "rating from inline keyboard";
}

rate-db :
    (chat user : ℤ) (id : Text) (n : ℕ) (w : World)
    → (rate chat user id (some (pos n)) w).1.db ≡ (SubmitReview.handle (rated user id n) w).1.db
unfolding rate ignore ◌>>=◌
rate-db chat user id n w = reply-db chat _ (SubmitReview.handle (rated user id n) w).1

rating_pressed :
    (query_id : Text) (chat user : ℤ) (purchase_id : Text) (n : ℕ) (w : World)
    → has_char b':' purchase_id ≡ false
    → n < 2 ^ 63
    → (handle_callback
        (record {
          id = query_id;
          chat_id = chat;
          sender = user;
          button = (rating_button purchase_id (decimal n)).1;
        })
        w).1.db
      ≡ (SubmitReview.handle (rated user purchase_id n) w).1.db
unfolding handle_callback press_buy press_review rate_parts strip_prefix
rating_pressed query_id chat user purchase_id n w plain small =
    rw (split-rating purchase_id n plain, atoi-decimal n small)
      (after-db (rate chat user purchase_id (some (pos n))) (λ _. ack query_id _) w
          (λ _ v. ack-db query_id _ v)
        ∙ rate-db chat user purchase_id n w)

abbrev pub ordered : ℤ → Text → StartPurchase.Command
ordered user id = record { user_id = user; content_id = id }

get_by_id-db : (id : Text) (w : World) → (Contents.get_by_id id w).1.db ≡ w.db
unfolding Contents.get_by_id gets
get_by_id-db id w = gets-db (λ d. find (λ c. text_eq c.id id) d.content) w

after_invoice-db :
    (chat : ℤ) (id : Text) (r : Result (Unit {0})) (w : World)
    → (after_invoice chat id r w).1.db ≡ w.db
after_invoice-db chat id (ok _) w = reply-db chat _ w
after_invoice-db chat id (err _) w = reply-db chat _ w

send_invoice-db :
    (chat : ℤ) (id : Text) (res : Invoice) (w : World) → (send_invoice chat id res w).1.db ≡ w.db
unfolding send_invoice
send_invoice-db chat id res w =
    after-db (attempt (Contents.get_by_id id)) _ w (λ item v.
      after-db (attempt (send _)) _ v (λ r u. after_invoice-db chat res.purchase_id r u)
      ∙ attempt-db (send _) (send-db _) v)
    ∙ attempt-db (Contents.get_by_id id) (get_by_id-db id) w

after_start-db :
    (chat : ℤ) (id : Text) (r : Result Invoice) (w : World) → (after_start chat id r w).1.db ≡ w.db
after_start-db chat id (ok res) w = send_invoice-db chat id res w
after_start-db chat id (err _) w = reply-db chat _ w

start_purchase-db :
    (chat user : ℤ) (id : Text) (w : World)
    → (start_purchase chat user id w).1.db ≡ (StartPurchase.handle (ordered user id) w).1.db
unfolding start_purchase attempt
start_purchase-db chat user id w =
    after-db (attempt (StartPurchase.handle (ordered user id))) _ w
      (λ r v. after_start-db chat id r v)
    ∙ attempt-same w
  where
    attempt-same :
        (w : World)
        → (attempt (StartPurchase.handle (ordered user id)) w).1.db
          ≡ (StartPurchase.handle (ordered user id) w).1.db
    attempt-same w = refl

buy_pressed :
    (query_id : Text) (chat user : ℤ) (c : Content) (w : World)
    → (handle_callback
        (record { id = query_id; chat_id = chat; sender = user; button = (buy_button c).1 })
        w).1.db
      ≡ (StartPurchase.handle (ordered user c.id) w).1.db
unfolding handle_callback press_buy
buy_pressed query_id chat user c w = rw (strip_prefix-append (text "buy:") c.id) (
    after-db (start_purchase chat user c.id) (λ _. ack query_id _) w (λ _ v. ack-db query_id _ v)
    ∙ start_purchase-db chat user c.id w)

abbrev pub press : Text → ℤ → ℤ → Text × Text → CallbackQuery
press query_id chat user shown = record {
  id = query_id;
  chat_id = chat;
  sender = user;
  button = shown.1;
}

-- A press of a button does what the button stands for, in the name of the user who pressed. A rating
-- button of a purchase whose id has no colon, with a rating below 2^63, leaves the database as the
-- use case does for a review of that purchase with that rating; a button of the catalogue leaves it
-- as the use case does that starts a purchase of that item, however the sending of the invoice ends.
pub buttons_pressed :
    (query_id : Text) (chat user : ℤ) (purchase_id : Text) (n : ℕ) (c : Content) (w : World)
    → has_char b':' purchase_id ≡ false
    → n < 2 ^ 63
    → ((handle_callback (press query_id chat user (rating_button purchase_id (decimal n))) w).1.db
        ≡ (SubmitReview.handle (rated user purchase_id n) w).1.db)
      × ((handle_callback (press query_id chat user (buy_button c)) w).1.db
          ≡ (StartPurchase.handle (ordered user c.id) w).1.db)
buttons_pressed query_id chat user purchase_id n c w plain small = (
  rating_pressed query_id chat user purchase_id n w plain small,
  buy_pressed query_id chat user c w,
)
