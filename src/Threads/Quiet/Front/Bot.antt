-- ===== src/Threads/Quiet/Front/Bot.antt =====
-- The dispatch of the bot and the commands about the catalogue, beside other threads.
use streaming_bot.Prelude.{Text, List, [], ◌∷◌, Option, none, some, ◌≡◌, refl}
use streaming_bot.Prelude.Int.{ℤ}
use streaming_bot.Exec.{Result, ok, err, gets}
use streaming_bot.World.{World, Io}
use streaming_bot.World.Calls.{send-db}
use streaming_bot.Domain.Content.{Content}
use streaming_bot.Storage.Contents
use streaming_bot.Telegram.Api.{
  Bot, SuccessfulPayment, CallbackQuery, Update, pre_checkout, message, callback, other, is_admin,
  toggle_admin,
}
use streaming_bot.Threads.{Thread}
use streaming_bot.Threads.Front.Bot.{
  reporting, upserting, creating_priced, creating, setting_found, setting_priced, setting, deleting,
  showing, listing, entering_admin_mode, if_admin, after_forcing, forcing_command, buying,
  after_review, reviewing, reviewing_fields, commanded, dispatching, rating, rating_parts,
  pressing_review, pressing_buy, updating,
}
use streaming_bot.Threads.Rely.{Rely}
use streaming_bot.Threads.Quiet.Allows.{Allows}
use streaming_bot.Threads.Quiet.UseCases.{submitting-IsQuiet}
use streaming_bot.Threads.Quiet.{
  IsQuiet, quiet_rules, and_then-IsQuiet, same-IsQuiet, branch-IsQuiet,
}
use streaming_bot.Threads.Quiet.Front.Checkout.{
  replying-IsQuiet, acking-IsQuiet, starting_purchase-IsQuiet, receiving_payment-IsQuiet,
  forcing-IsQuiet, checking_out-IsQuiet,
}

is_admin-db : (user : ℤ) (w : World) → (is_admin user w).1.db ≡ w.db
unfolding is_admin gets
is_admin-db user w = refl

toggle_admin-db : (user : ℤ) (w : World) → (toggle_admin user w).1.db ≡ w.db
unfolding toggle_admin
toggle_admin-db user w = refl

module _ {R : Rely} (a : Allows R) where
  ruleset calls = (quiet_rules, send-db, replying-IsQuiet)

  reporting-IsQuiet :
      (chat : ℤ) (done failed : Text) (r : Result (Unit {0}))
      → IsQuiet R (reporting chat done failed r)
  unfolding reporting
  reporting-IsQuiet chat done failed (ok _) = replying-IsQuiet a chat _
  reporting-IsQuiet chat done failed (err _) = replying-IsQuiet a chat _

  upserting-IsQuiet :
      (chat : ℤ) (c : Content) (done failed : Text) → IsQuiet R (upserting chat c done failed)
  unfolding upserting Contents.upsert
  upserting-IsQuiet chat c done failed =
      search (calls, reporting-IsQuiet, a.upsert_content) depth 30

  creating_priced-IsQuiet :
      (chat : ℤ) (id video : Text) (price : Option ℤ) (meta : Text)
      → IsQuiet R (creating_priced chat id video price meta)
  unfolding creating_priced
  creating_priced-IsQuiet chat id video none meta = replying-IsQuiet a chat _
  creating_priced-IsQuiet chat id video (some n) meta = upserting-IsQuiet chat _ _ _

  creating-IsQuiet : (chat : ℤ) (parts : List Text) → IsQuiet R (creating chat parts)
  unfolding creating
  creating-IsQuiet chat [] = replying-IsQuiet a chat _
  creating-IsQuiet chat (_ ∷ []) = replying-IsQuiet a chat _
  creating-IsQuiet chat (_ ∷ _ ∷ []) = replying-IsQuiet a chat _
  creating-IsQuiet chat (_ ∷ _ ∷ _ ∷ []) = replying-IsQuiet a chat _
  creating-IsQuiet chat (id ∷ video ∷ n ∷ word ∷ words) = creating_priced-IsQuiet chat id video _ _

  setting_found-IsQuiet :
      (chat price : ℤ) (meta : Text) (r : Result (Option Content))
      → IsQuiet R (setting_found chat price meta r)
  unfolding setting_found
  setting_found-IsQuiet chat price meta (ok (some c)) = upserting-IsQuiet chat _ _ _
  setting_found-IsQuiet chat price meta (ok none) = replying-IsQuiet a chat _
  setting_found-IsQuiet chat price meta (err _) = replying-IsQuiet a chat _

  setting_priced-IsQuiet :
      (chat : ℤ) (id : Text) (price : Option ℤ) (meta : Text)
      → IsQuiet R (setting_priced chat id price meta)
  unfolding setting_priced Contents.get_by_id
  setting_priced-IsQuiet chat id none meta = replying-IsQuiet a chat _
  setting_priced-IsQuiet chat id (some n) meta = search (calls, setting_found-IsQuiet) depth 30

  setting-IsQuiet : (chat : ℤ) (parts : List Text) → IsQuiet R (setting chat parts)
  unfolding setting
  setting-IsQuiet chat [] = replying-IsQuiet a chat _
  setting-IsQuiet chat (_ ∷ []) = replying-IsQuiet a chat _
  setting-IsQuiet chat (_ ∷ _ ∷ []) = replying-IsQuiet a chat _
  setting-IsQuiet chat (id ∷ n ∷ word ∷ words) = setting_priced-IsQuiet chat id _ _

  deleting-IsQuiet : (chat : ℤ) (id : Text) → IsQuiet R (deleting chat id)
  unfolding deleting Contents.delete_by_id
  deleting-IsQuiet chat id = search (calls, reporting-IsQuiet, a.delete_content) depth 30

  showing-IsQuiet : (chat : ℤ) (r : Result (List Content)) → IsQuiet R (showing chat r)
  unfolding showing
  showing-IsQuiet chat (err _) = replying-IsQuiet a chat _
  showing-IsQuiet chat (ok []) = replying-IsQuiet a chat _
  showing-IsQuiet chat (ok (c ∷ cs)) = search calls

  listing-IsQuiet : (b : Bot) (chat : ℤ) → IsQuiet R (listing b chat)
  unfolding listing Contents.list_active
  listing-IsQuiet b chat = search (calls, showing-IsQuiet) depth 30

  entering_admin_mode-IsQuiet :
      (b : Bot) (chat user : ℤ) (secret : Text) → IsQuiet R (entering_admin_mode b chat user secret)
  unfolding entering_admin_mode
  entering_admin_mode-IsQuiet b chat user secret = search (calls, toggle_admin-db) depth 30

  if_admin-IsQuiet :
      (chat user : ℤ) {m : Io (Unit {0})} {t : Thread m}
      → IsQuiet R t
      → IsQuiet R (if_admin chat user t)
  unfolding if_admin
  if_admin-IsQuiet chat user q =
      and_then-IsQuiet (same-IsQuiet (is_admin user) (is_admin-db user))
        λ admin. branch-IsQuiet admin q (replying-IsQuiet a chat _)

  after_forcing-IsQuiet : (chat : ℤ) (r : Result (Unit {0})) → IsQuiet R (after_forcing chat r)
  unfolding after_forcing
  after_forcing-IsQuiet chat (ok _) = replying-IsQuiet a chat _
  after_forcing-IsQuiet chat (err e) = replying-IsQuiet a chat _

  forcing_command-IsQuiet : (chat user : ℤ) (id : Text) → IsQuiet R (forcing_command chat user id)
  unfolding forcing_command
  forcing_command-IsQuiet chat user id =
      search (calls, forcing-IsQuiet, after_forcing-IsQuiet) depth 30

  buying-IsQuiet : (chat user : ℤ) (id : Text) → IsQuiet R (buying chat user id)
  unfolding buying
  buying-IsQuiet chat user id = search (calls, starting_purchase-IsQuiet) depth 30

  after_review-IsQuiet : (chat : ℤ) (r : Result (Unit {0})) → IsQuiet R (after_review chat r)
  unfolding after_review
  after_review-IsQuiet chat (ok _) = replying-IsQuiet a chat _
  after_review-IsQuiet chat (err _) = replying-IsQuiet a chat _

  reviewing-IsQuiet :
      (chat user : ℤ) (id : Text) (n : Option ℤ) (words : List Text)
      → IsQuiet R (reviewing chat user id n words)
  unfolding reviewing
  reviewing-IsQuiet chat user id none words = replying-IsQuiet a chat _
  reviewing-IsQuiet chat user id (some n) words =
      search (calls, submitting-IsQuiet, after_review-IsQuiet) depth 30

  reviewing_fields-IsQuiet :
      (chat user : ℤ) (parts : List Text) → IsQuiet R (reviewing_fields chat user parts)
  unfolding reviewing_fields
  reviewing_fields-IsQuiet chat user [] = replying-IsQuiet a chat _
  reviewing_fields-IsQuiet chat user (_ ∷ []) = replying-IsQuiet a chat _
  reviewing_fields-IsQuiet chat user (id ∷ n ∷ words) = reviewing-IsQuiet chat user id _ words

  commanded-IsQuiet :
      (b : Bot) (chat user : ℤ) (name arguments : Text)
      → IsQuiet R (commanded b chat user name arguments)
  unfolding commanded
  commanded-IsQuiet b chat user name arguments =
      search
        (
          calls, entering_admin_mode-IsQuiet, if_admin-IsQuiet, creating-IsQuiet, deleting-IsQuiet,
          setting-IsQuiet, forcing_command-IsQuiet, listing-IsQuiet, buying-IsQuiet,
          reviewing_fields-IsQuiet,
        )
        depth 40

  dispatching-IsQuiet :
      (b : Bot) (chat user : ℤ) (sp : Option SuccessfulPayment) (command : Option (Text × Text))
      → IsQuiet R (dispatching b chat user sp command)
  unfolding dispatching
  dispatching-IsQuiet b chat user (some sp) command = receiving_payment-IsQuiet a chat sp
  dispatching-IsQuiet b chat user none (some (name, arguments)) =
      commanded-IsQuiet b chat user name arguments
  dispatching-IsQuiet b chat user none none = search calls

  rating-IsQuiet : (chat user : ℤ) (id : Text) (n : Option ℤ) → IsQuiet R (rating chat user id n)
  unfolding rating
  rating-IsQuiet chat user id none = search calls
  rating-IsQuiet chat user id (some n) = search (calls, submitting-IsQuiet) depth 30

  rating_parts-IsQuiet :
      (chat user : ℤ) (parts : List Text) → IsQuiet R (rating_parts chat user parts)
  unfolding rating_parts
  rating_parts-IsQuiet chat user [] = search calls
  rating_parts-IsQuiet chat user (_ ∷ []) = search calls
  rating_parts-IsQuiet chat user (_ ∷ _ ∷ []) = search calls
  rating_parts-IsQuiet chat user (_ ∷ id ∷ n ∷ []) = rating-IsQuiet chat user id _
  rating_parts-IsQuiet chat user (_ ∷ _ ∷ _ ∷ _ ∷ _) = search calls

  pressing_review-IsQuiet : (q : CallbackQuery) (o : Option Text) → IsQuiet R (pressing_review q o)
  unfolding pressing_review
  pressing_review-IsQuiet q none = search calls
  pressing_review-IsQuiet q (some _) = search (calls, rating_parts-IsQuiet, acking-IsQuiet) depth 30

  pressing_buy-IsQuiet : (q : CallbackQuery) (o : Option Text) → IsQuiet R (pressing_buy q o)
  unfolding pressing_buy
  pressing_buy-IsQuiet q none = pressing_review-IsQuiet q _
  pressing_buy-IsQuiet q (some id) =
      search (calls, starting_purchase-IsQuiet, acking-IsQuiet) depth 30

  pub updating-IsQuiet : (b : Bot) (u : Update) → IsQuiet R (updating b u)
  unfolding updating
  updating-IsQuiet b (pre_checkout q) = checking_out-IsQuiet a q
  updating-IsQuiet b (message m) = dispatching-IsQuiet b m.chat_id m.sender m.payment m.command
  updating-IsQuiet b (callback q) = pressing_buy-IsQuiet q _
  updating-IsQuiet b other = search calls
