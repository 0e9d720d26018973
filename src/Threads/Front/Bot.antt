-- ===== src/Threads/Front/Bot.antt =====
-- The dispatch of the bot and the commands about the catalogue, as threads.
use streaming_bot.Prelude.{Text, text, text_eq, List, [], ◌∷◌, Option, none, some}
use streaming_bot.Prelude.Int.{ℤ}
use streaming_bot.Exec.{Result, ok, err}
use streaming_bot.World.{Io}
use streaming_bot.Domain.Content.{Content}
use streaming_bot.Storage.Contents
use streaming_bot.Telegram.Api
use streaming_bot.Telegram.Api.{
  Bot, IncomingMessage, CallbackQuery, Update, pre_checkout, callback, other, is_admin,
  toggle_admin,
}
use streaming_bot.Telegram.Catalogue
use streaming_bot.Telegram.Bot as Dispatch
use streaming_bot.Threads.{Thread, one, branch, attempted, ignored, and_then}
use streaming_bot.Threads.Locals.{returned}
use streaming_bot.Threads.UseCases.{submitting}
use streaming_bot.Threads.Front.Checkout.{
  replying, acking, starting_purchase, receiving_payment, forcing, checking_out,
}

unfoldable pub reporting :
    (chat : ℤ) (done failed : Text) (r : Result (Unit {0}))
    → Thread (Catalogue.report chat done failed r)
reporting chat done failed (ok _) = replying chat done
reporting chat done failed (err _) = replying chat failed

unfoldable pub upserting :
    (chat : ℤ) (c : Content) (done failed : Text)
    → Thread (Catalogue.upsert_content chat c done failed)
unfolding Catalogue.upsert_content
upserting chat c done failed =
    and_then (attempted (one (Contents.upsert c))) λ res. reporting chat done failed res

unfoldable pub creating_priced :
    (chat : ℤ) (id video : Text) (price : Option ℤ) (meta : Text)
    → Thread (Catalogue.create_priced chat id video price meta)
unfolding Catalogue.create_priced
creating_priced chat id video none meta = replying chat _
creating_priced chat id video (some price) meta = upserting chat _ _ _

unfoldable pub creating :
    (chat : ℤ) (parts : List Text) → Thread (Catalogue.create_fields chat parts)
unfolding Catalogue.create_fields
creating chat (id ∷ video ∷ price ∷ word ∷ words) = creating_priced chat id video _ _
creating chat [] = replying chat _
creating chat (_ ∷ []) = replying chat _
creating chat (_ ∷ _ ∷ []) = replying chat _
creating chat (_ ∷ _ ∷ _ ∷ []) = replying chat _

unfoldable pub setting_found :
    (chat price : ℤ) (meta : Text) (r : Result (Option Content))
    → Thread (Catalogue.set_found chat price meta r)
unfolding Catalogue.set_found
setting_found chat price meta (ok (some c)) = upserting chat _ _ _
setting_found chat price meta (ok none) = replying chat _
setting_found chat price meta (err _) = replying chat _

unfoldable pub setting_priced :
    (chat : ℤ) (id : Text) (price : Option ℤ) (meta : Text)
    → Thread (Catalogue.set_priced chat id price meta)
unfolding Catalogue.set_priced
setting_priced chat id none meta = replying chat _
setting_priced chat id (some price) meta =
    and_then (attempted (one (Contents.get_by_id id))) λ found. setting_found chat price meta found

unfoldable pub setting : (chat : ℤ) (parts : List Text) → Thread (Catalogue.set_fields chat parts)
unfolding Catalogue.set_fields
setting chat (id ∷ price ∷ word ∷ words) = setting_priced chat id _ _
setting chat [] = replying chat _
setting chat (_ ∷ []) = replying chat _
setting chat (_ ∷ _ ∷ []) = replying chat _

unfoldable pub deleting : (chat : ℤ) (id : Text) → Thread (Catalogue.delete_content chat id)
unfolding Catalogue.delete_content
deleting chat id =
    branch _ (replying chat _)
      (and_then (attempted (one (Contents.delete_by_id id))) λ res. reporting chat _ _ res)

unfoldable pub showing :
    (chat : ℤ) (r : Result (List Content)) → Thread (Catalogue.show_catalog chat r)
unfolding Catalogue.show_catalog
showing chat (err _) = replying chat _
showing chat (ok []) = replying chat _
showing chat (ok (c ∷ cs)) = ignored (one _)

unfoldable pub listing : (b : Bot) (chat : ℤ) → Thread (Catalogue.catalog b chat)
unfolding Catalogue.catalog
listing b chat =
    and_then (attempted (one (Contents.list_active b.collate))) λ items. showing chat items

unfoldable pub entering_admin_mode :
    (b : Bot) (chat user : ℤ) (secret : Text) → Thread (Dispatch.admin_mode b chat user secret)
unfolding Dispatch.admin_mode
entering_admin_mode b chat user secret =
    branch _ (replying chat _) (and_then (one (toggle_admin user)) λ enabled. replying chat _)

unfoldable pub if_admin :
    (chat user : ℤ) {m : Io (Unit {0})} → Thread m → Thread (Dispatch.admin_only chat user m)
unfolding Dispatch.admin_only
if_admin chat user t = and_then (one (is_admin user)) λ admin. branch admin t (replying chat _)

unfoldable pub after_forcing :
    (chat : ℤ) (r : Result (Unit {0})) → Thread (Dispatch.after_force_buy chat r)
after_forcing chat (ok _) = replying chat _
after_forcing chat (err e) = replying chat _

unfoldable pub forcing_command :
    (chat user : ℤ) (id : Text) → Thread (Dispatch.force_command chat user id)
unfolding Dispatch.force_command
forcing_command chat user id =
    branch _ (replying chat _)
      (and_then (attempted (forcing chat user id)) λ res. after_forcing chat res)

unfoldable pub buying : (chat user : ℤ) (id : Text) → Thread (Dispatch.buy_command chat user id)
unfolding Dispatch.buy_command
buying chat user id = branch _ (replying chat _) (starting_purchase chat user id)

unfoldable pub after_review :
    (chat : ℤ) (r : Result (Unit {0})) → Thread (Dispatch.after_review chat r)
after_review chat (ok _) = replying chat _
after_review chat (err _) = replying chat _

unfoldable pub reviewing :
    (chat user : ℤ) (id : Text) (rating : Option ℤ) (words : List Text)
    → Thread (Dispatch.review_rated chat user id rating words)
unfolding Dispatch.review_rated
reviewing chat user id none words = replying chat _
reviewing chat user id (some n) words =
    and_then (attempted (submitting _)) λ res. after_review chat res

unfoldable pub reviewing_fields :
    (chat user : ℤ) (parts : List Text) → Thread (Dispatch.review_fields chat user parts)
unfolding Dispatch.review_fields
reviewing_fields chat user (id ∷ rating ∷ words) = reviewing chat user id _ words
reviewing_fields chat user [] = replying chat _
reviewing_fields chat user (_ ∷ []) = replying chat _

unfoldable pub commanded :
    (b : Bot) (chat user : ℤ) (name arguments : Text)
    → Thread (Dispatch.handle_command b chat user name arguments)
unfolding Dispatch.handle_command
commanded b chat user name arguments = branch (text_eq name (text "start")) (replying chat _) (
    branch (text_eq name (text "help")) (replying chat _) (
      branch (text_eq name (text "adminmode")) (entering_admin_mode b chat user _) (
        branch (text_eq name (text "createcontent")) (if_admin chat user (creating chat _)) (
          branch (text_eq name (text "deletecontent")) (if_admin chat user (deleting chat _)) (
            branch (text_eq name (text "setcontent")) (if_admin chat user (setting chat _)) (
              branch (text_eq name (text "forcebuy"))
                (if_admin chat user (forcing_command chat user _))
                (branch (text_eq name (text "catalog")) (listing b chat) (
                  branch (text_eq name (text "buy")) (buying chat user _) (
                    branch (text_eq name (text "review")) (reviewing_fields chat user _)
                      (replying chat _))))))))))

unfoldable pub dispatching :
    (b : Bot) (chat user : ℤ) (sp : Option Api.SuccessfulPayment) (command : Option (Text × Text))
    → Thread (Dispatch.dispatch b chat user sp command)
unfolding Dispatch.dispatch
dispatching b chat user (some sp) command = receiving_payment chat sp
dispatching b chat user none (some (name, arguments)) = commanded b chat user name arguments
dispatching b chat user none none = returned tt

unfoldable pub rating :
    (chat user : ℤ) (id : Text) (n : Option ℤ) → Thread (Dispatch.rate chat user id n)
unfolding Dispatch.rate
rating chat user id none = returned tt
rating chat user id (some n) = and_then (ignored (submitting _)) λ _. replying chat _

unfoldable pub rating_parts :
    (chat user : ℤ) (parts : List Text) → Thread (Dispatch.rate_parts chat user parts)
unfolding Dispatch.rate_parts
rating_parts chat user (_ ∷ id ∷ n ∷ []) = rating chat user id _
rating_parts chat user [] = returned tt
rating_parts chat user (_ ∷ []) = returned tt
rating_parts chat user (_ ∷ _ ∷ []) = returned tt
rating_parts chat user (_ ∷ _ ∷ _ ∷ _ ∷ _) = returned tt

unfoldable pub pressing_review :
    (q : CallbackQuery) (o : Option Text) → Thread (Dispatch.press_review q o)
unfolding Dispatch.press_review
pressing_review q none = returned tt
pressing_review q (some _) = and_then (rating_parts q.chat_id q.sender _) λ _. acking q.id _

unfoldable pub pressing_buy :
    (q : CallbackQuery) (o : Option Text) → Thread (Dispatch.press_buy q o)
unfolding Dispatch.press_buy
pressing_buy q none = pressing_review q _
pressing_buy q (some id) = and_then (starting_purchase q.chat_id q.sender id) λ _. acking q.id _

unfoldable pub updating : (b : Bot) (u : Update) → Thread (Dispatch.handle_update b u)
unfolding Dispatch.handle_update Dispatch.handle_message Dispatch.handle_callback
updating b (pre_checkout q) = checking_out q
updating b (Update.message m) = dispatching b m.chat_id m.sender m.payment m.command
updating b (callback q) = pressing_buy q _
updating b other = returned tt
