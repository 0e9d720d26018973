-- ===== src/System/Front/Updates.antt =====
-- The bot's commands and its dispatch.
use streaming_bot.Prelude.{Text, text, text_eq, true, ◌≡◌, List, [], ◌∷◌, Option, none, some}
use streaming_bot.Prelude.Int.{ℤ}
use streaming_bot.Exec.{Result, ok, err, gets}
use streaming_bot.Exec.Triple.{Keeps, Keeps-of, Takes, Takes_of_Keeps, Triple-if}
use streaming_bot.Exec.Keeps.{keeps_rules}
use streaming_bot.World.{World, Io}
use streaming_bot.Domain.Content.{Content}
use streaming_bot.Platform.Strings.{trim_space}
use streaming_bot.Telegram.Api.{
  Bot, Update, SuccessfulPayment, pre_checkout, callback, other, reply, is_admin, toggle_admin,
}
use streaming_bot.Telegram.Catalogue
use streaming_bot.Telegram.Bot.{
  admin_mode, admin_only, handle_command, dispatch, handle_message, handle_update,
}
use streaming_bot.System.Front.{IsServed, IsEdited}
use streaming_bot.System.Front.Bot.{
  reply-Keeps, successful_payment-Keeps, handle_pre_checkout-Keeps, catalog-Keeps,
  force_command-Keeps, buy_command-Keeps, review_fields-Keeps, handle_callback-Keeps,
}

module _ {P : World → Type 0} (s : IsServed P) where
  keep-reply : (chat : ℤ) (body : Text) → Keeps P (reply chat body)
  keep-reply chat body = reply-Keeps s chat body

  is_admin-Keeps : (user : ℤ) → Keeps P (is_admin user)
  unfolding is_admin gets
  is_admin-Keeps user = Keeps-of (λ w p. p)

  ruleset rules = (keeps_rules, keep-reply, is_admin-Keeps)

  module _ (e : IsEdited P) where
    report-Keeps :
        (chat : ℤ) (done failed : Text) (r : Result (Unit {0}))
        → Keeps P (Catalogue.report chat done failed r)
    report-Keeps chat done failed (ok _) = keep-reply chat _
    report-Keeps chat done failed (err _) = keep-reply chat _

    upsert_content-Keeps :
        (chat : ℤ) (c : Content) (done failed : Text)
        → Keeps P (Catalogue.upsert_content chat c done failed)
    unfolding Catalogue.upsert_content
    upsert_content-Keeps chat c done failed = search (rules, e.upsert, report-Keeps) depth 30

    create_priced-Keeps :
        (chat : ℤ) (id video : Text) (price : Option ℤ) (meta : Text)
        → Keeps P (Catalogue.create_priced chat id video price meta)
    unfolding Catalogue.create_priced
    create_priced-Keeps chat id video none meta = keep-reply chat _
    create_priced-Keeps chat id video (some n) meta = upsert_content-Keeps chat _ _ _

    pub create_fields-Keeps :
        (chat : ℤ) (parts : List Text) → Keeps P (Catalogue.create_fields chat parts)
    unfolding Catalogue.create_fields
    create_fields-Keeps chat [] = keep-reply chat _
    create_fields-Keeps chat (_ ∷ []) = keep-reply chat _
    create_fields-Keeps chat (_ ∷ _ ∷ []) = keep-reply chat _
    create_fields-Keeps chat (_ ∷ _ ∷ _ ∷ []) = keep-reply chat _
    create_fields-Keeps chat (id ∷ video ∷ price ∷ _ ∷ _) = create_priced-Keeps chat id video _ _

    set_found-Keeps :
        (chat price : ℤ) (meta : Text) (r : Result (Option Content))
        → Keeps P (Catalogue.set_found chat price meta r)
    unfolding Catalogue.set_found
    set_found-Keeps chat price meta (ok (some c)) = upsert_content-Keeps chat _ _ _
    set_found-Keeps chat price meta (ok none) = keep-reply chat _
    set_found-Keeps chat price meta (err _) = keep-reply chat _

    set_priced-Keeps :
        (chat : ℤ) (id : Text) (price : Option ℤ) (meta : Text)
        → Keeps P (Catalogue.set_priced chat id price meta)
    unfolding Catalogue.set_priced
    set_priced-Keeps chat id none meta = keep-reply chat _
    set_priced-Keeps chat id (some n) meta = search (rules, s.get_content, set_found-Keeps) depth 30

    pub set_fields-Keeps :
        (chat : ℤ) (parts : List Text) → Keeps P (Catalogue.set_fields chat parts)
    unfolding Catalogue.set_fields
    set_fields-Keeps chat [] = keep-reply chat _
    set_fields-Keeps chat (_ ∷ []) = keep-reply chat _
    set_fields-Keeps chat (_ ∷ _ ∷ []) = keep-reply chat _
    set_fields-Keeps chat (id ∷ price ∷ _ ∷ _) = set_priced-Keeps chat id _ _

    pub delete_content-Keeps : (chat : ℤ) (id : Text) → Keeps P (Catalogue.delete_content chat id)
    unfolding Catalogue.delete_content
    delete_content-Keeps chat id = search (rules, e.delete, report-Keeps) depth 30

  -- A command of an admin is a premise here, since not everyone gets to it.
  pub admin_only-Keeps :
      (chat user : ℤ) (m : Io Unit) → Keeps P m → Keeps P (admin_only chat user m)
  unfolding admin_only
  admin_only-Keeps chat user m h = search rules depth 30

  module _ (toggle : (user : ℤ) → Keeps P (toggle_admin user)) where
    pub admin_mode-Keeps :
        (b : Bot) (chat user : ℤ) (secret : Text) → Keeps P (admin_mode b chat user secret)
    unfolding admin_mode
    admin_mode-Keeps b chat user secret = search (rules, toggle) depth 30

-- The dispatch, for an assertion `P` before it and a weaker one, `Q`, after it.
module _ {P Q : World → Type 0} (weaken : (w : World) → P w → Q w) (s : IsServed Q) (b : Bot) where
  module _ (chat user : ℤ)
      (create : (parts : List Text)
        → Takes P (admin_only chat user (Catalogue.create_fields chat parts)) Q)
      (delete : (id : Text) → Takes P (admin_only chat user (Catalogue.delete_content chat id)) Q)
      (set : (parts : List Text)
        → Takes P (admin_only chat user (Catalogue.set_fields chat parts)) Q) where
    kept : {m : Io Unit} → Keeps Q m → Takes P m Q
    kept h = Takes_of_Keeps weaken h

    pub handle_command-Takes :
        (name arguments : Text)
        → (text_eq name (text "adminmode") ≡ true
            → Keeps Q (admin_mode b chat user (trim_space arguments)))
        → Takes P (handle_command b chat user name arguments) Q
    unfolding handle_command
    handle_command-Takes name arguments mode =
        search
          (
            Triple-if,
            create,
            delete,
            set,
            kept,
            reply-Keeps s,
            mode,
            admin_only-Keeps s,
            force_command-Keeps s,
            catalog-Keeps s,
            buy_command-Keeps s,
            review_fields-Keeps s,
          )
          depth 30

    pub dispatch-Takes :
        ((secret : Text) → Keeps Q (admin_mode b chat user secret))
        → (payment : Option SuccessfulPayment) (command : Option (Text × Text))
        → Takes P (dispatch b chat user payment command) Q
    unfolding dispatch
    dispatch-Takes mode (some sp) command = kept (successful_payment-Keeps s chat sp)
    dispatch-Takes mode none (some (name, arguments)) =
        handle_command-Takes name arguments (λ _. mode (trim_space arguments))
    dispatch-Takes mode none none = kept (search keeps_rules)

module _ {P : World → Type 0} (s : IsServed P) (e : IsEdited P)
    (toggle : (user : ℤ) → Keeps P (toggle_admin user)) (b : Bot) where
  -- What the calls keep, the bot keeps.
  pub handle_update-Keeps : (u : Update) → Keeps P (handle_update b u)
  unfolding handle_update handle_message
  handle_update-Keeps (pre_checkout q) = handle_pre_checkout-Keeps s q
  handle_update-Keeps (Update.message m) =
      dispatch-Takes (λ w p. p) s b m.chat_id m.sender
        (λ parts. admin_only-Keeps s _ _ _ (create_fields-Keeps s e _ parts))
        (λ id. admin_only-Keeps s _ _ _ (delete_content-Keeps s e _ id))
        (λ parts. admin_only-Keeps s _ _ _ (set_fields-Keeps s e _ parts))
        (λ secret. admin_mode-Keeps s toggle b _ _ _) m.payment m.command
  handle_update-Keeps (callback q) = handle_callback-Keeps s q
  handle_update-Keeps other = search keeps_rules
