-- ===== src/System/Admins.antt =====
-- Who may change the catalogue through the bot (telegram/bot.go).
pub mod Secret
use streaming_bot.Prelude.{
  ℕ, Text, text, text_eq, List, [], ◌∷◌, Option, none, some, Bool, true, false, not, ◌&&◌, ◌||◌,
  any, Text-discrete, Option-cases, ◌≡◌, refl, arith, Bool-cases, inl, inr, if◌then◌else◌, ◌∙◌,
}
use streaming_bot.Prelude.Int.{ℤ, int_eq}
use streaming_bot.Exec.{gets, pure, ◌>>=◌}
use streaming_bot.Exec.Triple.{
  Keeps, Keeps-of, Keeps-ignore, Takes, Takes_of_Keeps, Triple_of_state, Triple-weaken,
  state_of_Keeps, state_of_Triple,
}
use streaming_bot.Exec.Keeps.{keeps_rules}
use streaming_bot.World.{World, Io}
use streaming_bot.World.Admins.{
  HasAdmins, sql-HasAdmins, redis-HasAdmins, send-HasAdmins, time_now-HasAdmins,
  rand_read-HasAdmins,
}
use streaming_bot.Domain.Content.{Content}
use streaming_bot.Storage.Purchases
use streaming_bot.Storage.Contents
use streaming_bot.Storage.Grants
use streaming_bot.Storage.Reviews
use streaming_bot.Storage.Payments
use streaming_bot.Storage.Outbox
use streaming_bot.Platform.Strings.{trim_space}
use streaming_bot.Telegram.Api
use streaming_bot.Telegram.Api.{
  Bot, Update, SuccessfulPayment, pre_checkout, callback, other, reply, is_admin, toggle_admin,
  toggled,
}
use streaming_bot.Telegram.Bot.{
  admin_mode, admin_only, handle_command, dispatch, handle_message, handle_update,
}
use streaming_bot.System.UseCases.{AllowsCalls, IsWritten, IsWritten-AllowsCalls}
use streaming_bot.System.Front.{IsServed, IsEdited, AllowsCalls-IsServed}
use streaming_bot.System.Front.Bot.{
  reply-Keeps, successful_payment-Keeps, handle_pre_checkout-Keeps, handle_callback-Keeps,
}
use streaming_bot.System.Front.Updates.{
  admin_mode-Keeps, admin_only-Keeps, create_fields-Keeps, set_fields-Keeps, delete_content-Keeps,
  dispatch-Takes, handle_command-Takes,
}

-- The sender is an admin at that moment.
abbrev pub by_admin : Update → World → Bool
by_admin (pre_checkout q) w = any (int_eq q.sender) w.admins
by_admin (Update.message m) w = any (int_eq m.sender) w.admins
by_admin (callback q) w = any (int_eq q.sender) w.admins
by_admin other w = false

module _ (items : List Content) where
  abbrev Same : World → Type 0
  Same w = w.db.content ≡ items

  content-IsWritten : IsWritten (λ d. d.content ≡ items)
  unfolding Purchases.insert_row Purchases.update_row Grants.mark_used_row Reviews.insert_row
      Payments.insert_event Payments.insert_key Outbox.insert_row
  content-IsWritten = record {
    insert_purchase = λ r d h. ground arith;
    update_purchase = λ r d h. ground arith;
    mark_used = λ id d h. h;
    insert_review = λ r d h. ground arith;
    insert_event = λ e d h. ground arith;
    insert_key = λ key d h. ground arith;
    insert_outbox = λ id pid d h. ground arith;
  }

  content-IsServed : IsServed Same
  content-IsServed =
      AllowsCalls-IsServed (IsWritten-AllowsCalls (λ d. d.content ≡ items) content-IsWritten)

  toggle-Same : (user : ℤ) → Keeps Same (toggle_admin user)
  unfolding toggle_admin
  toggle-Same user = Keeps-of (λ w h. h)

  module _ (chat user : ℤ) where
    abbrev Before : World → Type 0
    Before w = (w.db.content ≡ items) × (any (int_eq user) w.admins ≡ false)

    denied : (m : Io Unit) → Takes Before (admin_only chat user m) Same
    unfolding admin_only is_admin gets ◌>>=◌
    denied m =
        Triple_of_state (λ w p. rw p.1 (state_of_Keeps (reply-Keeps content-IsServed chat _) w p.0))

    dispatch-Same :
        (b : Bot) (payment : Option SuccessfulPayment) (command : Option (Text × Text))
        → Takes Before (dispatch b chat user payment command) Same
    dispatch-Same b payment command =
        dispatch-Takes (λ w p. p.0) content-IsServed b chat user (λ parts. denied _)
          (λ id. denied _) (λ parts. denied _)
          (λ secret. admin_mode-Keeps content-IsServed toggle-Same b chat user secret) payment
          command

-- Whatever the faults of the services, an update whose sender is not an admin leaves the catalogue
-- as it was.
pub only_admins_edit :
    (b : Bot) (u : Update) (w : World)
    → by_admin u w ≡ false
    → (handle_update b u w).1.db.content ≡ w.db.content
unfolding handle_update handle_message pure
only_admins_edit b (pre_checkout q) w h =
    state_of_Keeps (handle_pre_checkout-Keeps (content-IsServed w.db.content) q) w refl
only_admins_edit b (Update.message m) w h =
    state_of_Triple (dispatch-Same w.db.content m.chat_id m.sender b m.payment m.command) w
      (refl, h)
only_admins_edit b (callback q) w h =
    state_of_Keeps (handle_callback-Keeps (content-IsServed w.db.content) q) w refl
only_admins_edit b other w h = refl
