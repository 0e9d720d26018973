-- ===== src/System/Admins/Secret.antt =====
-- Who becomes an admin (telegram/bot.go).
use streaming_bot.Prelude.{
  Text, text, text_eq, List, [], Option, none, some, Bool, true, false, not, ◌&&◌, ◌||◌,
  Text-discrete, ◌≡◌, refl, arith, Bool-cases, inl, inr, if◌then◌else◌,
}
use streaming_bot.Prelude.Int.{ℤ}
use streaming_bot.Exec.{pure, ◌>>=◌}
use streaming_bot.Exec.Triple.{Keeps, state_of_Keeps}
use streaming_bot.World.{World}
use streaming_bot.World.Admins.{
  HasAdmins, sql-HasAdmins, redis-HasAdmins, send-HasAdmins, time_now-HasAdmins,
  rand_read-HasAdmins,
}
use streaming_bot.Storage.Contents
use streaming_bot.Platform.Strings.{trim_space}
use streaming_bot.Telegram.Api.{
  Bot, Update, SuccessfulPayment, pre_checkout, callback, other, toggle_admin, toggled,
}
use streaming_bot.Telegram.Bot.{admin_mode, handle_command, dispatch, handle_message, handle_update}
use streaming_bot.System.UseCases.{AllowsCalls}
use streaming_bot.System.Front.{IsServed, IsEdited, AllowsCalls-IsServed}
use streaming_bot.System.Front.Bot.{
  reply-Keeps, successful_payment-Keeps, handle_pre_checkout-Keeps, handle_callback-Keeps,
}
use streaming_bot.System.Front.Updates.{
  admin_only-Keeps, create_fields-Keeps, set_fields-Keeps, delete_content-Keeps,
  handle_command-Takes,
}

abbrev is_mode : Bot → Text → Text → Bool
is_mode b name arguments =
    text_eq name (text "adminmode")
    && not (text_eq (trim_space arguments) [])
    && text_eq (trim_space arguments) b.admin_secret

-- The secret of the bot in a command `adminmode`: the user whose entry is turned over.
abbrev asked : Bot → ℤ → Option SuccessfulPayment → Option (Text × Text) → Option ℤ
asked b user (some sp) command = none
asked b user none none = none
asked b user none (some (name, arguments)) = if is_mode b name arguments then some user else none

abbrev pub asks_mode : Bot → Update → Option ℤ
asks_mode b (Update.message m) = asked b m.sender m.payment m.command
asks_mode b (pre_checkout q) = none
asks_mode b (callback q) = none
asks_mode b other = none

module _ (admins : List ℤ) where
  admins-AllowsCalls : AllowsCalls (HasAdmins admins)
  admins-AllowsCalls = record {
    read = λ f. sql-HasAdmins admins _;
    insert_purchase = λ r. sql-HasAdmins admins _;
    update_purchase = λ r. sql-HasAdmins admins _;
    mark_used = λ id. sql-HasAdmins admins _;
    insert_review = λ r. sql-HasAdmins admins _;
    insert_event = λ e. sql-HasAdmins admins _;
    insert_key = λ key. sql-HasAdmins admins _;
    insert_outbox = λ id pid. sql-HasAdmins admins _;
    cached = λ m. redis-HasAdmins admins m;
    sends = λ m. send-HasAdmins admins m;
    now = time_now-HasAdmins admins;
    random = λ n. rand_read-HasAdmins admins n;
  }

  admins-IsServed : IsServed (HasAdmins admins)
  admins-IsServed = AllowsCalls-IsServed admins-AllowsCalls

  admins-IsEdited : IsEdited (HasAdmins admins)
  unfolding Contents.upsert Contents.delete_by_id
  admins-IsEdited = record {
    upsert = λ c. sql-HasAdmins admins _;
    delete = λ id. sql-HasAdmins admins _;
  }

  module _ (b : Bot) (chat user : ℤ) where
    -- Without the secret the mode is denied.
    denied_mode :
        (secret : Text)
        → (not (text_eq secret []) && text_eq secret b.admin_secret) ≡ false
        → Keeps (HasAdmins admins) (admin_mode b chat user secret)
    unfolding admin_mode
    denied_mode secret h =
        let e : (text_eq secret [] || not (text_eq secret b.admin_secret)) ≡ true = ground arith in
        rw e (reply-Keeps admins-IsServed chat (text "admin denied"))

    command-HasAdmins :
        (name arguments : Text)
        → asked b user none (some (name, arguments)) ≡ none
        → Keeps (HasAdmins admins) (handle_command b chat user name arguments)
    command-HasAdmins name arguments h =
        let s = admins-IsServed in
        let e = admins-IsEdited in
        handle_command-Takes (λ w p. p) s b chat user
          (λ parts. admin_only-Keeps s _ _ _ (create_fields-Keeps s e _ parts))
          (λ id. admin_only-Keeps s _ _ _ (delete_content-Keeps s e _ id))
          (λ parts. admin_only-Keeps s _ _ _ (set_fields-Keeps s e _ parts)) name arguments
          (λ mode. denied_mode (trim_space arguments) (ground arith))

module _ (b : Bot) (chat user : ℤ) where
  granted_mode :
      (secret : Text) (w : World)
      → (not (text_eq secret []) && text_eq secret b.admin_secret) ≡ true
      → (admin_mode b chat user secret w).1.admins ≡ toggled user w.admins
  unfolding admin_mode toggle_admin ◌>>=◌
  granted_mode secret w h =
      let e : (text_eq secret [] || not (text_eq secret b.admin_secret)) ≡ false = ground arith in
      let v = record w { admins = toggled user w.admins } in
      rw e (state_of_Keeps (reply-Keeps (admins-IsServed v.admins) chat _) v refl)

  mode_command :
      (name arguments : Text)
      → text_eq name (text "adminmode") ≡ true
      → handle_command b chat user name arguments ≡ admin_mode b chat user (trim_space arguments)
  unfolding handle_command Text-discrete
  mode_command name arguments h = elim (Text-discrete name (text "adminmode")) [
    | yes e ↦ rw e refl
    | no e ↦ ground arith
  ]

  dispatch-admins :
      (payment : Option SuccessfulPayment) (command : Option (Text × Text)) (w : World)
      → (dispatch b chat user payment command w).1.admins
        ≡ (elim (asked b user payment command) [ none ↦ w.admins | some u ↦ toggled u w.admins ])
  unfolding dispatch pure
  dispatch-admins (some sp) command w =
      state_of_Keeps (successful_payment-Keeps (admins-IsServed w.admins) chat sp) w refl
  dispatch-admins none none w = refl
  dispatch-admins none (some (name, arguments)) w = elim (Bool-cases (is_mode b name arguments)) [
    | inl e ↦
        rw (e, mode_command name arguments (ground arith))
          (granted_mode (trim_space arguments) w (ground arith))
    | inr e ↦ rw e (
        state_of_Keeps (command-HasAdmins w.admins b chat user name arguments (ground arith)) w
          refl)
  ]

-- Whatever the faults of the services, an update changes the map of admins in one way alone: a
-- command `adminmode` whose argument, with the space at its ends cut off, is the bot's secret and
-- not empty turns over the entry of its sender.
pub admins_by_secret :
    (b : Bot) (u : Update) (w : World)
    → (handle_update b u w).1.admins
      ≡ (elim (asks_mode b u) [ none ↦ w.admins | some user ↦ toggled user w.admins ])
unfolding handle_update handle_message pure
admins_by_secret b (pre_checkout q) w =
    state_of_Keeps (handle_pre_checkout-Keeps (admins-IsServed w.admins) q) w refl
admins_by_secret b (Update.message m) w = dispatch-admins b m.chat_id m.sender m.payment m.command w
admins_by_secret b (callback q) w =
    state_of_Keeps (handle_callback-Keeps (admins-IsServed w.admins) q) w refl
admins_by_secret b other w = refl
