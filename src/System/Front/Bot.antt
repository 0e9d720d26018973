-- ===== src/System/Front/Bot.antt =====
-- The bot.
use streaming_bot.Prelude.{Text, List, [], ◌∷◌, Option, none, some, Bool}
use streaming_bot.Prelude.Int.{ℤ}
use streaming_bot.Exec.{Result, ok, err}
use streaming_bot.Exec.Triple.{Keeps, Keeps-ignore}
use streaming_bot.Exec.Keeps.{keeps_rules}
use streaming_bot.World.{World, Outgoing, send, time_now}
use streaming_bot.Domain.Content.{Content}
use streaming_bot.Domain.Purchase.{Purchase}
use streaming_bot.Storage.Contents
use streaming_bot.App.StartPurchase
use streaming_bot.App.StartPurchase.{Invoice}
use streaming_bot.App.ConfirmPayment
use streaming_bot.App.SubmitReview
use streaming_bot.Domain.Payment.{Event}
use streaming_bot.Telegram.Api.{Bot, PreCheckoutQuery, CallbackQuery, SuccessfulPayment, reply, ack}
use streaming_bot.Telegram.Checkout
use streaming_bot.Telegram.Catalogue
use streaming_bot.Telegram.Bot.{
  after_force_buy, force_command, buy_command, after_review, review_rated, review_fields, rate,
  rate_parts, press_review, press_buy, handle_callback,
}
use streaming_bot.System.Front.{IsServed}

module _ {P : World → Type 0} (s : IsServed P) where
  keep-send : (m : Outgoing) → Keeps P (send m)
  keep-send m = s.sends m

  keep-now : Keeps P time_now
  keep-now = s.now

  keep-get_content : (id : Text) → Keeps P (Contents.get_by_id id)
  keep-get_content id = s.get_content id

  keep-start : (cmd : StartPurchase.Command) → Keeps P (StartPurchase.handle cmd)
  keep-start cmd = s.start cmd

  keep-confirm : (e : Event) → Keeps P (ConfirmPayment.handle e)
  keep-confirm e = s.confirm e

  keep-submit : (cmd : SubmitReview.Command) → Keeps P (SubmitReview.handle cmd)
  keep-submit cmd = s.submit cmd

  pub reply-Keeps : (chat : ℤ) (body : Text) → Keeps P (reply chat body)
  unfolding reply
  reply-Keeps chat body = Keeps-ignore (s.sends _)

  ack-Keeps : (id body : Text) → Keeps P (ack id body)
  unfolding ack
  ack-Keeps id body = Keeps-ignore (s.sends _)

  ruleset rules = (
    keeps_rules, keep-send, keep-now, keep-get_content, keep-start, keep-confirm, keep-submit,
    reply-Keeps, ack-Keeps,
  )

  after_invoice-Keeps :
      (chat : ℤ) (id : Text) (r : Result (Unit {0})) → Keeps P (Checkout.after_invoice chat id r)
  after_invoice-Keeps chat id (ok _) = reply-Keeps chat _
  after_invoice-Keeps chat id (err _) = reply-Keeps chat _

  send_invoice-Keeps :
      (chat : ℤ) (id : Text) (res : Invoice) → Keeps P (Checkout.send_invoice chat id res)
  unfolding Checkout.send_invoice
  send_invoice-Keeps chat id res = search (rules, after_invoice-Keeps) depth 30

  after_start-Keeps :
      (chat : ℤ) (id : Text) (r : Result Invoice) → Keeps P (Checkout.after_start chat id r)
  after_start-Keeps chat id (ok res) = send_invoice-Keeps chat id res
  after_start-Keeps chat id (err _) = reply-Keeps chat _

  start_purchase-Keeps :
      (chat user : ℤ) (id : Text) → Keeps P (Checkout.start_purchase chat user id)
  unfolding Checkout.start_purchase
  start_purchase-Keeps chat user id = search (rules, after_start-Keeps) depth 30

  after_payment-Keeps : (chat : ℤ) (r : Result (Unit {0})) → Keeps P (Checkout.after_payment chat r)
  after_payment-Keeps chat (ok _) = reply-Keeps chat _
  after_payment-Keeps chat (err _) = reply-Keeps chat _

  pub successful_payment-Keeps :
      (chat : ℤ) (sp : SuccessfulPayment) → Keeps P (Checkout.successful_payment chat sp)
  unfolding Checkout.successful_payment
  successful_payment-Keeps chat sp = search (rules, after_payment-Keeps) depth 30

  force_buy-Keeps : (chat user : ℤ) (id : Text) → Keeps P (Checkout.force_buy chat user id)
  unfolding Checkout.force_buy
  force_buy-Keeps chat user id = search rules depth 30

  answer-Keeps :
      (q : PreCheckoutQuery) (good : Bool) (reason : Text) → Keeps P (Checkout.answer q good reason)
  unfolding Checkout.answer
  answer-Keeps q good reason = Keeps-ignore (s.sends _)

  answer_for-Keeps :
      (q : PreCheckoutQuery) (r : Result (Option Purchase)) → Keeps P (Checkout.answer_for q r)
  unfolding Checkout.answer_for
  answer_for-Keeps q (ok (some p)) = search (rules, answer-Keeps) depth 30
  answer_for-Keeps q (ok none) = answer-Keeps q _ _
  answer_for-Keeps q (err _) = answer-Keeps q _ _

  pub handle_pre_checkout-Keeps : (q : PreCheckoutQuery) → Keeps P (Checkout.handle_pre_checkout q)
  unfolding Checkout.handle_pre_checkout
  handle_pre_checkout-Keeps q =
      search (rules, s.get_by_payload, answer-Keeps, answer_for-Keeps) depth 30

  show_catalog-Keeps :
      (chat : ℤ) (r : Result (List Content)) → Keeps P (Catalogue.show_catalog chat r)
  unfolding Catalogue.show_catalog
  show_catalog-Keeps chat (err _) = reply-Keeps chat _
  show_catalog-Keeps chat (ok []) = reply-Keeps chat _
  show_catalog-Keeps chat (ok (c ∷ cs)) = Keeps-ignore (s.sends _)

  pub catalog-Keeps : (b : Bot) (chat : ℤ) → Keeps P (Catalogue.catalog b chat)
  unfolding Catalogue.catalog
  catalog-Keeps b chat = search (rules, s.list_active, show_catalog-Keeps) depth 30

  after_force_buy-Keeps : (chat : ℤ) (r : Result (Unit {0})) → Keeps P (after_force_buy chat r)
  after_force_buy-Keeps chat (ok _) = reply-Keeps chat _
  after_force_buy-Keeps chat (err e) = reply-Keeps chat _

  pub force_command-Keeps : (chat user : ℤ) (id : Text) → Keeps P (force_command chat user id)
  unfolding force_command
  force_command-Keeps chat user id = search (rules, force_buy-Keeps, after_force_buy-Keeps) depth 30

  pub buy_command-Keeps : (chat user : ℤ) (id : Text) → Keeps P (buy_command chat user id)
  unfolding buy_command
  buy_command-Keeps chat user id = search (rules, start_purchase-Keeps) depth 30

  after_review-Keeps : (chat : ℤ) (r : Result (Unit {0})) → Keeps P (after_review chat r)
  after_review-Keeps chat (ok _) = reply-Keeps chat _
  after_review-Keeps chat (err _) = reply-Keeps chat _

  review_rated-Keeps :
      (chat user : ℤ) (id : Text) (rating : Option ℤ) (words : List Text)
      → Keeps P (review_rated chat user id rating words)
  unfolding review_rated
  review_rated-Keeps chat user id none words = reply-Keeps chat _
  review_rated-Keeps chat user id (some n) words = search (rules, after_review-Keeps) depth 30

  pub review_fields-Keeps :
      (chat user : ℤ) (parts : List Text) → Keeps P (review_fields chat user parts)
  unfolding review_fields
  review_fields-Keeps chat user [] = reply-Keeps chat _
  review_fields-Keeps chat user (id ∷ []) = reply-Keeps chat _
  review_fields-Keeps chat user (id ∷ rating ∷ words) = review_rated-Keeps chat user id _ words

  rate-Keeps : (chat user : ℤ) (id : Text) (rating : Option ℤ) → Keeps P (rate chat user id rating)
  unfolding rate
  rate-Keeps chat user id none = search rules
  rate-Keeps chat user id (some n) = search rules depth 30

  rate_parts-Keeps : (chat user : ℤ) (parts : List Text) → Keeps P (rate_parts chat user parts)
  unfolding rate_parts
  rate_parts-Keeps chat user [] = search rules
  rate_parts-Keeps chat user (_ ∷ []) = search rules
  rate_parts-Keeps chat user (_ ∷ _ ∷ []) = search rules
  rate_parts-Keeps chat user (_ ∷ id ∷ rating ∷ []) = rate-Keeps chat user id _
  rate_parts-Keeps chat user (_ ∷ _ ∷ _ ∷ _ ∷ _) = search rules

  press_review-Keeps : (q : CallbackQuery) (o : Option Text) → Keeps P (press_review q o)
  unfolding press_review
  press_review-Keeps q none = search rules
  press_review-Keeps q (some _) = search (rules, rate_parts-Keeps) depth 30

  press_buy-Keeps : (q : CallbackQuery) (o : Option Text) → Keeps P (press_buy q o)
  unfolding press_buy
  press_buy-Keeps q none = press_review-Keeps q _
  press_buy-Keeps q (some id) = search (rules, start_purchase-Keeps) depth 30

  pub handle_callback-Keeps : (q : CallbackQuery) → Keeps P (handle_callback q)
  unfolding handle_callback
  handle_callback-Keeps q = press_buy-Keeps q _
