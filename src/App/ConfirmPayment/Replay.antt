-- ===== src/App/ConfirmPayment/Replay.antt =====
-- A charge that was confirmed stays confirmed.
use streaming_bot.Prelude.{◌≡◌, Text, text_eq, List, [], ◌∷◌, ◌++◌, any, true, Bool, arith}
use streaming_bot.Exec.Ensures.{Ensures, Ensures-bind}
use streaming_bot.World.{Db, sql}
use streaming_bot.Domain.Payment.{Event}
use streaming_bot.Storage.Payments.{processed, insert_key, mark_processed}
use streaming_bot.App.ConfirmPayment.{confirm}

any-append_self :
    (p : Text → Bool) (l : List Text) (x : Text) → p x ≡ true → any p (l ++ x ∷ []) ≡ true
unfolding any
any-append_self p [] x h = ground arith
any-append_self p (y ∷ l) x h = ground (arith, any-append_self p l x h)

processed-insert_key : (key : Text) (d : Db) → processed key (insert_key key d).1 ≡ true
unfolding insert_key
processed-insert_key key d =
    ground (arith, any-append_self (λ k. text_eq k key) d.idempotency_keys key)

mark_processed-ok : (key : Text) → Ensures (λ _ w. processed key w.db ≡ true) (mark_processed key)
unfolding mark_processed sql
mark_processed-ok key = record { at = λ w a h. ground (arith, processed-insert_key key w.db) }

pub confirm-ok : (e : Event) → Ensures (λ _ w. processed e.charge_id w.db ≡ true) (confirm e)
unfolding confirm
confirm-ok e = search (Ensures-bind, mark_processed-ok) depth 20
