-- ===== src/Storage/Outbox/Order.antt =====
-- Every row that `Unpublished` returns is a row of the table.
use streaming_bot.Prelude.{List, [], ◌∷◌, Bool, true, not, ◌≡◌, any, arith}
use streaming_bot.Prelude.Int.{ℤ}
use streaming_bot.Prelude.Tables.{any_of_any-select, any_of_any-take}
use streaming_bot.World.{Db, OutboxEvent}
use streaming_bot.Storage.Outbox.{
  insert_by_created, order_by_created, pending_rows, limit_or_default,
}

module _ (q : OutboxEvent → Bool) where
  any_of_any-insert :
      (e : OutboxEvent) (l : List OutboxEvent)
      → any q (insert_by_created e l) ≡ true
      → any q (e ∷ l) ≡ true
  unfolding any insert_by_created
  any_of_any-insert e [] h = h
  any_of_any-insert e (f ∷ l) h = ground (arith, any_of_any-insert e l)

  any_of_any-order : (l : List OutboxEvent) → any q (order_by_created l) ≡ true → any q l ≡ true
  unfolding any order_by_created
  any_of_any-order [] h = h
  any_of_any-order (e ∷ l) h =
      ground (arith, any_of_any-insert e (order_by_created l) h, any_of_any-order l)

  pub any_of_any-pending_rows :
      (limit : ℤ) (d : Db) → any q (pending_rows limit d) ≡ true → any q d.outbox_events ≡ true
  any_of_any-pending_rows limit d h =
      any_of_any-select q (λ e. not e.published) d.outbox_events
        (any_of_any-order _ (any_of_any-take q (limit_or_default limit) _ h))
