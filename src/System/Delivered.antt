-- ===== src/System/Delivered.antt =====
-- An event leaves the queue only when its link is issued.
pub mod Round
use streaming_bot.Prelude.{
  ℕ, ◌≤◌, Text, text_eq, List, [], ◌∷◌, map, Bool, true, false, not, ◌&&◌, any, ◌≡◌, ◌≢◌, refl,
  arith, ap, ◌∙◌, update_where, if◌then◌else◌,
}
use streaming_bot.Prelude.Int.{pos}
use streaming_bot.Prelude.Tables.{
  any-append, any-update_where_same, count, count-append, count-any, count-only,
  count-update_where_same,
}
use streaming_bot.Exec.{Result, ok, err, ◌>>=◌, pure, gets, attempt}
use streaming_bot.Exec.Triple.{
  Triple, Triple-bind, Triple-if, Triple-pure, Triple-weaken, Keeps, Keeps-of, Keeps-ignore,
  Triple-ignore, Triple_of_state, state_of_Keeps,
}
use streaming_bot.World
use streaming_bot.World.{World, Db, Io, sql}
use streaming_bot.World.Calls.{Triple-sql, Keeps-sql}
use streaming_bot.Storage.Purchases
use streaming_bot.Storage.Contents
use streaming_bot.Storage.Grants
use streaming_bot.Storage.Reviews
use streaming_bot.Storage.Payments
use streaming_bot.Storage.Outbox
use streaming_bot.Storage.Outbox.Order.{any_of_any-pending_rows}
use streaming_bot.App.IssueAccess
use streaming_bot.App.IssueAccess.{Handler}
use streaming_bot.Jobs.{OutboxEvent, to_job, after_issue, process_event, process_all, run_once}
use streaming_bot.System.Sound.{has_grant}
use streaming_bot.System.Closed.{IsStable, IsClosed, issue-Kept}
use streaming_bot.System.Closed.Facts.{HasGrant}
use streaming_bot.System.OneLink.{handle-HasGrant}

-- A published confirmation of the purchase is there.
abbrev pub is_published : Text → World.OutboxEvent → Bool
is_published k e = text_eq e.purchase_id k && e.published

-- No confirmation of the purchase is published unless the purchase has a grant.
abbrev pub IsDelivered : Text → Db → Type 0
IsDelivered k d = (any (is_published k) d.outbox_events && not (has_grant k d)) ≡ false

pub IsDelivered-IsStable : (k : Text) → IsStable (IsDelivered k)
unfolding Purchases.insert_row Purchases.update_row Grants.insert_row Grants.mark_used_row
    Reviews.insert_row Payments.insert_event Payments.insert_key Outbox.insert_row
    Contents.upsert_row Contents.delete_row Contents.seed_row
IsDelivered-IsStable k = record {
  insert_purchase = λ r d h. ground arith;
  update_purchase = λ r d h. ground arith;
  insert_grant =
      λ g d h. ground (arith, any-append (λ q. text_eq q.purchase_id k) d.access_grants g);
  mark_used = λ id d h.
      ap (λ b. any (is_published k) d.outbox_events && not b)
        (any-update_where_same (λ q. text_eq q.purchase_id k) _ _ d.access_grants (λ x e. refl))
      ∙ h;
  insert_review = λ r d h. ground arith;
  insert_event = λ e d h. ground arith;
  insert_key = λ j d h. ground arith;
  insert_outbox = λ id pid d h.
      ground (arith, any-append (is_published k) d.outbox_events (Outbox.new_event id pid d.now));
  upsert_content = λ c d h. ground arith;
  delete_content = λ id d h. h;
  seed_content = λ c d h. ground arith;
  advance = λ now d h. h;
}

-- The event is there, and stands for this purchase alone.
abbrev IsOwn : Text → Text → Db → Type 0
IsOwn id pid d =
    (any (λ e. text_eq e.id id) d.outbox_events ≡ true)
    × (any (λ e. text_eq e.id id && not (text_eq e.purchase_id pid)) d.outbox_events ≡ false)

IsOwn-IsClosed : (id pid : Text) → IsClosed (IsOwn id pid)
unfolding Purchases.insert_row Purchases.update_row Grants.insert_row Grants.mark_used_row
    Reviews.insert_row Payments.insert_event Payments.insert_key Outbox.insert_row
    Outbox.mark_published_row Contents.upsert_row Contents.delete_row Contents.seed_row
IsOwn-IsClosed id pid = record {
  stable = record {
    insert_purchase = λ r d h. ground arith;
    update_purchase = λ r d h. ground arith;
    insert_grant = λ g d h. ground arith;
    mark_used = λ i d h. h;
    insert_review = λ r d h. ground arith;
    insert_event = λ e d h. ground arith;
    insert_key = λ j d h. ground arith;
    insert_outbox = λ i p d h. ground (
      arith,
      any-append (λ e. text_eq e.id id) d.outbox_events (Outbox.new_event i p d.now),
      any-append (λ e. text_eq e.id id && not (text_eq e.purchase_id pid)) d.outbox_events
          (Outbox.new_event i p d.now),
    );
    upsert_content = λ c d h. ground arith;
    delete_content = λ i d h. h;
    seed_content = λ c d h. ground arith;
    advance = λ now d h. h;
  };
  mark_published = λ i d h. (
    any-update_where_same (λ e. text_eq e.id id) _ _ d.outbox_events (λ x e. refl) ∙ h.0,
    any-update_where_same _ _ _ d.outbox_events (λ x e. refl) ∙ h.1,
  );
}

-- An event has its own id.
abbrev pub HasOneEvent : Text → Db → Type 0
HasOneEvent id d = count (λ e. text_eq e.id id) d.outbox_events ≤ 1

pub HasOneEvent-IsClosed : (id : Text) → IsClosed (HasOneEvent id)
unfolding Purchases.insert_row Purchases.update_row Grants.insert_row Grants.mark_used_row
    Reviews.insert_row Payments.insert_event Payments.insert_key Outbox.insert_row
    Outbox.mark_published_row Contents.upsert_row Contents.delete_row Contents.seed_row
HasOneEvent-IsClosed id = record {
  stable = record {
    insert_purchase = λ r d h. ground arith;
    update_purchase = λ r d h. ground arith;
    insert_grant = λ g d h. ground arith;
    mark_used = λ i d h. h;
    insert_review = λ r d h. ground arith;
    insert_event = λ e d h. ground arith;
    insert_key = λ j d h. ground arith;
    insert_outbox = λ i p d h. ground (
      arith,
      count-append (λ e. text_eq e.id id) d.outbox_events (Outbox.new_event i p d.now),
      count-any (λ e. text_eq e.id id) d.outbox_events,
    );
    upsert_content = λ c d h. ground arith;
    delete_content = λ i d h. h;
    seed_content = λ c d h. ground arith;
    advance = λ now d h. h;
  };
  mark_published = λ i d h.
      rw
        (count-update_where_same (λ e. text_eq e.id id) (λ e. text_eq e.id i)
          (λ e. record e { published = true }) d.outbox_events (λ x e. refl))
        h;
}
