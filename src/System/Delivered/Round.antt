-- ===== src/System/Delivered/Round.antt =====
-- A round of the outbox processor publishes an event only after its link.
use streaming_bot.Prelude.{
  Text, Text-discrete, text_eq, List, [], ◌∷◌, map, Bool, true, false, not, ◌&&◌, any, ◌≡◌, ◌≢◌,
  refl, arith, update_where,
}
use streaming_bot.Prelude.Int.{pos}
use streaming_bot.Prelude.Tables.{count-only, any_mono}
use streaming_bot.Exec.{Result, ok, err, gets, attempt}
use streaming_bot.Exec.Triple.{
  Triple, Triple-bind, Triple-if, Triple-pure, Triple-weaken, Triple-ignore, state_of_Keeps,
  state_of_Triple,
}
use streaming_bot.World
use streaming_bot.World.{World, Db, Io, sql}
use streaming_bot.World.Calls.{Triple-sql, Keeps-sql}
use streaming_bot.Storage.Outbox.{mark_published, mark_published_row, unpublished, pending_rows}
use streaming_bot.Storage.Outbox.Order.{any_of_any-pending_rows}
use streaming_bot.App.IssueAccess
use streaming_bot.App.IssueAccess.{Handler}
use streaming_bot.Jobs.{OutboxEvent, to_job, after_issue, process_event, process_all, run_once}
use streaming_bot.System.Closed.{IsStable, PublishKeeps, issue-Kept}
use streaming_bot.System.Closed.Facts.{HasGrant}
use streaming_bot.System.OneLink.{handle-HasGrant}
use streaming_bot.System.Delivered.{
  is_published, IsDelivered, IsDelivered-IsStable, IsOwn, IsOwn-IsClosed, HasOneEvent,
}

-- Two assertions at once.
both-IsStable : (P Q : Db → Type 0) → IsStable P → IsStable Q → IsStable (λ d. P d × Q d)
both-IsStable P Q p q = record {
  insert_purchase = λ r d h. (p.insert_purchase r d h.0, q.insert_purchase r d h.1);
  update_purchase = λ r d h. (p.update_purchase r d h.0, q.update_purchase r d h.1);
  insert_grant = λ g d h. (p.insert_grant g d h.0, q.insert_grant g d h.1);
  mark_used = λ id d h. (p.mark_used id d h.0, q.mark_used id d h.1);
  insert_review = λ r d h. (p.insert_review r d h.0, q.insert_review r d h.1);
  insert_event = λ e d h. (p.insert_event e d h.0, q.insert_event e d h.1);
  insert_key = λ j d h. (p.insert_key j d h.0, q.insert_key j d h.1);
  insert_outbox = λ i pid d h. (p.insert_outbox i pid d h.0, q.insert_outbox i pid d h.1);
  upsert_content = λ c d h. (p.upsert_content c d h.0, q.upsert_content c d h.1);
  delete_content = λ i d h. (p.delete_content i d h.0, q.delete_content i d h.1);
  seed_content = λ c d h. (p.seed_content c d h.0, q.seed_content c d h.1);
  advance = λ now d h. (p.advance now d h.0, q.advance now d h.1);
}

-- Each of these events is in the table, and its id is its own.
abbrev AreOwn : List OutboxEvent → Db → Type 0
AreOwn [] d = Unit {0}
AreOwn (e ∷ es) d = IsOwn e.id e.purchase_id d × AreOwn es d

AreOwn-IsStable : (es : List OutboxEvent) → IsStable (AreOwn es)
AreOwn-IsStable [] = record {
  insert_purchase = λ r d h. tt;
  update_purchase = λ r d h. tt;
  insert_grant = λ g d h. tt;
  mark_used = λ id d h. tt;
  insert_review = λ r d h. tt;
  insert_event = λ e d h. tt;
  insert_key = λ j d h. tt;
  insert_outbox = λ i pid d h. tt;
  upsert_content = λ c d h. tt;
  delete_content = λ i d h. tt;
  seed_content = λ c d h. tt;
  advance = λ now d h. tt;
}
AreOwn-IsStable (e ∷ es) =
    both-IsStable (IsOwn e.id e.purchase_id) (AreOwn es) (IsOwn-IsClosed e.id e.purchase_id).stable
      (AreOwn-IsStable es)

publish-AreOwn : (es : List OutboxEvent) → PublishKeeps (AreOwn es)
publish-AreOwn [] id d h = tt
publish-AreOwn (e ∷ es) id d h =
    ((IsOwn-IsClosed e.id e.purchase_id).mark_published id d h.0, publish-AreOwn es id d h.1)

-- Marking an event of another purchase.
publish-other :
    (k id pid : Text) (l : List World.OutboxEvent)
    → pid ≢ k
    → any (λ e. text_eq e.id id && not (text_eq e.purchase_id pid)) l ≡ false
    → any
        (is_published k)
        (update_where (λ e. text_eq e.id id) (λ e. record e { published = true }) l)
      ≡ any (is_published k) l
unfolding any update_where
publish-other k id pid [] other own = refl
publish-other k id pid (e ∷ l) other own = ground (arith, publish-other k id pid l other)

publish-IsDelivered :
    (k id pid : Text) (d : Db)
    → IsDelivered k d
    → IsOwn id pid d
    → HasGrant pid d
    → IsDelivered k (mark_published_row id d).1
unfolding mark_published_row
publish-IsDelivered k id pid d delivered own granted = elim (Text-discrete pid k) [
  | yes same ↦ ground arith
  | no other ↦ ground (arith, publish-other k id pid d.outbox_events other own.1)
]

publish-HasGrant : (pid : Text) → PublishKeeps (HasGrant pid)
unfolding mark_published_row
publish-HasGrant pid id d x = x

module _ (h : Handler) (k : Text) where
  abbrev Held : List OutboxEvent → Db → Type 0
  Held es d = IsDelivered k d × AreOwn es d

  Held-IsStable : (es : List OutboxEvent) → IsStable (Held es)
  Held-IsStable es =
      both-IsStable (IsDelivered k) (AreOwn es) (IsDelivered-IsStable k) (AreOwn-IsStable es)

  issue-Held :
      (es : List OutboxEvent) (pid : Text)
      → Triple
          (λ w. Held es w.db)
          (attempt (IssueAccess.handle h pid))
          (λ r w. Held es w.db × (r ≡ ok tt → HasGrant pid w.db))
          (λ w. Held es w.db)
  unfolding attempt
  issue-Held es pid = record {
    at = λ w x. (
      state_of_Keeps (issue-Kept (Held es) (Held-IsStable es) h pid) w x,
      λ e. handle-HasGrant h pid w e,
    );
  }

  after_issue-Held :
      (e : OutboxEvent) (es : List OutboxEvent) (r : Result (Unit {0}))
      → Triple
          (λ w. Held (e ∷ es) w.db × (r ≡ ok tt → HasGrant e.purchase_id w.db))
          (after_issue h r e)
          (λ _ w. Held (e ∷ es) w.db)
          (λ w. Held (e ∷ es) w.db)
  unfolding after_issue mark_published
  after_issue-Held e es (ok a) = Triple-ignore (
      Triple-weaken (λ w x. (x.0, x.1 refl)) (λ a w x. x.0) (λ w x. x.0)
        (Keeps-sql (λ d. Held (e ∷ es) d × HasGrant e.purchase_id d) (mark_published_row e.id)
          (λ d x. (
            (
              publish-IsDelivered k e.id e.purchase_id d x.0.0 x.0.1.0 x.1,
              publish-AreOwn (e ∷ es) e.id d x.0.1,
            ),
            publish-HasGrant e.purchase_id e.id d x.1,
          ))))
  after_issue-Held e es (err x) = Triple-pure tt (λ w x. x.0)

  process_all-Held :
      (es : List OutboxEvent)
      → Triple
          (λ w. Held es w.db)
          (process_all h es)
          (λ _ w. IsDelivered k w.db)
          (λ w. IsDelivered k w.db)
  unfolding process_all process_event
  process_all-Held [] = Triple-pure tt (λ w x. x.0)
  process_all-Held (e ∷ es) =
      Triple-bind
        (Triple-if _ _ _
          (λ _.
            Triple-weaken (λ w x. x) (λ a w x. x) (λ w x. x.0)
              (Triple-bind (issue-Held (e ∷ es) e.purchase_id) λ r. after_issue-Held e es r))
          (λ _. Triple-pure tt (λ w x. x)))
        λ _. Triple-weaken (λ w x. (x.0, x.1.1)) (λ a w x. x) (λ w x. x) (process_all-Held es)

  -- Rows of the table are events with ids of their own.
  rows-AreOwn :
      (es : List World.OutboxEvent) (d : Db)
      → ((id : Text) → HasOneEvent id d)
      → ((q : World.OutboxEvent → Bool) → any q es ≡ true → any q d.outbox_events ≡ true)
      → AreOwn (map to_job es) d
  unfolding any
  rows-AreOwn [] d one inside = tt
  rows-AreOwn (e ∷ es) d one inside = (
    (
      any_mono (λ f. text_eq f.id e.id && text_eq f.purchase_id e.purchase_id)
          (λ f. text_eq f.id e.id) d.outbox_events (λ x p. ground arith) there,
      count-only (λ f. text_eq f.id e.id) (λ f. text_eq f.purchase_id e.purchase_id) d.outbox_events
          (one e.id) there,
    ),
    rows-AreOwn es d one (λ q p. inside q (ground arith)),
  )
    where
      there :
          any (λ f. text_eq f.id e.id && text_eq f.purchase_id e.purchase_id) d.outbox_events ≡ true
      there = inside (λ f. text_eq f.id e.id && text_eq f.purchase_id e.purchase_id) (ground arith)

  run_once-Held :
      Triple
        (λ w. IsDelivered k w.db × ((id : Text) → HasOneEvent id w.db))
        (run_once h)
        (λ _ w. IsDelivered k w.db)
        (λ w. IsDelivered k w.db)
  unfolding run_once unpublished gets
  run_once-Held =
      Triple-bind
        (Triple-sql (λ d. IsDelivered k d × ((id : Text) → HasOneEvent id d))
          (λ es. Held (map to_job es)) (IsDelivered k) (λ es d x. x.0) (λ d x. x.0)
          (record {
            at = λ d x. (
              x.0,
              rows-AreOwn (pending_rows (pos 20) d) d x.1
                  (λ q. any_of_any-pending_rows q (pos 20) d),
            );
          }))
        λ es. process_all-Held (map to_job es)

  -- A round, from tables where every event has its own id.
  pub run_once-IsDelivered :
      (w : World)
      → IsDelivered k w.db
      → ((id : Text) → HasOneEvent id w.db)
      → IsDelivered k (run_once h w).1.db
  run_once-IsDelivered w delivered one = state_of_Triple run_once-Held w (delivered, one)
