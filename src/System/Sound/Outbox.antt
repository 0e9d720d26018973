-- ===== src/System/Sound/Outbox.antt =====
-- A round of the outbox processor keeps the tables sound: the events that it fetches are
-- confirmations, so the links that it issues are for confirmed purchases.
use streaming_bot.Prelude.{
  ℕ, ◌≤◌, ◌<◌, Text, text_eq, List, [], ◌∷◌, Bool, true, ◌≡◌, refl, arith, any, map,
}
use streaming_bot.Prelude.Int.{pos}
use streaming_bot.Prelude.Tables.{count_pos_of_any}
use streaming_bot.Exec.{Result, ok, err, gets}
use streaming_bot.Exec.Triple.{
  Triple-bind, Triple-if, Triple-pure, Keeps, Keeps-attempt, Keeps-ignore, Triple_of_state,
  state_of_Keeps,
}
use streaming_bot.World
use streaming_bot.World.{World, Db, Io, sql}
use streaming_bot.World.Calls.{Triple-sql}
use streaming_bot.Storage.Outbox.{unpublished, mark_published, mark_published_row}
use streaming_bot.Storage.Outbox.Order.{any_of_any-pending_rows}
use streaming_bot.App.IssueAccess.{Handler}
use streaming_bot.Jobs.{OutboxEvent, to_job, after_issue, process_event, process_all, run_once}
use streaming_bot.System.Sound.{IsSound, Sound, confirmations}
use streaming_bot.System.Sound.Statements.{mark_published_row-IsSound}
use streaming_bot.System.Sound.Handlers.{keep-sql}
use streaming_bot.System.Sound.Issue.{handle_issue-Sound}

module _ (k : Text) where
  -- An event of the purchase `k` is among these.
  abbrev pub mentions : List OutboxEvent → Bool
  mentions es = any (λ e. text_eq e.purchase_id k) es

  pub any-map-to_job :
      (es : List World.OutboxEvent)
      → mentions (map to_job es) ≡ any (λ e. text_eq e.purchase_id k) es
  unfolding any
  any-map-to_job [] = refl
  any-map-to_job (e ∷ es) = ground (arith, any-map-to_job es)

  module _ (h : Handler) where
    after_issue-Sound :
        (m : ℕ) (r : Result (Unit {0})) (e : OutboxEvent) → Keeps (Sound k m) (after_issue h r e)
    unfolding after_issue mark_published
    after_issue-Sound m (ok _) e =
        Keeps-ignore (keep-sql k m (mark_published_row e.id) (mark_published_row-IsSound k m e.id))
    after_issue-Sound m (err _) e = Triple-pure tt (λ w x. x)

    process_event-Sound :
        (m : ℕ) (e : OutboxEvent)
        → (e.purchase_id ≡ k → 0 < m)
        → Keeps (Sound k m) (process_event h e)
    unfolding process_event
    process_event-Sound m e confirmed =
        Triple-if _ _ _
          (λ _.
            Triple-bind (Keeps-attempt (handle_issue-Sound k m h e.purchase_id confirmed))
              λ r. after_issue-Sound m r e)
          (λ _. Triple-pure tt (λ w x. x))

    process_all-Sound :
        (m : ℕ) (es : List OutboxEvent)
        → (mentions es ≡ true → 0 < m)
        → Keeps (Sound k m) (process_all h es)
    unfolding process_all any
    process_all-Sound m [] confirmed = Triple-pure tt (λ w x. x)
    process_all-Sound m (e ∷ es) confirmed =
        Triple-bind (process_event-Sound m e (λ same. confirmed (ground arith)))
          λ _. process_all-Sound m es (λ there. confirmed (ground arith))

    IsSound-raise : (m : ℕ) (d : Db) → IsSound k m d → IsSound k (confirmations k d) d
    IsSound-raise m d s = ground arith

    IsSound-lower : (m n : ℕ) (d : Db) → m ≤ n → IsSound k n d → IsSound k m d
    IsSound-lower m n d le s = ground arith

    -- A round of the processor, whatever becomes of each event.
    pub run_once-Sound : (m : ℕ) → Keeps (Sound k m) (run_once h)
    unfolding run_once unpublished gets
    run_once-Sound m =
        Triple-bind
          (Triple-sql (IsSound k m)
            (λ es d.
              IsSound k m d
              × (any (λ e. text_eq e.purchase_id k) es ≡ true → 0 < confirmations k d))
            (IsSound k m) (λ es d x. x.0) (λ d x. x)
            (record {
              at = λ d x. (
                x,
                λ there.
                    count_pos_of_any _ d.outbox_events (any_of_any-pending_rows _ (pos 20) d there),
              );
            }))
          λ es. Triple_of_state λ w x. IsSound-lower m (confirmations k w.db) _ x.0.kept (
            state_of_Keeps
              (process_all-Sound (confirmations k w.db) (map to_job es)
                (λ there. x.1 (subst_mentions es there)))
              w (IsSound-raise m w.db x.0))
      where
        subst_mentions :
            (es : List World.OutboxEvent)
            → mentions (map to_job es) ≡ true
            → any (λ e. text_eq e.purchase_id k) es ≡ true
        subst_mentions es there = ground (arith, any-map-to_job es)
