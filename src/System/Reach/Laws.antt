-- ===== src/System/Reach/Laws.antt =====
-- What every step keeps, every reachable world has.
use streaming_bot.Prelude.{ℕ, ◌≤◌, ◌<◌, Text, true, false, any, ◌≡◌, arith}
use streaming_bot.Prelude.Tables.{count}
use streaming_bot.Exec.Triple.{state_of_Keeps}
use streaming_bot.World.{World, Db}
use streaming_bot.World.Calls.{Keeps-sql, send-db, time_now-db}
use streaming_bot.Storage.Contents
use streaming_bot.Storage.Purchases
use streaming_bot.App.IssueAccess.{Handler}
use streaming_bot.System.Reach.{
  Step, start, confirm, redeem, submit, request, work, publish, withdraw, seed, telegram, http,
  sync, pass, Reach, here, next, initial,
}
use streaming_bot.System.Sound.{IsSound, Sound, confirmations, has_grant, has_row, is_pending}
use streaming_bot.System.Sound.Statements.{
  advance-IsSound, upsert_row-IsSound, delete_row-IsSound, seed_row-IsSound,
}
use streaming_bot.System.Sound.Handlers.{
  keep-sql, keep-gets, keep-same, handle_start-Sound, handle_confirm-Sound, handle_use-Sound,
  handle_review-Sound,
}
use streaming_bot.System.Sound.Issue.{handle_request-Sound}
use streaming_bot.System.Sound.Outbox.{run_once-Sound}
use streaming_bot.System.Front.{IsServed, IsEdited}
use streaming_bot.System.Front.Server.{serve-Keeps}
use streaming_bot.Streaming.Sync.Kept.{sync-Keeps}
use streaming_bot.System.Front.Tables.{
  update-Kept, tables-IsEdited, stable-IsServed, stable-IsEdited,
}
use streaming_bot.System.Closed.{
  IsClosed, start-Kept, confirm-Kept, use-Kept, submit-Kept, request_review-Kept, run_once-Kept,
}

module _ (h : Handler) where
  module _ (P : Db → Type 0) (c : IsClosed P) where
    Step-closed : {w v : World} → Step h w v → P w.db → P v.db
    unfolding Contents.upsert Contents.delete_by_id Contents.ensure_demo_content
    Step-closed (start cmd w) = state_of_Keeps (start-Kept P c.stable cmd) w
    Step-closed (confirm e w) = state_of_Keeps (confirm-Kept P c.stable e) w
    Step-closed (redeem token w) = state_of_Keeps (use-Kept P c.stable h.sum256 h.cache token) w
    Step-closed (submit cmd w) = state_of_Keeps (submit-Kept P c.stable cmd) w
    Step-closed (request id w) = state_of_Keeps (request_review-Kept P c.stable h.has_bot id) w
    Step-closed (work w) = state_of_Keeps (run_once-Kept P c.stable h c.mark_published) w
    Step-closed (publish item w) =
        state_of_Keeps (Keeps-sql P (Contents.upsert_row item) (c.stable.upsert_content item)) w
    Step-closed (withdraw id w) =
        state_of_Keeps (Keeps-sql P (Contents.delete_row id) (c.stable.delete_content id)) w
    Step-closed (seed w) =
        state_of_Keeps
          (Keeps-sql P (Contents.seed_row Contents.demo_content)
            (c.stable.seed_content Contents.demo_content))
          w
    Step-closed (telegram b u w) =
        state_of_Keeps (update-Kept P (stable-IsServed P c.stable) (stable-IsEdited P c.stable) b u)
          w
    Step-closed (http srv r w) = state_of_Keeps (serve-Keeps (stable-IsServed P c.stable) srv r) w
    Step-closed (sync api client fuel price w) =
        state_of_Keeps (sync-Keeps P c.stable.upsert_content api client fuel price) w
    Step-closed (pass now clock entropy cache net w) = c.stable.advance now w.db

    -- A property that every statement keeps is never lost.
    pub Reach-closed : {w v : World} → P w.db → Reach h w v → P v.db
    Reach-closed p here = p
    Reach-closed p (next r s) = Step-closed s (Reach-closed p r)

  module _ (k : Text) (m : ℕ) where
    -- The handlers that the front calls.
    served : IsServed (Sound k m)
    unfolding Contents.get_by_id Contents.list_active Purchases.get_by_payload Purchases.select_one
    served = record {
      start = handle_start-Sound k m;
      confirm = handle_confirm-Sound k m;
      submit = handle_review-Sound k m;
      redeem = handle_use-Sound k m;
      get_content = λ id. keep-gets k m _;
      list_active = λ collate. keep-gets k m _;
      get_by_payload = λ payload. keep-gets k m _;
      sends = λ msg. keep-same k m _ (send-db msg);
      now = keep-same k m _ time_now-db;
    }

    edited : IsEdited (Sound k m)
    edited = tables-IsEdited (IsSound k m) (upsert_row-IsSound k m) (delete_row-IsSound k m)

    Step-Sound : {w v : World} → Step h w v → Sound k m w → Sound k m v
    unfolding Contents.upsert Contents.delete_by_id Contents.ensure_demo_content
    Step-Sound (start cmd w) = state_of_Keeps (handle_start-Sound k m cmd) w
    Step-Sound (confirm e w) = state_of_Keeps (handle_confirm-Sound k m e) w
    Step-Sound (redeem token w) = state_of_Keeps (handle_use-Sound k m h.sum256 h.cache token) w
    Step-Sound (submit cmd w) = state_of_Keeps (handle_review-Sound k m cmd) w
    Step-Sound (request id w) = state_of_Keeps (handle_request-Sound k m h.has_bot id) w
    Step-Sound (work w) = state_of_Keeps (run_once-Sound k h m) w
    Step-Sound (publish item w) =
        state_of_Keeps (keep-sql k m (Contents.upsert_row item) (upsert_row-IsSound k m item)) w
    Step-Sound (withdraw id w) =
        state_of_Keeps (keep-sql k m (Contents.delete_row id) (delete_row-IsSound k m id)) w
    Step-Sound (seed w) =
        state_of_Keeps
          (keep-sql k m (Contents.seed_row Contents.demo_content)
            (seed_row-IsSound k m Contents.demo_content))
          w
    Step-Sound (telegram b u w) = state_of_Keeps (update-Kept (IsSound k m) served edited b u) w
    Step-Sound (http srv r w) = state_of_Keeps (serve-Keeps served srv r) w
    Step-Sound (sync api client fuel price w) =
        state_of_Keeps (sync-Keeps (IsSound k m) (upsert_row-IsSound k m) api client fuel price) w
    Step-Sound (pass now clock entropy cache net w) = λ s. advance-IsSound k m now w.db s

    pub Reach-Sound : {w v : World} → Sound k m w → Reach h w v → Sound k m v
    Reach-Sound s here = s
    Reach-Sound s (next r st) = Step-Sound st (Reach-Sound s r)

  initial-Sound : (k : Text) → Sound k 0 initial
  unfolding any count
  initial-Sound k = ground arith

  pub Reach-IsSound : {w : World} (k : Text) → Reach h initial w → IsSound k 0 w.db
  Reach-IsSound k r = Reach-Sound k 0 (initial-Sound k) r

  -- Where calls do not overlap, each of them running to its end (with faults or without) before the
  -- next begins, the outbox holds at most one confirmation of a purchase, however often and in
  -- whatever order payments are delivered. Deliveries that overlap may leave two: `confirmed_twice`
  -- has the order of the turns.
  pub one_confirmation : {w : World} (k : Text) → Reach h initial w → confirmations k w.db ≤ 1
  one_confirmation k r = (Reach-IsSound k r).once

  -- In every reachable world, a purchase with a confirmation in the outbox has a row, and none of
  -- its rows is pending.
  confirmed_is_paid :
      {w : World} (k : Text)
      → Reach h initial w
      → 0 < confirmations k w.db
      → (has_row k w.db.purchases ≡ true) × (any (is_pending k) w.db.purchases ≡ false)
  confirmed_is_paid k r c = ((Reach-IsSound k r).known c, (Reach-IsSound k r).paid c)

  -- Where calls do not overlap, a purchase that has a grant has exactly one confirmation and a row,
  -- and none of its rows is pending.
  granted_is_paid :
      {w : World} (k : Text)
      → Reach h initial w
      → has_grant k w.db ≡ true
      → (confirmations k w.db ≡ 1)
        × (has_row k w.db.purchases ≡ true)
        × (any (is_pending k) w.db.purchases ≡ false)
  granted_is_paid k r g = ground (arith, Reach-IsSound k r)
