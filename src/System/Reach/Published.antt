-- ===== src/System/Reach/Published.antt =====
-- No confirmation leaves the queue without its link, in any reachable world.
use streaming_bot.Prelude.{Text, true, any, ◌≡◌, refl, arith}
use streaming_bot.Prelude.Tables.{count}
use streaming_bot.Exec.Triple.{state_of_Keeps}
use streaming_bot.World.{World, Db}
use streaming_bot.World.Calls.{Keeps-sql}
use streaming_bot.Storage.Contents
use streaming_bot.App.IssueAccess.{Handler}
use streaming_bot.System.Reach.{
  Step, start, confirm, redeem, submit, request, work, publish, withdraw, seed, telegram, http,
  sync, pass, Reach, here, next, initial,
}
use streaming_bot.System.Reach.Laws.{Reach-closed}
use streaming_bot.System.Sound.{has_grant}
use streaming_bot.System.Closed.{
  IsStable, start-Kept, confirm-Kept, use-Kept, submit-Kept, request_review-Kept,
}
use streaming_bot.System.Front.Server.{serve-Keeps}
use streaming_bot.Streaming.Sync.Kept.{sync-Keeps}
use streaming_bot.System.Front.Tables.{update-Kept, stable-IsServed, stable-IsEdited}
use streaming_bot.System.Delivered.{
  is_published, IsDelivered, IsDelivered-IsStable, HasOneEvent, HasOneEvent-IsClosed,
}
use streaming_bot.System.Delivered.Round.{run_once-IsDelivered}

module _ (h : Handler) (k : Text) where
  abbrev P : Db → Type 0
  P = IsDelivered k

  c : IsStable P
  c = IsDelivered-IsStable k

  Step-IsDelivered :
      {w v : World}
      → ((id : Text) → HasOneEvent id w.db)
      → Step h w v
      → IsDelivered k w.db
      → IsDelivered k v.db
  unfolding Contents.upsert Contents.delete_by_id Contents.ensure_demo_content
  Step-IsDelivered one (start cmd w) = state_of_Keeps (start-Kept P c cmd) w
  Step-IsDelivered one (confirm e w) = state_of_Keeps (confirm-Kept P c e) w
  Step-IsDelivered one (redeem token w) = state_of_Keeps (use-Kept P c h.sum256 h.cache token) w
  Step-IsDelivered one (submit cmd w) = state_of_Keeps (submit-Kept P c cmd) w
  Step-IsDelivered one (request id w) = state_of_Keeps (request_review-Kept P c h.has_bot id) w
  Step-IsDelivered one (work w) = λ x. run_once-IsDelivered h k w x one
  Step-IsDelivered one (publish item w) =
      state_of_Keeps (Keeps-sql P (Contents.upsert_row item) (c.upsert_content item)) w
  Step-IsDelivered one (withdraw id w) =
      state_of_Keeps (Keeps-sql P (Contents.delete_row id) (c.delete_content id)) w
  Step-IsDelivered one (seed w) =
      state_of_Keeps
        (Keeps-sql P (Contents.seed_row Contents.demo_content)
          (c.seed_content Contents.demo_content))
        w
  Step-IsDelivered one (telegram b u w) =
      state_of_Keeps (update-Kept P (stable-IsServed P c) (stable-IsEdited P c) b u) w
  Step-IsDelivered one (http srv r w) = state_of_Keeps (serve-Keeps (stable-IsServed P c) srv r) w
  Step-IsDelivered one (sync api client fuel price w) =
      state_of_Keeps (sync-Keeps P c.upsert_content api client fuel price) w
  Step-IsDelivered one (pass now clock entropy cache net w) = c.advance now w.db

  one_event : {w : World} (id : Text) → Reach h initial w → HasOneEvent id w.db
  unfolding count
  one_event id r = Reach-closed h (HasOneEvent id) (HasOneEvent-IsClosed id) (omega arith) r

  Reach-IsDelivered : {w : World} → Reach h initial w → IsDelivered k w.db
  unfolding any
  Reach-IsDelivered here = refl
  Reach-IsDelivered (next r s) = Step-IsDelivered (λ id. one_event id r) s (Reach-IsDelivered r)

  -- In every reachable world, a purchase with a published confirmation has a grant.
  pub published_is_granted :
      {w : World}
      → Reach h initial w
      → any (is_published k) w.db.outbox_events ≡ true
      → has_grant k w.db ≡ true
  published_is_granted r p = ground (arith, Reach-IsDelivered r)
