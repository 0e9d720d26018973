-- ===== src/Streaming/Sync/Kept.antt =====
-- The synchronisation of the catalogue writes to the table `content` alone.
use streaming_bot.Prelude.{
  ℕ, zero, suc, ◌+◌, Text, List, [], ◌∷◌, Option, none, some, Bool, true, false,
}
use streaming_bot.Prelude.Int.{ℤ}
use streaming_bot.Exec.{Error, Result, ok, err, lift, gets}
use streaming_bot.Exec.Triple.{Keeps, Keeps-of, Keeps-attempt, Triple-bind}
use streaming_bot.Exec.Keeps.{keeps_rules}
use streaming_bot.World.{World, Db, Io}
use streaming_bot.World.Calls.{Keeps-sql, Keeps-same_db}
use streaming_bot.Domain.Content.{Content}
use streaming_bot.Storage.Contents
use streaming_bot.Streaming.Client.{Client, Video, BunnyApi, list_library_videos}
use streaming_bot.Streaming.Sync.{
  Synced, store_video, sync_video, after_video, after_videos, after_page, sync_videos, sync_pages,
  sync_library_content,
}

module _ (P : Db → Type 0) where
  abbrev pub Kept : World → Type 0
  Kept w = P w.db

-- An assertion that the writing of an item keeps.
module _ (P : Db → Type 0)
    (stores : (price : ℤ) (id : Text) (v : Video) → Keeps (Kept P) (store_video price id v)) where
  sync_video-Keeps : (price : ℤ) (v : Video) → Keeps (Kept P) (sync_video price v)
  unfolding sync_video
  sync_video-Keeps price v = search (keeps_rules, stores) depth 30

  lift-Keeps : {A : Type 0} (r : Result A) → Keeps (Kept P) (lift r)
  unfolding lift
  lift-Keeps r = Keeps-of (λ w p. p)

  after_video-Keeps :
      (n : ℕ) (more : Bool → Io Synced) (r : Result Bool)
      → ((counted : Bool) → Keeps (Kept P) (more counted))
      → Keeps (Kept P) (after_video n more r)
  unfolding after_video
  after_video-Keeps n more (err e) h = search keeps_rules
  after_video-Keeps n more (ok counted) h = h counted

  sync_videos-Keeps :
      (price : ℤ) (n : ℕ) (vs : List Video) → Keeps (Kept P) (sync_videos price n vs)
  unfolding sync_videos
  sync_videos-Keeps price n [] = search keeps_rules
  sync_videos-Keeps price n (v ∷ vs) =
      Triple-bind (Keeps-attempt (sync_video-Keeps price v))
        λ r. after_video-Keeps n _ r (λ counted. sync_videos-Keeps price _ vs)

  after_videos-Keeps :
      (e : Option Error) (last : Bool) (s : Synced) (more : Io (Option Synced))
      → Keeps (Kept P) more
      → Keeps (Kept P) (after_videos e last s more)
  unfolding after_videos
  after_videos-Keeps (some e) last s more h = search keeps_rules
  after_videos-Keeps none true s more h = search keeps_rules
  after_videos-Keeps none false s more h = h

  after_page-Keeps :
      (price : ℤ) (n : ℕ) (more : ℕ → Io (Option Synced)) (r : Result (List Video))
      → ((m : ℕ) → Keeps (Kept P) (more m))
      → Keeps (Kept P) (after_page price n more r)
  unfolding after_page
  after_page-Keeps price n more (err e) h = search keeps_rules
  after_page-Keeps price n more (ok []) h = search keeps_rules
  after_page-Keeps price n more (ok (v ∷ vs)) h =
      Triple-bind (sync_videos-Keeps price n (v ∷ vs))
        λ s. after_videos-Keeps s.failure _ s (more s.items) (h s.items)

  module _ (api : BunnyApi) (c : Client) where
    get_page-Keeps : (url key : Text) → Keeps (Kept P) (api.get url key)
    get_page-Keeps url key = Keeps-same_db P _ (api.get-db url key)

    list-Keeps : (page size : ℤ) → Keeps (Kept P) (list_library_videos api c page size)
    unfolding list_library_videos
    list-Keeps page size = search (keeps_rules, get_page-Keeps, lift-Keeps) depth 30

    pub sync_pages-Keeps :
        (price : ℤ) (fuel page n : ℕ) → Keeps (Kept P) (sync_pages api c price fuel page n)
    unfolding sync_pages
    sync_pages-Keeps price zero page n = search keeps_rules
    sync_pages-Keeps price (suc fuel) page n =
        Triple-bind (Keeps-attempt (list-Keeps _ _))
          λ r. after_page-Keeps price n _ r (λ m. sync_pages-Keeps price fuel (page + 1) m)

    -- However the service and the database answer, and however many pages there are.
    pub sync-Keeps_of_stores :
        (fuel : ℕ) (price : ℤ) → Keeps (Kept P) (sync_library_content api c fuel price)
    unfolding sync_library_content
    sync-Keeps_of_stores fuel price = sync_pages-Keeps _ fuel 1 0

-- Reading keeps every assertion, so one that each item that is written keeps is kept.
module _ (P : Db → Type 0)
    (writes : (c : Content) (d : Db) → P d → P (Contents.upsert_row c d).1) where
  get-Keeps : (id : Text) → Keeps (Kept P) (Contents.get_by_id id)
  unfolding Contents.get_by_id gets
  get-Keeps id = Keeps-sql P _ (λ d p. p)

  upsert-Keeps : (c : Content) → Keeps (Kept P) (Contents.upsert c)
  unfolding Contents.upsert
  upsert-Keeps c = Keeps-sql P _ (writes c)

  store_video-Keeps : (price : ℤ) (id : Text) (v : Video) → Keeps (Kept P) (store_video price id v)
  unfolding store_video
  store_video-Keeps price id v = search (keeps_rules, get-Keeps, upsert-Keeps) depth 30

  pub sync-Keeps :
      (api : BunnyApi) (c : Client) (fuel : ℕ) (price : ℤ)
      → Keeps (Kept P) (sync_library_content api c fuel price)
  sync-Keeps api c fuel price = sync-Keeps_of_stores P store_video-Keeps api c fuel price
