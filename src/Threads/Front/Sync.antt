-- ===== src/Threads/Front/Sync.antt =====
-- The synchronisation of the catalogue, as a thread.
use streaming_bot.Prelude.{
  ℕ, zero, suc, ◌+◌, Text, text_eq, List, [], ◌∷◌, Option, none, some, Bool, true, false,
  if◌then◌else◌,
}
use streaming_bot.Prelude.Int.{ℤ, pos}
use streaming_bot.Exec.{Error, Result, ok, err}
use streaming_bot.World.{Io}
use streaming_bot.Storage.Contents
use streaming_bot.Platform.Strings.{trim_space}
use streaming_bot.Streaming.Client.{Client, BunnyApi, Video, list_library_videos}
use streaming_bot.Streaming.Sync
use streaming_bot.Streaming.Sync.{Synced}
use streaming_bot.Threads.{Thread, one, branch, attempted, and_then}
use streaming_bot.Threads.Locals.{returned, raised_if, lifted}

unfoldable pub storing : (price : ℤ) (id : Text) (v : Video) → Thread (Sync.store_video price id v)
unfolding Sync.store_video
storing price id v = and_then (one (Contents.get_by_id id)) λ existing. one (Contents.upsert _)

unfoldable pub syncing_video : (price : ℤ) (v : Video) → Thread (Sync.sync_video price v)
unfolding Sync.sync_video
syncing_video price v =
    branch (text_eq (trim_space v.guid) []) (returned false)
      (and_then (storing price (trim_space v.guid) v) λ _. returned true)

unfoldable pub after_video :
    (n : ℕ) {more : Bool → Io Synced} (r : Result Bool)
    → ((b : Bool) → Thread (more b))
    → Thread (Sync.after_video n more r)
unfolding Sync.after_video
after_video n (err e) t = returned _
after_video n (ok b) t = t b

unfoldable pub syncing_videos :
    (price : ℤ) (n : ℕ) (vs : List Video) → Thread (Sync.sync_videos price n vs)
unfolding Sync.sync_videos
syncing_videos price n [] = returned _
syncing_videos price n (v ∷ vs) =
    and_then (attempted (syncing_video price v))
      λ r. after_video n r λ b. syncing_videos price (if b then suc n else n) vs

unfoldable pub after_videos :
    (e : Option Error) (last : Bool) (s : Synced) {more : Io (Option Synced)}
    → Thread more
    → Thread (Sync.after_videos e last s more)
unfolding Sync.after_videos
after_videos (some e) last s t = returned _
after_videos none true s t = returned _
after_videos none false s t = t

unfoldable pub after_page :
    (price : ℤ) (n : ℕ) {more : ℕ → Io (Option Synced)} (r : Result (List Video))
    → ((m : ℕ) → Thread (more m))
    → Thread (Sync.after_page price n more r)
unfolding Sync.after_page
after_page price n (err e) t = returned _
after_page price n (ok []) t = returned _
after_page price n (ok (v ∷ vs)) t =
    and_then (syncing_videos price n (v ∷ vs)) λ s. after_videos s.failure _ s (t s.items)

module _ (api : BunnyApi) (c : Client) where
  -- The request for a page, and its decoding.
  unfoldable pub listing_page : (page items : ℤ) → Thread (list_library_videos api c page items)
  unfolding list_library_videos
  listing_page page items = and_then (raised_if _ _) λ _. and_then (raised_if _ _) λ _.
      and_then (one (api.get _ c.api_key)) λ resp.
        and_then (raised_if _ _)
          λ _. and_then (lifted (api.decode_items resp.body)) λ videos. returned _

  unfoldable pub syncing_pages :
      (price : ℤ) (fuel page n : ℕ) → Thread (Sync.sync_pages api c price fuel page n)
  unfolding Sync.sync_pages
  syncing_pages price zero page n = returned none
  syncing_pages price (suc fuel) page n =
      and_then (attempted (listing_page (pos page) (pos 100)))
        λ r. after_page price n r λ m. syncing_pages price fuel (page + 1) m

  unfoldable pub syncing :
      (fuel : ℕ) (price : ℤ) → Thread (Sync.sync_library_content api c fuel price)
  unfolding Sync.sync_library_content
  syncing fuel price = syncing_pages (Sync.price_or_default price) fuel 1 0
