-- ===== src/Threads/Quiet/Front/Sync.antt =====
-- The synchronisation of the catalogue, beside other threads.
use streaming_bot.Prelude.{
  ℕ, zero, suc, ◌+◌, Text, List, [], ◌∷◌, Option, none, some, Bool, true, false, if◌then◌else◌,
}
use streaming_bot.Prelude.Int.{ℤ, pos}
use streaming_bot.Exec.{Error, Result, ok, err}
use streaming_bot.World.{Io}
use streaming_bot.Storage.Contents
use streaming_bot.Streaming.Client.{Client, BunnyApi, Video}
use streaming_bot.Streaming.Sync.{Synced}
use streaming_bot.Threads.{Thread}
use streaming_bot.Threads.Front.Sync.{
  storing, syncing_video, after_video, syncing_videos, after_videos, after_page, listing_page,
  syncing_pages, syncing,
}
use streaming_bot.Threads.Rely.{Rely}
use streaming_bot.Threads.Quiet.Allows.{Allows}
use streaming_bot.Threads.Quiet.{
  IsQuiet, quiet_rules, returned-IsQuiet, attempted-IsQuiet, and_then-IsQuiet,
}

module _ {R : Rely} (a : Allows R) where
  storing-IsQuiet : (price : ℤ) (id : Text) (v : Video) → IsQuiet R (storing price id v)
  unfolding storing Contents.get_by_id Contents.upsert
  storing-IsQuiet price id v = search (quiet_rules, a.upsert_content) depth 30

  syncing_video-IsQuiet : (price : ℤ) (v : Video) → IsQuiet R (syncing_video price v)
  unfolding syncing_video
  syncing_video-IsQuiet price v = search (quiet_rules, storing-IsQuiet) depth 30

  after_video-IsQuiet :
      (n : ℕ) {more : Bool → Io Synced} (r : Result Bool) {t : (b : Bool) → Thread (more b)}
      → ((b : Bool) → IsQuiet R (t b))
      → IsQuiet R (after_video n r t)
  unfolding after_video
  after_video-IsQuiet n (err e) q = returned-IsQuiet _
  after_video-IsQuiet n (ok b) q = q b

  syncing_videos-IsQuiet :
      (price : ℤ) (n : ℕ) (vs : List Video) → IsQuiet R (syncing_videos price n vs)
  unfolding syncing_videos
  syncing_videos-IsQuiet price n [] = returned-IsQuiet _
  syncing_videos-IsQuiet price n (v ∷ vs) =
      and_then-IsQuiet (attempted-IsQuiet (syncing_video-IsQuiet price v))
        λ r. after_video-IsQuiet n r λ b. syncing_videos-IsQuiet price (if b then suc n else n) vs

  after_videos-IsQuiet :
      (e : Option Error) (last : Bool) (s : Synced) {more : Io (Option Synced)} {t : Thread more}
      → IsQuiet R t
      → IsQuiet R (after_videos e last s t)
  unfolding after_videos
  after_videos-IsQuiet (some e) last s q = returned-IsQuiet _
  after_videos-IsQuiet none true s q = returned-IsQuiet _
  after_videos-IsQuiet none false s q = q

  after_page-IsQuiet :
      (price : ℤ) (n : ℕ) {more : ℕ → Io (Option Synced)} (r : Result (List Video))
      {t : (m : ℕ) → Thread (more m)}
      → ((m : ℕ) → IsQuiet R (t m))
      → IsQuiet R (after_page price n r t)
  unfolding after_page
  after_page-IsQuiet price n (err e) q = returned-IsQuiet _
  after_page-IsQuiet price n (ok []) q = returned-IsQuiet _
  after_page-IsQuiet price n (ok (v ∷ vs)) q =
      and_then-IsQuiet (syncing_videos-IsQuiet price n (v ∷ vs))
        λ s. after_videos-IsQuiet s.failure _ s (q s.items)

  module _ (api : BunnyApi) (c : Client) where
    listing_page-IsQuiet : (page items : ℤ) → IsQuiet R (listing_page api c page items)
    unfolding listing_page
    listing_page-IsQuiet page items = search (quiet_rules, api.get-db) depth 30

    syncing_pages-IsQuiet :
        (price : ℤ) (fuel page n : ℕ) → IsQuiet R (syncing_pages api c price fuel page n)
    unfolding syncing_pages
    syncing_pages-IsQuiet price zero page n = returned-IsQuiet _
    syncing_pages-IsQuiet price (suc fuel) page n =
        and_then-IsQuiet (attempted-IsQuiet (listing_page-IsQuiet (pos page) (pos 100)))
          λ r. after_page-IsQuiet price n r λ m. syncing_pages-IsQuiet price fuel (page + 1) m

    pub syncing-IsQuiet : (fuel : ℕ) (price : ℤ) → IsQuiet R (syncing api c fuel price)
    unfolding syncing
    syncing-IsQuiet fuel price = syncing_pages-IsQuiet _ fuel 1 0
