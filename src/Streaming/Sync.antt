-- ===== src/Streaming/Sync.antt =====
-- streaming/sync.go. The loop over the pages runs on fuel; Streaming/Sync/Paging has how much is
-- enough.
pub mod Kept
pub mod Paging
pub mod Terms
use streaming_bot.Prelude.{
  ℕ, zero, suc, ◌+◌, Text, text, text_eq, List, [], ◌∷◌, ◌++◌, Option, none, some, Bool, true,
  false, length, ltb, if◌then◌else◌,
}
use streaming_bot.Prelude.Int.{ℤ, pos, ltb_ℤ}
use streaming_bot.Exec.{Error, Result, ok, err, ◌>>=◌, ◌>>◌, pure, attempt}
use streaming_bot.World.{Io}
use streaming_bot.Domain.Content.{Content}
use streaming_bot.Storage.Contents
use streaming_bot.Platform.Strings.{trim_space}
use streaming_bot.Streaming.Client.{Client, Video, BunnyApi, list_library_videos}

-- `fallback`
abbrev pub fallback : Text → Text → Text
fallback v fb = if text_eq (trim_space v) [] then fb else v

-- The item of a video, before what the catalogue has is looked at.
abbrev pub fresh_item : ℤ → Text → Video → Content
fresh_item price id v = record {
  id = id;
  external_ref = id;
  title = fallback v.title (text "Video " ++ id);
  description = trim_space v.description;
  price_stars = price;
  active = true;
}

-- `if existing != nil`
abbrev pub merged : Option Content → Content → Content
merged none item = item
merged (some existing) item = record item {
  price_stars = existing.price_stars;
  active = existing.active;
  description = if text_eq existing.description [] then item.description else existing.description;
}

unfoldable pub store_video : ℤ → Text → Video → Io Unit
store_video price id v = do
  existing ← Contents.get_by_id id
  Contents.upsert (merged existing (fresh_item price id v))

-- One round of the inner loop: whether it counts.
unfoldable pub sync_video : ℤ → Video → Io Bool
sync_video price v =
    if text_eq (trim_space v.guid) []
    then pure false
    else (store_video price (trim_space v.guid) v >> pure true)

-- The number of items and the error that `SyncLibraryContent` returns.
pub record Synced : Type 0 where
  pub items : ℕ
  pub failure : Option Error

abbrev failed : ℕ → Error → Synced
failed n e = record { items = n; failure = some e }

abbrev succeeded : ℕ → Synced
succeeded n = record { items = n; failure = none }

-- `return synced, err`, or on with the loop.
unfoldable pub after_video : ℕ → (Bool → Io Synced) → Result Bool → Io Synced
after_video n more (err e) = pure (failed n e)
after_video n more (ok counted) = more counted

-- The inner loop, from the count `n` on.
unfoldable pub sync_videos : ℤ → ℕ → List Video → Io Synced
sync_videos price n [] = pure (succeeded n)
sync_videos price n (v ∷ vs) = attempt (sync_video price v) >>= λ r.
    after_video n (λ counted. sync_videos price (if counted then suc n else n) vs) r

-- `len(videos) < 100`
abbrev pub is_last : List Video → Bool
is_last videos = ltb (length videos) 100

-- A failure ends the loop, and so does the last page.
unfoldable pub after_videos : Option Error → Bool → Synced → Io (Option Synced) → Io (Option Synced)
after_videos (some e) last s more = pure (some s)
after_videos none true s more = pure (some s)
after_videos none false s more = more

unfoldable pub after_page :
    ℤ → ℕ → (ℕ → Io (Option Synced)) → Result (List Video) → Io (Option Synced)
after_page price n more (err e) = pure (some (failed n e))
after_page price n more (ok []) = pure (some (succeeded n))
after_page price n more (ok (v ∷ vs)) =
    sync_videos price n (v ∷ vs) >>= λ s. after_videos s.failure (is_last (v ∷ vs)) s (more s.items)

module _ (api : BunnyApi) (c : Client) (price : ℤ) where
  -- The outer loop; `none` is out of fuel.
  unfoldable pub sync_pages : ℕ → ℕ → ℕ → Io (Option Synced)
  sync_pages zero page n = pure none
  sync_pages (suc fuel) page n = attempt (list_library_videos api c (pos page) (pos 100)) >>= λ r.
      after_page price n (λ m. sync_pages fuel (page + 1) m) r

-- `if defaultPrice <= 0`
abbrev pub price_or_default : ℤ → ℤ
price_or_default price = if ltb_ℤ (pos 0) price then price else pos 25

unfoldable pub sync_library_content : BunnyApi → Client → ℕ → ℤ → Io (Option Synced)
sync_library_content api c fuel price = sync_pages api c (price_or_default price) fuel 1 0
