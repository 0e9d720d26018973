-- ===== src/Streaming/Sync/Paging.antt =====
-- How much fuel the loop over the pages needs.
use streaming_bot.Prelude.{
  ℕ, zero, suc, ◌+◌, ◌≤◌, ◌<◌, List, [], ◌∷◌, Option, none, some, Bool, true, false, ◌≡◌, ◌⊎◌, inl,
  inr, refl, arith, length, if◌then◌else◌,
}
use streaming_bot.Prelude.Int.{ℤ, pos}
use streaming_bot.Exec.{Error, Result, ok, err, attempt, pure, ◌>>=◌}
use streaming_bot.World.{World, Io}
use streaming_bot.Streaming.Client.{Client, Video, BunnyApi, list_library_videos}
use streaming_bot.Streaming.Sync.{
  Synced, sync_video, after_video, sync_videos, is_last, after_videos, after_page, sync_pages,
  price_or_default, sync_library_content,
}

-- A page that ends the loop: it cannot be read, or it lists less than 100 videos that have an id.
abbrev pub IsShort : Result (List Video) → Type 0
IsShort (ok vs) = length vs < 100
IsShort (err e) = Unit

abbrev Returns : Result (Option Synced) → Type 0
Returns r = (s : Synced) × (r ≡ ok (some s))

after_video-ok :
    (n : ℕ) (more : Bool → Io Synced) (r : Result Bool) (w : World)
    → ((counted : Bool) (v : World) → (s : Synced) × ((more counted v).0 ≡ ok s))
    → (s : Synced) × ((after_video n more r w).0 ≡ ok s)
unfolding after_video pure
after_video-ok n more (err e) w h = (record { items = n; failure = some e }, refl)
after_video-ok n more (ok counted) w h = h counted w

-- The inner loop keeps its error in its result.
sync_videos-ok :
    (price : ℤ) (n : ℕ) (vs : List Video) (w : World)
    → (s : Synced) × ((sync_videos price n vs w).0 ≡ ok s)
unfolding sync_videos pure attempt ◌>>=◌
sync_videos-ok price n [] w = (record { items = n; failure = none }, refl)
sync_videos-ok price n (v ∷ vs) w =
    after_video-ok n _ (sync_video price v w).0 (sync_video price v w).1
      (λ counted u. sync_videos-ok price (if counted then suc n else n) vs u)

after_videos-Returns :
    (e : Option Error) (last : Bool) (s : Synced) (more : Io (Option Synced)) (w : World)
    → (last ≡ true) ⊎ Returns (more w).0
    → Returns (after_videos e last s more w).0
unfolding after_videos pure
after_videos-Returns (some e) last s more w h = (s, refl)
after_videos-Returns none true s more w h = (s, refl)
after_videos-Returns none false s more w (inl h) = cc
after_videos-Returns none false s more w (inr h) = h

after_page-Returns :
    (price : ℤ) (n : ℕ) (more : ℕ → Io (Option Synced)) (r : Result (List Video)) (w : World)
    → IsShort r ⊎ ((k : ℕ) (v : World) → Returns (more k v).0)
    → Returns (after_page price n more r w).0
unfolding after_page pure ◌>>=◌
after_page-Returns price n more (err e) w h = (record { items = n; failure = some e }, refl)
after_page-Returns price n more (ok []) w h = (record { items = n; failure = none }, refl)
after_page-Returns price n more (ok (x ∷ xs)) w h =
    let (s, e) = sync_videos-ok price n (x ∷ xs) w in
    rw e (
      after_videos-Returns s.failure (is_last (x ∷ xs)) s (more s.items)
        (sync_videos price n (x ∷ xs) w).1
        (elim h [ inl short ↦ inl (ground arith) | inr next ↦ inr (next s.items _) ]))

module _ (api : BunnyApi) (c : Client) (price : ℤ) (m : ℕ)
    (short : (w : World) → IsShort (list_library_videos api c (pos m) (pos 100) w).0) where
  sync_pages-Returns :
      (fuel page n : ℕ) (w : World)
      → page ≤ m
      → m < page + fuel
      → Returns (sync_pages api c price fuel page n w).0
  unfolding sync_pages attempt ◌>>=◌
  sync_pages-Returns zero page n w h k = absurd (omega arith)
  sync_pages-Returns (suc fuel) page n w h k =
      let (r, v) = list_library_videos api c (pos page) (pos 100) w in
      after_page-Returns price n _ r v (elim (last_or_before page h) [
        | inl e ↦ inl (rw e (short w))
        | inr lt ↦ inr (λ i u. sync_pages-Returns fuel (page + 1) i u (omega arith) (omega arith))
      ])
    where
      last_or_before : (page : ℕ) → page ≤ m → (page ≡ m) ⊎ (page < m)
      last_or_before page h = ground arith

-- The synchronisation ends: where some page is short whenever it is read, the fuel of as many rounds
-- as the page's number is enough for it to return, with a count and perhaps an error, however the
-- services answer.
pub sync_ends :
    (api : BunnyApi) (c : Client) (price : ℤ) (m fuel : ℕ) (w : World)
    → 1 ≤ m
    → ((v : World) → IsShort (list_library_videos api c (pos m) (pos 100) v).0)
    → m ≤ fuel
    → (s : Synced) × ((sync_library_content api c fuel price w).0 ≡ ok (some s))
unfolding sync_library_content
sync_ends api c price m fuel w h short k =
    sync_pages-Returns api c (price_or_default price) m short fuel 1 0 w h (omega arith)
