-- ===== src/Tests/Videos.antt =====
-- The properties of the video service's client and of the synchronisation.
use streaming_bot.Prelude.{
  Text, text, Text-discrete, [], ◌∷◌, ◌++◌, some, false, any, true, length, text_eq, map, select,
  find, ◌≡◌, refl, arith,
}
use streaming_bot.Prelude.Int.{pos}
use streaming_bot.Prelude.Decimal.{decimal_ℤ}
use streaming_bot.Exec.{ok, ◌>>=◌, raise_if, lift, pure}
use streaming_bot.World.{World, text_message, time_now}
use streaming_bot.Domain.Content.{Content}
use streaming_bot.Platform.Strings.{trim_space, trim_left, trim_right, is_space}
use streaming_bot.Platform.Url.{bytes_of}
use streaming_bot.Platform.Url.RoundTrip.{read_query}
use streaming_bot.Streaming.Client.{
  Client, Response, BunnyApi, play_url, link, issue_access_link, list_library_videos,
}
use streaming_bot.Streaming.Client.Link.{front, is_confirmed, EndsWith, link_issued}
use streaming_bot.Streaming.Swallowed.{token_is_swallowed}
use streaming_bot.Streaming.Provider.{bunny}
use streaming_bot.App.IssueAccess
use streaming_bot.App.IssueAccess.{Handler}
use streaming_bot.App.IssueAccess.Granted.{raw_token}
use streaming_bot.App.IssueAccess.Outcome.{IsIssuable}
use streaming_bot.Domain.Purchase.{parse_status}
use streaming_bot.Storage.Purchases.{of_row}
use streaming_bot.Prelude.Int.{is_int4}
use streaming_bot.Tests.Calls.{paid_row, bought, offered}
use streaming_bot.Streaming.Sync.{Synced, sync_library_content}
use streaming_bot.Streaming.Sync.Paging.{IsShort, sync_ends}
use streaming_bot.Streaming.Sync.Terms.{item_of, sync_keeps_terms}
use streaming_bot.System.Reach.{initial}
use streaming_bot.Tests.{handler, item, opened, digest}

abbrev library : Client
library = record {
  api_base_url = text "https://a";
  embed_base_url = text "https://e";
  library_id = text "77";
  api_key = text "k";
  token_auth_secret = text "s";
}

abbrev video_answer : Response
video_answer = record { status = 200; body = text "{}"; start = text "{}" }

-- A service with one video, that of the item on sale.
abbrev api : BunnyApi
api = record {
  get = λ url key w. (ok video_answer, w);
  get-db = λ url key w. refl;
  decode_items =
      λ body. ok (record { guid = text "c1"; title = text "New"; description = text "N" } ∷ []);
}

abbrev stocked : World
stocked = record initial { db = record initial.db { content = item ∷ [] } }

short : (v : World) → IsShort (list_library_videos api library (pos 1) (pos 100) v).0
unfolding list_library_videos raise_if ◌>>=◌ lift pure select Text-discrete trim_space trim_left
    trim_right is_space
short v = omega arith

sync_ends_example :
    (s : Synced) × ((sync_library_content api library 1 (pos 25) stocked).0 ≡ ok (some s))
sync_ends_example = sync_ends api library (pos 25) 1 1 stocked (omega arith) short (omega arith)

listed_there : item_of (text "c1") stocked.db.content ≡ some item
unfolding find Text-discrete
listed_there = refl

sync_keeps_terms_example :
    (item' : Content) × (item_of
        (text "c1")
        (sync_library_content api library 1 (pos 40) stocked).1.db.content
      ≡ some item')
    × (item'.price_stars ≡ item.price_stars)
    × (item'.active ≡ item.active)
sync_keeps_terms_example =
    sync_keeps_terms api library 1 (pos 40) (text "c1") item stocked listed_there

confirmed :
    is_confirmed api library digest (text " v1 ") (pos 7) 3600000000 (text "p1") opened ≡ true
unfolding trim_space trim_left trim_right is_space Text-discrete
confirmed = refl

link_issued_example :
    EndsWith api library digest
      (text " v1 ")
      (pos 7)
      3600000000
      (text "p1")
      opened
      (is_confirmed api library digest (text " v1 ") (pos 7) 3600000000 (text "p1") opened)
      (issue_access_link api library digest (text " v1 ") (pos 7) 3600000000 (text "p1") opened)
link_issued_example =
    link_issued api library digest (text " v1 ") (pos 7) 3600000000 (text "p1") opened (omega arith)

-- The issue with the client as its provider.
abbrev streaming : Handler
streaming = record handler { provider = bunny api library digest }

playable :
    IsIssuable streaming paid_row item
      (link digest library (text "v1") (pos 7) 105 (text "p1"))
      105
      bought
unfolding any of_row parse_status Text-discrete length is_int4 bunny issue_access_link raise_if pure
    time_now ◌>>=◌ trim_space trim_left trim_right is_space
playable = record {
  is_paid = refl;
  given = refl;
  counted = refl;
  random = omega arith;
  fresh = refl;
  alone = refl;
}

token_is_swallowed_example :
    (query : Text) × ((IssueAccess.handle streaming (text "p1") bought).1.sent
      ≡ bought.sent
        ++ text_message (record {
          chat_id = pos 7;
          body =
              text "Your access link is ready:\n"
              ++ (play_url library (text "v1") ++ (text "?" ++ query));
          buttons = [];
        })
          ∷ [])
    × (read_query query
        ≡ map
            (λ q. (bytes_of q.0, bytes_of q.1))
            (front digest library (text "v1") (pos 7) 105 (text "p1"))
          ++ (
            bytes_of (text "uid"),
            bytes_of (decimal_ℤ (pos 7)) ++ (text "?token=" ++ raw_token bought),
          )
            ∷ [])
    × (any (λ (q : Text × Text). text_eq q.0 (text "token")) (read_query query) ≡ false)
token_is_swallowed_example =
    token_is_swallowed streaming library (text "v1") (text "p1") paid_row item 105 bought offered
      playable refl (omega arith)
