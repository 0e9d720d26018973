-- ===== src/Streaming/Client.antt =====
-- streaming/client.go. The service behind its HTTP interface is a parameter.
pub mod Link
use streaming_bot.Prelude.{
  ℕ, ◌+◌, ◌/◌, Text, text, text_eq, List, [], ◌∷◌, ◌++◌, not, ◌==◌, select, ◌≡◌, if◌then◌else◌,
}
use streaming_bot.Prelude.Int.{ℤ, pos, ltb_ℤ}
use streaming_bot.Prelude.Decimal.{decimal, decimal_ℤ}
use streaming_bot.Exec.{
  Result, ◌>>=◌, ◌>>◌, pure, lift, raise_if, empty_video_id, missing_library_id, missing_api_key,
  bad_status, list_failed,
}
use streaming_bot.World.{World, Io, time_now}
use streaming_bot.Platform.Strings.{trim_space, trim_right}
use streaming_bot.Platform.Url.{path_escape, encode_query}
use streaming_bot.Platform.Hex.{encode_to_string}

pub record Client : Type 0 where
  pub api_base_url : Text
  pub embed_base_url : Text
  pub library_id : Text
  pub api_key : Text
  pub token_auth_secret : Text

pub record Video : Type 0 where
  pub guid : Text
  pub title : Text
  pub description : Text

-- An answer: its status, its body, and the first 512 bytes of the body as text.
pub record Response : Type 0 where
  pub status : ℕ
  pub body : Text
  pub start : Text

-- `httpClient.Do` of a GET with an `AccessKey`, which does not write to the bot's database, and the
-- JSON decoder's reading of the `items` of an answer.
pub record BunnyApi : Type 0 where
  pub get : Text → Text → Io Response
  pub get-db : (url key : Text) (w : World) → (get url key w).1.db ≡ w.db
  pub decode_items : Text → Result (List Video)

abbrev or_default : Text → Text → Text
or_default url fallback = if text_eq (trim_space url) [] then fallback else url

unfoldable pub new_bunny_client : Text → Text → Text → Text → Text → Client
new_bunny_client library_id api_key api_base_url embed_base_url token_auth_secret = record {
  api_base_url =
      trim_right (λ c. c == b'/') (or_default api_base_url (text "https://video.bunnycdn.com"));
  embed_base_url =
      trim_right (λ c. c == b'/')
        (or_default embed_base_url (text "https://iframe.mediadelivery.net/embed"));
  library_id = library_id;
  api_key = api_key;
  token_auth_secret = token_auth_secret;
}

abbrev pub check_url : Client → Text → Text
check_url c video_id =
    c.api_base_url
    ++ (text "/library/" ++ (path_escape c.library_id ++ (text "/videos/" ++ path_escape video_id)))

abbrev pub play_url : Client → Text → Text
play_url c video_id =
    c.embed_base_url
    ++ (text "/" ++ (path_escape c.library_id ++ (text "/" ++ path_escape video_id)))

-- `Unix()`: the clock counts microseconds.
abbrev pub unix : ℕ → ℕ
unix time = time / 1000000

module _ (sum256 : Text → List ℕ) where
  abbrev pub signature : Client → Text → ℤ → ℕ → Text → Text
  signature c video_id user_id expires_at key = encode_to_string (
      sum256 (
        c.token_auth_secret
        ++ (text ":"
            ++ (video_id
                ++ (text "|"
                    ++ (decimal_ℤ user_id
                        ++ (text "|" ++ (decimal (unix expires_at) ++ (text "|" ++ key)))))))))

  -- The values of the query, in the order of their keys.
  abbrev pub link_query : Client → Text → ℤ → ℕ → Text → List (Text × Text)
  link_query c video_id user_id expires_at key =
      (text "expires", decimal (unix expires_at))
      ∷ (text "pid", key)
      ∷ (if text_eq c.token_auth_secret []
          then (text "uid", decimal_ℤ user_id) ∷ []
          else (text "sig", signature c video_id user_id expires_at key)
            ∷ (text "uid", decimal_ℤ user_id)
            ∷ [])

  abbrev pub link : Client → Text → ℤ → ℕ → Text → Text
  link c video_id user_id expires_at key =
      play_url c video_id
      ++ (text "?" ++ encode_query (link_query c video_id user_id expires_at key))

module _ (api : BunnyApi) (c : Client) where
  unfoldable pub issue_access_link : (Text → List ℕ) → Text → ℤ → ℕ → Text → Io (Text × ℕ)
  issue_access_link sum256 external_ref user_id ttl key = do
    let video_id = trim_space external_ref
    raise_if (text_eq video_id []) empty_video_id
    raise_if (text_eq c.library_id []) missing_library_id
    raise_if (text_eq c.api_key []) missing_api_key
    resp ← api.get (check_url c video_id) c.api_key
    raise_if (not (resp.status == 200)) (bad_status (decimal resp.status))
    now ← time_now
    pure (link sum256 c video_id user_id (now + ttl) key, now + ttl)

  -- `if n <= 0`
  abbrev positive_or : ℤ → ℤ → ℤ
  positive_or fallback n = if ltb_ℤ (pos 0) n then n else fallback

  abbrev list_url : ℤ → ℤ → Text
  list_url page items_per_page =
      c.api_base_url
      ++ (text "/library/"
          ++ (path_escape c.library_id
              ++ (text "/videos?page="
                  ++ (decimal_ℤ (positive_or (pos 1) page)
                      ++ (text "&itemsPerPage="
                          ++ decimal_ℤ (positive_or (pos 100) items_per_page))))))

  -- The videos that have an id.
  abbrev pub with_guid : List Video → List Video
  with_guid videos = select (λ v. not (text_eq (trim_space v.guid) [])) videos

  unfoldable pub list_library_videos : ℤ → ℤ → Io (List Video)
  list_library_videos page items_per_page = do
    raise_if (text_eq c.library_id []) missing_library_id
    raise_if (text_eq c.api_key []) missing_api_key
    resp ← api.get (list_url page items_per_page) c.api_key
    raise_if (not (resp.status == 200)) (list_failed (decimal resp.status) (trim_space resp.start))
    items ← lift (api.decode_items resp.body)
    pure (with_guid items)
