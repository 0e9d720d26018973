-- ===== src/Streaming/Client/Link.antt =====
-- What an access link says.
use mathlib.Core.List.{append_assoc}
use streaming_bot.Prelude.{
  ℕ, suc, ◌/◌, ◌+◌, ◌-◌, ◌*◌, Text, text, text_eq, List, [], ◌∷◌, ◌++◌, some, false, any, map, ◌≡◌,
  ◌≢◌, refl, ap, ◌∙◌, arith, Bool, true, not, ◌&&◌, ◌==◌, Bool-cases, inl, inr, if◌then◌else◌,
}
use streaming_bot.Prelude.Int.{ℤ, pos, negsuc}
use streaming_bot.Prelude.Decimal.{decimal, decimal_ℤ, digits_from, digits_from-decimal}
use streaming_bot.Exec.{Result, ok, err, ◌>>=◌, pure, raise_if}
use streaming_bot.World.{World, time_now}
use streaming_bot.Platform.Hex.{encode_to_string}
use streaming_bot.Platform.Strings.{trim_space}
use streaming_bot.Platform.Url.{path_escape, bytes_of, encode_query}
use streaming_bot.Platform.Url.RoundTrip.{
  IsUnicode, AreUnicode, read_query, read_query-encode_query,
}
use streaming_bot.Platform.Url.Appended.{is_special, read_query-append}
use streaming_bot.Streaming.Client.{
  Client, Response, BunnyApi, play_url, unix, signature, link_query, link, issue_access_link,
}

digits-IsUnicode : (acc : ℕ) (s : Text) (n : ℕ) → digits_from acc s ≡ some n → IsUnicode s
unfolding digits_from
digits-IsUnicode acc [] n h = tt
digits-IsUnicode acc (c ∷ s) n h = ground (arith, digits-IsUnicode (acc * 10 + (c - b'0')) s n)

decimal-IsUnicode : (n : ℕ) → IsUnicode (decimal n)
decimal-IsUnicode n = digits-IsUnicode 0 (decimal n) n (digits_from-decimal n)

decimal_ℤ-IsUnicode : (n : ℤ) → IsUnicode (decimal_ℤ n)
unfolding decimal_ℤ
decimal_ℤ-IsUnicode (pos n) = decimal-IsUnicode n
decimal_ℤ-IsUnicode (negsuc n) = (omega arith, decimal-IsUnicode (suc n))

hex-IsUnicode : (bs : List ℕ) → IsUnicode (encode_to_string bs)
unfolding encode_to_string
hex-IsUnicode [] = tt
hex-IsUnicode (b ∷ bs) = (ground arith, (ground arith, hex-IsUnicode bs))

module _ (sum256 : Text → List ℕ) (c : Client) (id : Text) (user : ℤ) (at : ℕ) (key : Text) where
  -- The pairs of the query before the last one.
  abbrev pub front : List (Text × Text)
  front =
      (text "expires", decimal (unix at))
      ∷ (text "pid", key)
      ∷ (if text_eq c.token_auth_secret []
          then []
          else (text "sig", signature sum256 c id user at key) ∷ [])

  link_query-front : link_query sum256 c id user at key ≡ front ++ (text "uid", decimal_ℤ user) ∷ []
  link_query-front = elim (Bool-cases (text_eq c.token_auth_secret [])) [
    | inl e ↦ rw e refl
    | inr e ↦ rw e refl
  ]

  module _ (valid : IsUnicode key) where
    front-AreUnicode : AreUnicode front
    front-AreUnicode = elim (Bool-cases (text_eq c.token_auth_secret [])) [
      | inl e ↦ rw e ((omega arith, decimal-IsUnicode (unix at)), ((omega arith, valid), tt))
      | inr e ↦ rw e (
        (omega arith, decimal-IsUnicode (unix at)),
        ((omega arith, valid), ((omega arith, hex-IsUnicode _), tt)),
      )
    ]

    read_link_query :
        read_query (encode_query (link_query sum256 c id user at key))
        ≡ map (λ q. (bytes_of q.0, bytes_of q.1)) (link_query sum256 c id user at key)
    read_link_query = elim (Bool-cases (text_eq c.token_auth_secret [])) [
      | inl e ↦ rw e (
          read_query-encode_query _ _ (
            (omega arith, decimal-IsUnicode (unix at)),
            ((omega arith, valid), ((omega arith, decimal_ℤ-IsUnicode user), tt)),
          ))
      | inr e ↦ rw e (
          read_query-encode_query _ _ (
            (omega arith, decimal-IsUnicode (unix at)),
            (
              (omega arith, valid),
              ((omega arith, hex-IsUnicode _), ((omega arith, decimal_ℤ-IsUnicode user), tt)),
            ),
          ))
    ]

    -- The query with a text behind it.
    read_link :
        (t : Text)
        → any is_special t ≡ false
        → read_query (encode_query (link_query sum256 c id user at key) ++ t)
          ≡ map (λ q. (bytes_of q.0, bytes_of q.1)) front
            ++ (bytes_of (text "uid"), bytes_of (decimal_ℤ user) ++ t) ∷ []
    read_link t plain = rw link_query-front (
        read_query-append front (text "uid") (decimal_ℤ user) t front-AreUnicode (omega arith)
          (decimal_ℤ-IsUnicode user) plain)

-- The query of a link, written out: the second of the expiry, the purchase, where a secret is set the
-- hexadecimal digest of the secret, the video, the user, the expiry and the purchase, and the user.
abbrev pub expected_query : (Text → List ℕ) → Text → Text → ℤ → ℕ → Text → List (Text × Text)
expected_query sum256 secret video user until key =
    (text "expires", decimal (until / 1000000))
    ∷ (text "pid", key)
    ∷ ((if text_eq secret []
          then []
          else (
            text "sig",
            encode_to_string (
                sum256 (
                  secret
                  ++ (text ":"
                      ++ (video
                          ++ (text "|"
                              ++ (decimal_ℤ user
                                  ++ (text "|"
                                      ++ (decimal (until / 1000000) ++ (text "|" ++ key))))))))),
          )
            ∷ [])
        ++ (text "uid", decimal_ℤ user) ∷ [])

module _ (api : BunnyApi) (c : Client) (sum256 : Text → List ℕ) (ref : Text) (user : ℤ) (ttl : ℕ)
    (key : Text) (w : World) where
  -- The request for the video.
  abbrev pub asked : Result Response × World
  asked =
      api.get
        (c.api_base_url
          ++ (text "/library/"
              ++ (path_escape c.library_id ++ (text "/videos/" ++ path_escape (trim_space ref)))))
        c.api_key w

  abbrev has_status_ok : Result Response → Bool
  has_status_ok (ok resp) = resp.status == 200
  has_status_ok (err e) = false

  -- There is a video, a library and a key, and the service confirms the video.
  abbrev pub is_confirmed : Bool
  is_confirmed =
      not (text_eq (trim_space ref) [])
      && (not (text_eq c.library_id []) && (not (text_eq c.api_key []) && has_status_ok asked.0))

  -- What a link is.
  abbrev pub IsLink : Text → ℕ → Type 0
  IsLink url until =
      (until ≡ asked.1.clock + ttl)
      × ((query : Text) × (url
            ≡ (c.embed_base_url
                ++ (text "/"
                    ++ (path_escape c.library_id ++ (text "/" ++ path_escape (trim_space ref)))))
              ++ (text "?" ++ query))
          × (read_query query
              ≡ map (λ q. (bytes_of q.0, bytes_of q.1))
                  (expected_query sum256 c.token_auth_secret (trim_space ref) user until key)))

  -- How the client ends, where the service confirms the video and where it does not.
  abbrev pub EndsWith : Bool → Result (Text × ℕ) × World → Type 0
  EndsWith true (r, v) =
      ((url : Text) × (until : ℕ) × (r ≡ ok (url, until)) × IsLink url until) × (v ≡ asked.1)
  EndsWith false (r, v) = (p : Text × ℕ) → r ≢ ok p

  confirmed-ok :
      is_confirmed ≡ true
      → issue_access_link api c sum256 ref user ttl key w ≡ (
        ok (link sum256 c (trim_space ref) user (asked.1.clock + ttl) key, asked.1.clock + ttl),
        asked.1,
      )
  unfolding issue_access_link raise_if pure time_now ◌>>=◌
  confirmed-ok h = ground arith

  confirmed-err :
      is_confirmed ≡ false
      → (p : Text × ℕ) → (issue_access_link api c sum256 ref user ttl key w).0 ≢ ok p
  unfolding issue_access_link raise_if pure time_now ◌>>=◌
  confirmed-err h p e = ground arith

  link_query-expected :
      (until : ℕ)
      → link_query sum256 c (trim_space ref) user until key
        ≡ expected_query sum256 c.token_auth_secret (trim_space ref) user until key
  link_query-expected until = elim (Bool-cases (text_eq c.token_auth_secret [])) [
    | inl e ↦ rw e refl
    | inr e ↦ rw e refl
  ]

  link-IsLink :
      IsUnicode key
      → IsLink (link sum256 c (trim_space ref) user (asked.1.clock + ttl) key) (asked.1.clock + ttl)
  link-IsLink valid = (
    refl,
    (
      encode_query (link_query sum256 c (trim_space ref) user (asked.1.clock + ttl) key),
      refl,
      read_link_query sum256 c (trim_space ref) user (asked.1.clock + ttl) key valid
          ∙ ap (map (λ q. (bytes_of q.0, bytes_of q.1)))
              (link_query-expected (asked.1.clock + ttl)),
    ),
  )

  -- The client returns a link exactly when the video, the library and its key are not empty and the
  -- service answers the request for the video with status 200; then nothing is written but by that
  -- request. The link lives for `ttl` from the moment of the answer. It is the player's URL of the
  -- library and the video, and a query that reads back as the expiry in seconds, the key, the user
  -- and, where a secret is set, the digest of the secret, the video, the user, the expiry and the
  -- key. The key is a text of Unicode.
  pub link_issued :
      IsUnicode key → EndsWith is_confirmed (issue_access_link api c sum256 ref user ttl key w)
  link_issued valid = elim (Bool-cases is_confirmed) [
    | inl e ↦ rw (e, confirmed-ok e) ((_, _, refl, link-IsLink valid), refl)
    | inr e ↦ rw e (confirmed-err e)
  ]

hex-plain : (bs : List ℕ) → any is_special (encode_to_string bs) ≡ false
unfolding encode_to_string any
hex-plain [] = refl
hex-plain (b ∷ bs) = ground (arith, hex-plain bs)

-- What is behind such a link belongs to its last parameter.
pub link-append :
    (sum256 : Text → List ℕ) (c : Client) (id : Text) (user : ℤ) (at : ℕ) (key : Text) (bs : List ℕ)
    → IsUnicode key
    → (query : Text) × (link sum256 c id user at key ++ (text "?token=" ++ encode_to_string bs)
        ≡ play_url c id ++ (text "?" ++ query))
      × (read_query query
          ≡ map (λ q. (bytes_of q.0, bytes_of q.1)) (front sum256 c id user at key)
            ++ (
              bytes_of (text "uid"),
              bytes_of (decimal_ℤ user) ++ (text "?token=" ++ encode_to_string bs),
            )
              ∷ [])
unfolding any
link-append sum256 c id user at key bs valid = (
  encode_query (link_query sum256 c id user at key) ++ (text "?token=" ++ encode_to_string bs),
  append_assoc (play_url c id) (text "?" ++ encode_query (link_query sum256 c id user at key))
      (text "?token=" ++ encode_to_string bs),
  read_link sum256 c id user at key valid (text "?token=" ++ encode_to_string bs) (hex-plain bs),
)
