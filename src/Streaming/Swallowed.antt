-- ===== src/Streaming/Swallowed.antt =====
-- What becomes of the token in the message that a buyer gets.
use streaming_bot.Prelude.{
  ℕ, Text, text, text_eq, List, [], ◌∷◌, ◌++◌, true, false, any, map, ◌≡◌, refl, Bool-cases, inl,
  inr, Text-discrete,
}
use streaming_bot.Prelude.Decimal.{decimal_ℤ}
use streaming_bot.Prelude.Int.{ℤ}
use streaming_bot.World.{World, PurchaseRow, text_message}
use streaming_bot.Domain.Content.{Content}
use streaming_bot.Platform.Url.{bytes_of, utf8}
use streaming_bot.Platform.Url.RoundTrip.{IsUnicode, read_query}
use streaming_bot.App.IssueAccess.{Handler, handle}
use streaming_bot.App.IssueAccess.Granted.{raw_token}
use streaming_bot.App.IssueAccess.Outcome.{IsOffered, IsIssuable, issue_effects}
use streaming_bot.Streaming.Client.{Client, play_url, link}
use streaming_bot.Streaming.Client.Link.{front, link-append}

-- The parameters before the user's are not called `token`.
front-other :
    (sum256 : Text → List ℕ) (c : Client) (video : Text) (user : ℤ) (until : ℕ) (key value : Text)
    → any
        (λ (q : Text × Text). text_eq q.0 (text "token"))
        (map (λ q. (bytes_of q.0, bytes_of q.1)) (front sum256 c video user until key)
          ++ (bytes_of (text "uid"), value) ∷ [])
      ≡ false
unfolding any bytes_of utf8 Text-discrete
front-other sum256 c video user until key value =
    elim (Bool-cases (text_eq c.token_auth_secret [])) [ inl e ↦ rw e refl | inr e ↦ rw e refl ]

-- A link is issued, under the conditions of `issue_effects`, by a provider whose link is that of
-- the client of the video service, and there is a bot. Then the message with it that the user gets
-- has a link with no parameter `token`: behind the player's URL stands a query that reads back as
-- the parameters before the user's, and as the user's, whose value goes on with the question mark,
-- the word and the raw token. The id of the purchase is a text of Unicode.
pub token_is_swallowed :
    (h : Handler) (c : Client) (video id : Text) (r : PurchaseRow) (item : Content) (until : ℕ)
    (w : World)
    → IsOffered id r item w
    → IsIssuable h r item (link h.sum256 c video r.user_id until r.id) until w
    → h.has_bot ≡ true
    → IsUnicode r.id
    → (query : Text) × ((handle h id w).1.sent
        ≡ w.sent
          ++ text_message (record {
            chat_id = r.user_id;
            body = text "Your access link is ready:\n" ++ (play_url c video ++ (text "?" ++ query));
            buttons = [];
          })
            ∷ [])
      × (read_query query
          ≡ map (λ q. (bytes_of q.0, bytes_of q.1)) (front h.sum256 c video r.user_id until r.id)
            ++ (
              bytes_of (text "uid"),
              bytes_of (decimal_ℤ r.user_id) ++ (text "?token=" ++ raw_token w),
            )
              ∷ [])
      × (any (λ (q : Text × Text). text_eq q.0 (text "token")) (read_query query) ≡ false)
token_is_swallowed h c video id r item until w offered issuable bot valid =
    let (query, same, back) = link-append h.sum256 c video r.user_id until r.id _ valid in
    let issued = (issue_effects h id r item _ until w offered issuable).1 in
    (
      query,
      rw (issued.sent, bot, same) refl,
      back,
      rw back (front-other h.sum256 c video r.user_id until r.id _),
    )
