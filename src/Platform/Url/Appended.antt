-- ===== src/Platform/Url/Appended.antt =====
-- What becomes of a text that is put behind an encoded query.
use streaming_bot.Prelude.{
  ℕ, Text, List, [], ◌∷◌, ◌++◌, Bool, false, ◌==◌, ◌||◌, any, map, ◌≡◌, refl, arith, ap,
}
use mathlib.Core.List.{append_assoc}
use streaming_bot.Platform.Hex.RoundTrip.{IsBytes}
use streaming_bot.Platform.Strings.Laws.{has_char, split-whole, split-append, split_first-append}
use streaming_bot.Platform.Url.{
  bytes_of, query_byte, escape_bytes, query_escape, query_pair, encode_query,
}
use streaming_bot.Platform.Url.RoundTrip.{
  unescape, IsUnicode, AreUnicode, read_pair, read_query, unescape-query_byte,
  unescape-query_escape, bytes_of-IsBytes, query_escape-plain, read_pair-escape, pair-plain,
  encode_query-cons, encode_query-one,
}

-- The characters that a reader of a query takes for more than themselves.
abbrev pub is_special : ℕ → Bool
is_special c = c == b'%' || c == b'+' || c == b'&'

literal_head :
    (c : ℕ) (rest : Bool)
    → (is_special c || rest) ≡ false
    → ((c == b'%') ≡ false) × ((c == b'+') ≡ false) × (rest ≡ false)
literal_head c rest h = ground arith

unescape-literal : (t : Text) → any is_special t ≡ false → unescape t ≡ t
unfolding unescape any
unescape-literal [] h = refl
unescape-literal (c ∷ []) h = ground arith
unescape-literal (c ∷ d ∷ []) h = ground arith
unescape-literal (c ∷ a ∷ b ∷ s) h =
    let (percent, plus, rest) = literal_head c (any is_special (a ∷ b ∷ s)) h in
    rw (percent, plus, unescape-literal (a ∷ b ∷ s) rest) refl

no_ampersand : (t : Text) → any is_special t ≡ false → has_char b'&' t ≡ false
unfolding any
no_ampersand [] h = refl
no_ampersand (c ∷ s) h = ground (arith, no_ampersand s)

has_char-append :
    (c : ℕ) (s t : Text) → has_char c s ≡ false → has_char c t ≡ false → has_char c (s ++ t) ≡ false
unfolding any
has_char-append c [] t hs ht = ht
has_char-append c (x ∷ s) t hs ht = ground (arith, has_char-append c s t)

unescape-escape_bytes_append :
    (bs : List ℕ) (t : Text)
    → IsBytes bs
    → unescape (escape_bytes query_byte bs ++ t) ≡ bs ++ unescape t
unfolding escape_bytes
unescape-escape_bytes_append [] t h = refl
unescape-escape_bytes_append (b ∷ bs) t (h, hs) =
    rw
      (
        append_assoc (query_byte b) (escape_bytes query_byte bs) t,
        unescape-query_byte b (escape_bytes query_byte bs ++ t) h,
        unescape-escape_bytes_append bs t hs,
      )
      refl

read_pair-append :
    (k v t : Text)
    → IsUnicode k
    → IsUnicode v
    → any is_special t ≡ false
    → read_pair (query_pair k v ++ t) ≡ (bytes_of k, bytes_of v ++ t)
unfolding query_escape
read_pair-append k v t hk hv ht =
    rw
      (
        append_assoc (query_escape k) (b'=' ∷ query_escape v) t,
        split_first-append b'=' (query_escape k) (query_escape v ++ t) (query_escape-plain k hk).1,
        unescape-query_escape k hk,
        unescape-escape_bytes_append (bytes_of v) t (bytes_of-IsBytes v hv),
        unescape-literal t ht,
      )
      refl

encode_query-cons_append :
    (q : Text × Text) (ps : List (Text × Text)) (k v : Text)
    → encode_query (q ∷ (ps ++ (k, v) ∷ []))
      ≡ query_pair q.0 q.1 ++ b'&' ∷ encode_query (ps ++ (k, v) ∷ [])
encode_query-cons_append (j, u) [] k v = encode_query-cons j u (k, v) []
encode_query-cons_append (j, u) (p ∷ ps) k v = encode_query-cons j u p (ps ++ (k, v) ∷ [])

-- Of a text without special characters, the value of the last pair takes in the whole.
pub read_query-append :
    (ps : List (Text × Text)) (k v t : Text)
    → AreUnicode ps
    → IsUnicode k
    → IsUnicode v
    → any is_special t ≡ false
    → read_query (encode_query (ps ++ (k, v) ∷ []) ++ t)
      ≡ map (λ q. (bytes_of q.0, bytes_of q.1)) ps ++ (bytes_of k, bytes_of v ++ t) ∷ []
unfolding read_query
read_query-append [] k v t hs hk hv ht =
    rw
      (
        encode_query-one k v,
        split-whole b'&' (query_pair k v ++ t)
            (has_char-append b'&' (query_pair k v) t (pair-plain k v hk hv) (no_ampersand t ht)),
        read_pair-append k v t hk hv ht,
      )
      refl
read_query-append ((j, u) ∷ ps) k v t ((hj, hu), hs) hk hv ht =
    rw
      (
        encode_query-cons_append (j, u) ps k v,
        append_assoc (query_pair j u) (b'&' ∷ encode_query (ps ++ (k, v) ∷ [])) t,
        split-append b'&' (query_pair j u) (encode_query (ps ++ (k, v) ∷ []) ++ t)
            (pair-plain j u hj hu),
        read_pair-escape j u hj hu,
      )
      (ap (λ l. (bytes_of j, bytes_of u) ∷ l) (read_query-append ps k v t hs hk hv ht))
