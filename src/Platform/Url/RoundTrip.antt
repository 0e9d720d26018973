-- ===== src/Platform/Url/RoundTrip.antt =====
-- A query that was encoded reads back as the pairs that it was made of.
use streaming_bot.Prelude.{
  ℕ, ◌+◌, ◌-◌, ◌*◌, ◌<◌, Text, List, [], ◌∷◌, ◌++◌, none, some, Bool, false, ◌==◌, ltb, any, map,
  ◌≡◌, refl, arith, ap, if◌then◌else◌,
}
use streaming_bot.Platform.Hex.RoundTrip.{IsBytes}
use streaming_bot.Platform.Strings.{split, split_first}
use streaming_bot.Platform.Strings.Laws.{has_char, split-whole, split-append, split_first-append}
use streaming_bot.Platform.Url.{
  utf8, bytes_of, query_plain, query_byte, escape_bytes, query_escape, query_pair, encode_query,
}

-- The value of an upper-case digit.
abbrev upper_value : ℕ → ℕ
upper_value c = if ltb c b'A' then c - b'0' else c - b'A' + 10

-- The bytes that an escaped part of a query stands for.
unfoldable pub unescape : Text → List ℕ
unescape [] = []
unescape (c ∷ []) = (if c == b'+' then b' ' else c) ∷ []
unescape (c ∷ d ∷ []) = (if c == b'+' then b' ' else c) ∷ unescape (d ∷ [])
unescape (c ∷ a ∷ b ∷ s) =
    let plain = (if c == b'+' then b' ' else c) ∷ unescape (a ∷ b ∷ s) in
    let escaped = (upper_value a * 16 + upper_value b) ∷ unescape s in
    if c == b'%' then escaped else plain

pub unescape-query_byte :
    (b : ℕ) (rest : Text) → b < 256 → unescape (query_byte b ++ rest) ≡ b ∷ unescape rest
unfolding unescape query_byte query_plain
unescape-query_byte b [] h = ground arith
unescape-query_byte b (x ∷ []) h = ground arith
unescape-query_byte b (x ∷ y ∷ rest) h = ground arith

unescape-escape_bytes : (bs : List ℕ) → IsBytes bs → unescape (escape_bytes query_byte bs) ≡ bs
unfolding escape_bytes unescape
unescape-escape_bytes [] h = refl
unescape-escape_bytes (b ∷ bs) (h, hs) =
    rw (unescape-query_byte b (escape_bytes query_byte bs) h, unescape-escape_bytes bs hs) refl

-- Code points of Unicode.
abbrev pub IsUnicode : Text → Type 0
IsUnicode [] = Unit
IsUnicode (c ∷ s) = (c < 0x110000) × IsUnicode s

IsBytes-append : (a b : List ℕ) → IsBytes a → IsBytes b → IsBytes (a ++ b)
IsBytes-append [] b ha hb = hb
IsBytes-append (x ∷ a) b (h, ha) hb = (h, IsBytes-append a b ha hb)

utf8-IsBytes : (c : ℕ) → c < 0x110000 → IsBytes (utf8 c)
unfolding utf8
utf8-IsBytes c h = ground arith

pub bytes_of-IsBytes : (s : Text) → IsUnicode s → IsBytes (bytes_of s)
unfolding bytes_of
bytes_of-IsBytes [] h = tt
bytes_of-IsBytes (c ∷ s) (h, hs) =
    IsBytes-append (utf8 c) (bytes_of s) (utf8-IsBytes c h) (bytes_of-IsBytes s hs)

pub unescape-query_escape : (s : Text) → IsUnicode s → unescape (query_escape s) ≡ bytes_of s
unfolding query_escape
unescape-query_escape s h = unescape-escape_bytes (bytes_of s) (bytes_of-IsBytes s h)

any-both : (q : ℕ → Bool) (a b : Text) → any q a ≡ false → any q b ≡ false → any q (a ++ b) ≡ false
unfolding any
any-both q [] b ha hb = hb
any-both q (x ∷ a) b ha hb = ground (arith, any-both q a b)

-- No separator in an escaped part.
query_byte-plain :
    (b : ℕ)
    → b < 256
    → (has_char b'&' (query_byte b) ≡ false) × (has_char b'=' (query_byte b) ≡ false)
unfolding query_byte query_plain any
query_byte-plain b h = (ground arith, ground arith)

escape_bytes-plain :
    (bs : List ℕ)
    → IsBytes bs
    → (has_char b'&' (escape_bytes query_byte bs) ≡ false)
      × (has_char b'=' (escape_bytes query_byte bs) ≡ false)
unfolding escape_bytes any
escape_bytes-plain [] h = (refl, refl)
escape_bytes-plain (b ∷ bs) (h, hs) =
    let (amp, eq) = query_byte-plain b h in
    let (amps, eqs) = escape_bytes-plain bs hs in
    (any-both _ (query_byte b) _ amp amps, any-both _ (query_byte b) _ eq eqs)

pub query_escape-plain :
    (s : Text)
    → IsUnicode s
    → (has_char b'&' (query_escape s) ≡ false) × (has_char b'=' (query_escape s) ≡ false)
unfolding query_escape
query_escape-plain s h = escape_bytes-plain (bytes_of s) (bytes_of-IsBytes s h)

-- `key=value`
abbrev pub read_pair : Text → List ℕ × List ℕ
read_pair part =
    let (k, v) = split_first b'=' part in (unescape k, elim v [ none ↦ [] | some t ↦ unescape t ])

-- A query as its reader takes it apart, in bytes.
unfoldable pub read_query : Text → List (List ℕ × List ℕ)
read_query s = map read_pair (split b'&' s)

abbrev pub AreUnicode : List (Text × Text) → Type 0
AreUnicode [] = Unit
AreUnicode ((k, v) ∷ ps) = (IsUnicode k × IsUnicode v) × AreUnicode ps

pub read_pair-escape :
    (k v : Text) → IsUnicode k → IsUnicode v → read_pair (query_pair k v) ≡ (bytes_of k, bytes_of v)
read_pair-escape k v hk hv =
    rw
      (
        split_first-append b'=' (query_escape k) (query_escape v) (query_escape-plain k hk).1,
        unescape-query_escape k hk,
        unescape-query_escape v hv,
      )
      refl

pub pair-plain : (k v : Text) → IsUnicode k → IsUnicode v → has_char b'&' (query_pair k v) ≡ false
unfolding any
pair-plain k v hk hv =
    any-both _ (query_escape k) _ (query_escape-plain k hk).0 (query_escape-plain v hv).0

pub encode_query-cons :
    (k v : Text) (p : Text × Text) (ps : List (Text × Text))
    → encode_query ((k, v) ∷ p ∷ ps) ≡ query_pair k v ++ b'&' ∷ encode_query (p ∷ ps)
unfolding encode_query
encode_query-cons k v p ps = refl

pub encode_query-one : (k v : Text) → encode_query ((k, v) ∷ []) ≡ query_pair k v
unfolding encode_query
encode_query-one k v = refl

-- The pairs of an encoded query, one at least, are read back in order, as the bytes of their texts.
pub read_query-encode_query :
    (p : Text × Text) (ps : List (Text × Text))
    → AreUnicode (p ∷ ps)
    → read_query (encode_query (p ∷ ps)) ≡ map (λ q. (bytes_of q.0, bytes_of q.1)) (p ∷ ps)
unfolding read_query
read_query-encode_query (k, v) [] ((hk, hv), _) =
    rw
      (
        encode_query-one k v,
        split-whole b'&' (query_pair k v) (pair-plain k v hk hv),
        read_pair-escape k v hk hv,
      )
      refl
read_query-encode_query (k, v) (p ∷ ps) ((hk, hv), hs) =
    rw
      (
        encode_query-cons k v p ps,
        split-append b'&' (query_pair k v) (encode_query (p ∷ ps)) (pair-plain k v hk hv),
        read_pair-escape k v hk hv,
      )
      (ap (λ l. (bytes_of k, bytes_of v) ∷ l) (read_query-encode_query p ps hs))
