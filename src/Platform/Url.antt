-- ===== src/Platform/Url.antt =====
-- What the program uses of Go's `net/url`: the escapes, and the encoding of a query.
pub mod RoundTrip
pub mod Appended
use streaming_bot.Prelude.{
  ℕ, ◌+◌, ◌-◌, ◌/◌, ◌%◌, Text, List, [], ◌∷◌, ◌++◌, Bool, true, false, not, ◌||◌, ◌&&◌, ◌==◌, leb,
  ltb, if◌then◌else◌,
}

-- The UTF-8 bytes of a code point.
unfoldable pub utf8 : ℕ → List ℕ
utf8 c =
    if ltb c 0x80
    then c ∷ []
    else if ltb c 0x800
    then (0xc0 + c / 64) ∷ (0x80 + c % 64) ∷ []
    else if ltb c 0x10000
    then (0xe0 + c / 4096) ∷ (0x80 + c / 64 % 64) ∷ (0x80 + c % 64) ∷ []
    else (0xf0 + c / 262144) ∷ (0x80 + c / 4096 % 64) ∷ (0x80 + c / 64 % 64) ∷ (0x80 + c % 64) ∷ []

-- `[]byte(s)`
unfoldable pub bytes_of : Text → List ℕ
bytes_of [] = []
bytes_of (c ∷ s) = utf8 c ++ bytes_of s

abbrev pub is_alphanumeric : ℕ → Bool
is_alphanumeric c =
    (leb b'a' c && leb c b'z') || (leb b'A' c && leb c b'Z') || (leb b'0' c && leb c b'9')

abbrev pub is_mark : ℕ → Bool
is_mark c = c == b'-' || c == b'_' || c == b'.' || c == b'~'

-- What a segment of a path holds as it is.
unfoldable pub path_plain : ℕ → Bool
path_plain c =
    is_alphanumeric c
    || is_mark c
    || c == b'$'
    || c == b'&'
    || c == b'+'
    || c == b':'
    || c == b'='
    || c == b'@'

-- What a query holds as it is.
unfoldable pub query_plain : ℕ → Bool
query_plain c = is_alphanumeric c || is_mark c

abbrev pub upper_hex : ℕ → ℕ
upper_hex d = if ltb d 10 then b'0' + d else b'A' + (d - 10)

abbrev percent : ℕ → Text
percent b = b'%' ∷ upper_hex (b / 16) ∷ upper_hex (b % 16) ∷ []

unfoldable pub path_byte : ℕ → Text
path_byte b = if path_plain b then b ∷ [] else percent b

unfoldable pub query_byte : ℕ → Text
query_byte b = if query_plain b then b ∷ [] else if b == b' ' then b'+' ∷ [] else percent b

unfoldable pub escape_bytes : (ℕ → Text) → List ℕ → Text
escape_bytes f [] = []
escape_bytes f (b ∷ bs) = f b ++ escape_bytes f bs

-- `url.PathEscape` and `url.QueryEscape`
unfoldable pub path_escape : Text → Text
path_escape s = escape_bytes path_byte (bytes_of s)

unfoldable pub query_escape : Text → Text
query_escape s = escape_bytes query_byte (bytes_of s)

-- `key=value`
abbrev pub query_pair : Text → Text → Text
query_pair k v = query_escape k ++ b'=' ∷ query_escape v

-- `Values.Encode` of pairs in the order of their keys.
unfoldable pub encode_query : List (Text × Text) → Text
encode_query [] = []
encode_query ((k, v) ∷ []) = query_pair k v
encode_query ((k, v) ∷ p ∷ ps) = query_pair k v ++ b'&' ∷ encode_query (p ∷ ps)
