-- ===== src/Platform/Json.antt =====
-- What `json.Marshal` makes of a string: the quotes, and its escapes (Go 1.22).
use streaming_bot.Prelude.{ℕ, ◌/◌, ◌%◌, Text, text, [], ◌∷◌, ◌++◌, ◌==◌, ltb, ◌||◌, if◌then◌else◌}
use streaming_bot.Platform.Hex.{hex_digit}

abbrev pub unicode_escape : ℕ → Text
unicode_escape c =
    b'\\'
    ∷ b'u'
    ∷ hex_digit (c / 4096 % 16)
    ∷ hex_digit (c / 256 % 16)
    ∷ hex_digit (c / 16 % 16)
    ∷ hex_digit (c % 16)
    ∷ []

-- One code point inside a string.
unfoldable pub escape : ℕ → Text
escape c =
    if c == 0x22 || c == 0x5c
    then 0x5c ∷ c ∷ []
    else if c == 8
    then text "\\b"
    else if c == 12
    then text "\\f"
    else if c == 10
    then text "\\n"
    else if c == 13
    then text "\\r"
    else if c == 9
    then text "\\t"
    else if ltb c 32 || c == b'<' || c == b'>' || c == b'&' || c == 0x2028 || c == 0x2029
    then unicode_escape c
    else c ∷ []

unfoldable pub escape_all : Text → Text
escape_all [] = []
escape_all (c ∷ s) = escape c ++ escape_all s

unfoldable pub marshal_string : Text → Text
marshal_string s = 0x22 ∷ (escape_all s ++ 0x22 ∷ [])
