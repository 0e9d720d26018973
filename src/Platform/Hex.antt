-- ===== src/Platform/Hex.antt =====
-- `hex.EncodeToString`.
pub mod RoundTrip
use streaming_bot.Prelude.{ℕ, ◌+◌, ◌-◌, ◌/◌, ◌%◌, Text, List, [], ◌∷◌, ltb, if◌then◌else◌}

abbrev pub hex_digit : ℕ → ℕ
hex_digit d = if ltb d 10 then b'0' + d else b'a' + (d - 10)

unfoldable pub encode_to_string : List ℕ → Text
encode_to_string [] = []
encode_to_string (b ∷ bs) = hex_digit (b / 16 % 16) ∷ hex_digit (b % 16) ∷ encode_to_string bs
