-- ===== src/Platform/Hex/RoundTrip.antt =====
-- No two byte strings have the same hexadecimal text.
use streaming_bot.Prelude.{
  ℕ, ◌+◌, ◌-◌, ◌*◌, ◌/◌, ◌%◌, ◌<◌, Text, List, [], ◌∷◌, length, ltb, ◌≡◌, refl, arith,
  if◌then◌else◌,
}
use streaming_bot.Platform.Hex.{hex_digit, encode_to_string}

-- The value of a digit.
abbrev hex_value : ℕ → ℕ
hex_value c = if ltb c b'a' then c - b'0' else c - b'a' + 10

-- Two digits make a byte.
unfoldable pub decode : Text → List ℕ
decode (a ∷ b ∷ t) = (hex_value a * 16 + hex_value b) ∷ decode t
decode (_ ∷ []) = []
decode [] = []

-- Every element is a byte.
abbrev pub IsBytes : List ℕ → Type 0
IsBytes [] = Unit
IsBytes (b ∷ bs) = (b < 256) × IsBytes bs

hex_value-hex_digit : (d : ℕ) → d < 16 → hex_value (hex_digit d) ≡ d
hex_value-hex_digit d h = ground arith

byte_again :
    (b : ℕ)
    → b < 256
    → hex_value (hex_digit (b / 16 % 16)) * 16 + hex_value (hex_digit (b % 16)) ≡ b
byte_again b h =
    rw (hex_value-hex_digit (b / 16 % 16) (omega arith), hex_value-hex_digit (b % 16) (omega arith))
      (omega arith)

-- The hexadecimal text of a byte string has two digits for each byte, and it gives the bytes
-- back.
encode_to_string_lem :
    (bs : List ℕ)
    → IsBytes bs
    → (length (encode_to_string bs) ≡ 2 * length bs) × (decode (encode_to_string bs) ≡ bs)
unfolding encode_to_string decode length
encode_to_string_lem [] h = (refl, refl)
encode_to_string_lem (b ∷ bs) (h, hs) =
    let (len, back) = encode_to_string_lem bs hs in (omega arith, rw (byte_again b h, back) refl)
