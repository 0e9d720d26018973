-- ===== src/Platform/Atoi.antt =====
-- `strconv.Atoi`.
use streaming_bot.Prelude.{
  ℕ, ◌-◌, ◌^◌, ◌<◌, Text, Text-discrete, text, text_eq, [], ◌∷◌, Option, none, some, ltb, leb, ◌≡◌,
  ◌≢◌, refl, arith, if◌then◌else◌,
}
use streaming_bot.Prelude.Int.{ℤ, pos, negsuc}
use streaming_bot.Prelude.Decimal.{decimal, digits_from, digits_from-decimal, decimal-nonempty}

-- At least one digit.
abbrev digits : Text → Option ℕ
digits [] = none
digits (c ∷ s) = digits_from 0 (c ∷ s)

-- Inside the 64 bits of an `int`.
abbrev positive : Option ℕ → Option ℤ
positive none = none
positive (some n) = if ltb n (2 ^ 63) then some (pos n) else none

abbrev negative : Option ℕ → Option ℤ
negative none = none
negative (some n) =
    if leb n (2 ^ 63) then some (if ltb 0 n then negsuc (n - 1) else pos 0) else none

-- `strconv.Atoi`: an optional sign and digits.
unfoldable pub atoi : Text → Option ℤ
atoi [] = none
atoi (c ∷ s) =
    if text_eq (c ∷ []) (text "-")
    then negative (digits s)
    else if text_eq (c ∷ []) (text "+")
    then positive (digits s)
    else positive (digits (c ∷ s))

atoi_of_digits :
    (s : Text) (n : ℕ) → s ≢ [] → digits_from 0 s ≡ some n → n < 2 ^ 63 → atoi s ≡ some (pos n)
unfolding atoi digits_from Text-discrete
atoi_of_digits [] n given e h = absurd (given refl)
atoi_of_digits (c ∷ s) n given e h = ground arith

-- The decimal text of a number of 63 bits is read as the number.
pub atoi-decimal : (n : ℕ) → n < 2 ^ 63 → atoi (decimal n) ≡ some (pos n)
atoi-decimal n h = atoi_of_digits (decimal n) n (decimal-nonempty n) (digits_from-decimal n) h
