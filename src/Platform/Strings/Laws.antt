-- ===== src/Platform/Strings/Laws.antt =====
-- Laws of the splits and of the trims.
use streaming_bot.Prelude.{
  ℕ, Text, [], ◌∷◌, ◌++◌, some, Bool, false, ◌==◌, any, ◌≡◌, refl, arith, ap, ◌∙◌, if◌then◌else◌,
}
use streaming_bot.Platform.Strings.{
  is_space, trim_left, trim_right, keep_first, trim_space, split, split_first, strip_prefix,
}

-- The character is in the text.
abbrev pub has_char : ℕ → Text → Bool
has_char sep s = any (λ c. c == sep) s

-- A text without the separator is one part.
pub split-whole : (sep : ℕ) (s : Text) → has_char sep s ≡ false → split sep s ≡ s ∷ []
unfolding split any
split-whole sep [] h = refl
split-whole sep (c ∷ s) h = ground (arith, split-whole sep s)

-- The text up to the first separator is the first part.
pub split-append :
    (sep : ℕ) (s t : Text) → has_char sep s ≡ false → split sep (s ++ sep ∷ t) ≡ s ∷ split sep t
unfolding split any
split-append sep [] t h = ground arith
split-append sep (c ∷ s) t h = ground (arith, split-append sep s t)

pub split_first-append :
    (sep : ℕ) (s t : Text) → has_char sep s ≡ false → split_first sep (s ++ sep ∷ t) ≡ (s, some t)
unfolding split_first any
split_first-append sep [] t h = ground arith
split_first-append sep (c ∷ s) t h = ground (arith, split_first-append sep s t)

-- The prefix comes off.
pub strip_prefix-append : (p s : Text) → strip_prefix p (p ++ s) ≡ some s
unfolding strip_prefix
strip_prefix-append [] s = refl
strip_prefix-append (c ∷ p) s = ground (arith, strip_prefix-append p s)

-- A text without space at its ends is left alone.
pub trim_right_of_word : (s : Text) → any is_space s ≡ false → trim_right is_space s ≡ s
unfolding trim_right any
trim_right_of_word [] h = refl
trim_right_of_word (c ∷ []) h = ground arith
trim_right_of_word (c ∷ d ∷ s) h = ground (arith, trim_right_of_word (d ∷ s))

pub trim_space_of_word : (s : Text) → any is_space s ≡ false → trim_space s ≡ s
unfolding trim_space trim_left any
trim_space_of_word [] h = trim_right_of_word [] h
trim_space_of_word (c ∷ s) h = ground (arith, trim_right_of_word (c ∷ s))

trim_right_idem : (s : Text) → trim_right is_space (trim_right is_space s) ≡ trim_right is_space s
unfolding trim_right
trim_right_idem [] = refl
trim_right_idem (c ∷ s) = first (trim_right is_space s) (trim_right_idem s)
  where
    first :
        (r : Text)
        → trim_right is_space r ≡ r
        → trim_right is_space (keep_first is_space c r) ≡ keep_first is_space c r
    first [] e = ground arith
    first (d ∷ r) e = ground (arith, e)

trim_left-trim_right :
    (s : Text)
    → trim_left is_space (trim_right is_space s) ≡ trim_right is_space (trim_left is_space s)
unfolding trim_left trim_right
trim_left-trim_right [] = refl
trim_left-trim_right (c ∷ s) = first (trim_right is_space s) refl (trim_left-trim_right s)
  where
    first :
        (r : Text)
        → trim_right is_space s ≡ r
        → trim_left is_space r ≡ trim_right is_space (trim_left is_space s)
        → trim_left is_space (keep_first is_space c r)
          ≡ trim_right is_space (if is_space c then trim_left is_space s else c ∷ s)
    first [] g e = ground (arith, e, g)
    first (d ∷ r) g e = ground (arith, e, g)

trim_left_idem : (s : Text) → trim_left is_space (trim_left is_space s) ≡ trim_left is_space s
unfolding trim_left
trim_left_idem [] = refl
trim_left_idem (c ∷ s) = ground (arith, trim_left_idem s)

-- Trimming twice is trimming once.
pub trim_space_idem : (s : Text) → trim_space (trim_space s) ≡ trim_space s
unfolding trim_space
trim_space_idem s =
    ap (trim_right is_space) (trim_left-trim_right (trim_left is_space s))
    ∙ (ap (λ t. trim_right is_space (trim_right is_space t)) (trim_left_idem s)
        ∙ trim_right_idem (trim_left is_space s))
