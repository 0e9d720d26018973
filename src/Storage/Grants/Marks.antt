-- ===== src/Storage/Grants/Marks.antt =====
-- What `MarkUsed` and `Create` do to the grants of one token.
use streaming_bot.Prelude.{
  ℕ, ◌≤◌, Text, text_eq, List, [], ◌∷◌, some, Bool, false, ◌&&◌, any, find, ◌≡◌, refl, arith,
  update_where,
}
use streaming_bot.Prelude.Tables.{any-update_where_same, count, count-update_where_same}
use streaming_bot.Domain.Access.{Grant}
use streaming_bot.Storage.Grants.{clashes, is_unused}

abbrev pub has_hash : Text → Grant → Bool
has_hash h g = text_eq g.token_hash h

-- A grant of this token that has not been used.
abbrev pub is_open : Text → Grant → Bool
is_open h g = text_eq g.token_hash h && is_unused g

-- The rows of the table after `MarkUsed`.
abbrev pub marked : Text → ℕ → List Grant → List Grant
marked id now l =
    update_where (λ g. text_eq g.id id && is_unused g) (λ g. record g { used_at = some now }) l

-- A row that clashes with none has a hash of its own.
pub no_clash :
    (h : Text) (g : Grant) (l : List Grant)
    → any (clashes g) l ≡ false
    → g.token_hash ≡ h
    → any (has_hash h) l ≡ false
unfolding any
no_clash h g [] e same = refl
no_clash h g (x ∷ l) e same = ground (arith, no_clash h g l)

module _ (h id : Text) (now : ℕ) where
  pub any-mark_used : (l : List Grant) → any (has_hash h) (marked id now l) ≡ any (has_hash h) l
  any-mark_used l = any-update_where_same (has_hash h) _ _ l (λ g e. refl)

  pub count-mark_used :
      (l : List Grant) → count (has_hash h) (marked id now l) ≡ count (has_hash h) l
  count-mark_used l = count-update_where_same (has_hash h) _ _ l (λ g e. refl)

  pub none_open-mark_used :
      (l : List Grant) → any (is_open h) l ≡ false → any (is_open h) (marked id now l) ≡ false
  unfolding any update_where
  none_open-mark_used [] e = refl
  none_open-mark_used (g ∷ l) e = ground (arith, none_open-mark_used l)

none_open_of_count :
    (h : Text) (l : List Grant) → count (has_hash h) l ≡ 0 → any (is_open h) l ≡ false
unfolding any count
none_open_of_count h [] e = refl
none_open_of_count h (g ∷ l) e = ground (arith, none_open_of_count h l)

-- The mark closes the one grant of a token.
pub mark_used-closes :
    (h : Text) (now : ℕ) (g : Grant) (l : List Grant)
    → count (has_hash h) l ≤ 1
    → find (has_hash h) l ≡ some g
    → any (is_open h) (marked g.id now l) ≡ false
unfolding any update_where count find
mark_used-closes h now g [] one e = refl
mark_used-closes h now g (x ∷ l) one e =
    ground
      (arith, mark_used-closes h now g l, none_open_of_count h l, none_open-mark_used h g.id now l)
