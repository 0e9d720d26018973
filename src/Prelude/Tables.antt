-- ===== src/Prelude/Tables.antt =====
-- Laws of the searches: what an appended row, a changed row or a found row says of a test over all
-- rows.
use Prim.Native.Nat.{ℕ, zero, suc, ◌+◌, ◌≤◌, ◌<◌}
use mathlib.Core.Logic.{◌≢◌}
use mathlib.Core.Path.{◌≡◌, refl}
use mathlib.Core.Bool.{Bool, true, false, not, ◌||◌, ◌&&◌}
use mathlib.Core.List.{List, [], ◌∷◌, ◌++◌}
use mathlib.Core.Option.{none, some}
use native.Mathlib.Omega.{arith}
use streaming_bot.Prelude.Tests.{if◌then◌else◌}
use streaming_bot.Prelude.Lists.{find, any, update_where, select, take}

module _ {ℓ} {A : Type ℓ} where
  pub any-append : (q : A → Bool) (l : List A) (x : A) → any q (l ++ x ∷ []) ≡ (any q l || q x)
  unfolding any
  any-append q [] x = ground arith
  any-append q (y ∷ l) x = ground (arith, any-append q l x)

  pub find-append :
      (q : A → Bool) (l : List A) (x : A)
      → find q (l ++ x ∷ [])
        ≡ elim (find q l) [ some y ↦ some y | none ↦ if q x then some x else none ]
  unfolding find
  find-append q [] x = ground arith
  find-append q (y ∷ l) x = ground (arith, find-append q l x)

  -- The row that is found passes the test.
  pub find-some : (q : A → Bool) (l : List A) (x : A) → find q l ≡ some x → q x ≡ true
  unfolding find
  find-some q [] x h = cc
  find-some q (y ∷ l) x h = ground (arith, find-some q l x)

  pub find-none : (q : A → Bool) (l : List A) → any q l ≡ false → find q l ≡ none
  unfolding find any
  find-none q [] h = refl
  find-none q (y ∷ l) h = ground (arith, find-none q l)

  -- A row that passes the test is found, or one before it.
  pub find-any : (q : A → Bool) (l : List A) → any q l ≡ true → find q l ≢ none
  unfolding find any
  find-any q [] h e = cc
  find-any q (y ∷ l) h e = ground (arith, find-any q l)

  -- A row that is found is a witness of every test that it passes.
  pub any_of_find :
      (p q : A → Bool) (l : List A) (x : A) → find p l ≡ some x → q x ≡ true → any q l ≡ true
  unfolding find any
  any_of_find p q [] x h e = cc
  any_of_find p q (y ∷ l) x h e = ground (arith, any_of_find p q l x)

  -- A weaker test finds a row where a stronger one does.
  pub any_mono :
      (p q : A → Bool) (l : List A)
      → ((x : A) → p x ≡ true → q x ≡ true)
      → any p l ≡ true
      → any q l ≡ true
  unfolding any
  any_mono p q [] h e = cc
  any_mono p q (x ∷ l) h e = ground (arith, any_mono p q l h, h x)

  -- A test that no change touches is the same before and after.
  pub any-update_where_same :
      (q p : A → Bool) (f : A → A) (l : List A)
      → ((x : A) → p x ≡ true → q (f x) ≡ q x)
      → any q (update_where p f l) ≡ any q l
  unfolding any update_where
  any-update_where_same q p f [] h = refl
  any-update_where_same q p f (x ∷ l) h = ground (arith, any-update_where_same q p f l h, h x)

  -- The number of rows that pass the test.
  unfoldable pub count : (A → Bool) → List A → ℕ
  count q [] = 0
  count q (x ∷ l) = let n = count q l in if q x then suc n else n

  pub count-append :
      (q : A → Bool) (l : List A) (x : A)
      → count q (l ++ x ∷ []) ≡ count q l + (if q x then 1 else 0)
  unfolding count
  count-append q [] x = ground arith
  count-append q (y ∷ l) x = ground (arith, count-append q l x)

  pub count-update_where_same :
      (q p : A → Bool) (f : A → A) (l : List A)
      → ((x : A) → p x ≡ true → q (f x) ≡ q x)
      → count q (update_where p f l) ≡ count q l
  unfolding count update_where
  count-update_where_same q p f [] h = refl
  count-update_where_same q p f (x ∷ l) h = ground (arith, count-update_where_same q p f l h, h x)

  pub count-any : (q : A → Bool) (l : List A) → any q l ≡ false → count q l ≡ 0
  unfolding count any
  count-any q [] h = refl
  count-any q (x ∷ l) h = ground (arith, count-any q l)

  pub count_pos_of_any : (q : A → Bool) (l : List A) → any q l ≡ true → 0 < count q l
  unfolding count any
  count_pos_of_any q [] h = cc
  count_pos_of_any q (x ∷ l) h = ground (arith, count_pos_of_any q l)

  pub any_of_any-select : (q p : A → Bool) (l : List A) → any q (select p l) ≡ true → any q l ≡ true
  unfolding any select
  any_of_any-select q p [] h = cc
  any_of_any-select q p (x ∷ l) h = ground (arith, any_of_any-select q p l)

  pub any_of_any-take :
      (q : A → Bool) (n : ℕ) (l : List A) → any q (take n l) ≡ true → any q l ≡ true
  unfolding any
  any_of_any-take q zero l h = cc
  any_of_any-take q (suc n) [] h = cc
  any_of_any-take q (suc n) (x ∷ l) h = ground (arith, any_of_any-take q n l)

  -- The changed row is found where the old one was.
  pub find-update_where :
      (q p : A → Bool) (l : List A) (x z : A)
      → find q l ≡ some x
      → p x ≡ true
      → q z ≡ true
      → find q (update_where p (λ _. z) l) ≡ some z
  unfolding find update_where
  find-update_where q p [] x z h px qz = cc
  find-update_where q p (y ∷ l) x z h px qz = ground (arith, find-update_where q p l x z)

  -- Where one row at most passes a test, a row that passes it and another test is the only one.
  pub count-only :
      (q r : A → Bool) (l : List A)
      → count q l ≤ 1
      → any (λ x. q x && r x) l ≡ true
      → any (λ x. q x && not (r x)) l ≡ false
  unfolding count any
  count-only q r [] h e = refl
  count-only q r (x ∷ l) h e = ground (arith, count-only q r l, none_of_count q r l)
    where
      none_of_count :
          (q r : A → Bool) (l : List A)
          → count q l ≡ 0
          → (any (λ x. q x && r x) l ≡ false) × (any (λ x. q x && not (r x)) l ≡ false)
      none_of_count q r [] h = (refl, refl)
      none_of_count q r (x ∷ l) h = ground (arith, none_of_count q r l)
