-- ===== src/System/Reviews.antt =====
-- The reviews of the program.
use streaming_bot.Prelude.{
  ℕ, ◌++◌, false, Text, text, text_eq, Bool, [], Option, none, some, find, Option-cases, inl, inr,
  ◌⊎◌, true, any, ◌≡◌, refl, arith,
}
use streaming_bot.Prelude.Int.{pos, ◌≤ℤ◌}
use streaming_bot.Prelude.Tables.{any-append, find-append, count, find-none, find-some, find-any}
use streaming_bot.Exec.{ok, ◌>>=◌, raise_if, attempt, present, gets, pure}
use streaming_bot.Exec.Ensures.{Ensures, Ensures-bind}
use streaming_bot.System.Sound.Issue.{found_id}
use streaming_bot.World.{World, PurchaseRow, sql, time_now}
use streaming_bot.Domain.Review.{Review}
use streaming_bot.Storage.Purchases
use streaming_bot.Storage.Reviews
use streaming_bot.App.IssueAccess.{Handler}
use streaming_bot.App.RequestReview
use streaming_bot.App.SubmitReview.{Command, handle}
use streaming_bot.System.Closed.Facts.{
  IsReviewedBy, IsReviewedBy-IsClosed, HasReview, HasReview-IsClosed, AreRated, AreRated-IsClosed,
}
use streaming_bot.System.Closed.{submit-Kept}
use streaming_bot.Exec.Triple.{state_of_Keeps}
use streaming_bot.System.Reach.{Reach, initial}
use streaming_bot.System.Reach.Laws.{Reach-closed}

-- In every reachable world every stored review has a rating from 1 to 5, and no purchase has two.
reviews-AreRated : (h : Handler) {w : World} (id : Text) → Reach h initial w → AreRated id w.db
unfolding any count
reviews-AreRated h id r = Reach-closed h (AreRated id) (AreRated-IsClosed id) (refl, omega arith) r

create-HasReview : (r : Review) → Ensures (λ _ w. HasReview r.purchase_id w.db) (Reviews.create r)
unfolding Reviews.create Reviews.insert_row sql time_now ◌>>=◌
create-HasReview r = record {
  at = λ w a e. ground (
    arith,
    any-append (λ q. text_eq q.purchase_id r.purchase_id) w.db.reviews (Reviews.stamped w.clock r),
  );
}

handle-HasReview : (c : Command) → Ensures (λ _ w. HasReview c.purchase_id w.db) (handle c)
unfolding handle
handle-HasReview c =
    Ensures-bind _ _
      λ _. Ensures-bind _ _ λ _. Ensures-bind _ _ λ _. Ensures-bind _ _ λ _. create-HasReview _

handle-ok :
    (c : Command) (w : World)
    → (handle c w).0 ≡ ok tt
    → HasReview c.purchase_id (handle c w).1.db
      × (pos 1 ≤ℤ c.rating)
      × (c.rating ≤ℤ pos 5)
      × (any (λ p. text_eq p.id c.purchase_id) w.db.purchases ≡ true)
unfolding handle Purchases.get_by_id Purchases.select_one Reviews.create Reviews.insert_row sql gets
    time_now attempt present raise_if ◌>>=◌
handle-ok c w e = (
  (handle-HasReview c).at w tt e,
  ground arith,
  ground arith,
  ground (arith, find-none (λ p. text_eq p.id c.purchase_id) w.db.purchases),
)

handle_of_HasReview :
    (c : Command) (w : World)
    → HasReview c.purchase_id w.db
    → (handle c w).1.db.reviews ≡ w.db.reviews
unfolding handle Purchases.get_by_id Purchases.select_one Reviews.create Reviews.insert_row sql gets
    time_now attempt present raise_if ◌>>=◌
handle_of_HasReview c w there = ground arith

-- The review of the command, as it was sent.
abbrev pub IsOf : Command → Review → Type 0
IsOf c x =
    (x.user_id ≡ c.user_id)
    × (x.purchase_id ≡ c.purchase_id)
    × (x.rating ≡ c.rating)
    × (x.text ≡ c.comment)

abbrev submitted : Command → ℕ → Review
submitted c now = Reviews.stamped now (record {
  id = text "review-" ++ c.purchase_id;
  user_id = c.user_id;
  purchase_id = c.purchase_id;
  rating = c.rating;
  text = c.comment;
  published = false;
  created_at = now;
})

submitted-IsOf : (c : Command) (now : ℕ) → IsOf c (submitted c now)
submitted-IsOf c now = (ground arith, ground arith, ground arith, ground arith)

handle-first :
    (c : Command) (w : World)
    → (handle c w).0 ≡ ok tt
    → find (λ r. text_eq r.purchase_id c.purchase_id) w.db.reviews ≡ none
    → (x : Review) × (find (λ r. text_eq r.purchase_id c.purchase_id) (handle c w).1.db.reviews
        ≡ some x)
      × IsOf c x
unfolding handle Purchases.get_by_id Purchases.select_one Reviews.create Reviews.insert_row sql gets
    time_now attempt present raise_if ◌>>=◌
handle-first c w e new = (
  submitted c w.clock,
  ground (
    arith,
    find-any (λ r. text_eq r.purchase_id c.purchase_id) w.db.reviews,
    find-append (λ r. text_eq r.purchase_id c.purchase_id) w.db.reviews (submitted c w.clock),
  ),
  submitted-IsOf c w.clock,
)

handle-again :
    (c : Command) (w : World) (x : Review)
    → find (λ r. text_eq r.purchase_id c.purchase_id) w.db.reviews ≡ some x
    → find (λ r. text_eq r.purchase_id c.purchase_id) (handle c w).1.db.reviews ≡ some x
handle-again c w x there =
    state_of_Keeps (submit-Kept _ (IsReviewedBy-IsClosed c.purchase_id x).stable c) w there

-- A review that is accepted has a rating from 1 to 5 and is of a purchase that exists. If the
-- purchase had no review, this one is stored: what is found for the purchase is the review of the
-- command, with its user, its rating and its text. If it had one, that one is found, although the
-- new one was accepted. It stands for good: in every world that is reached afterwards the same
-- review is found, and a further submission for the purchase leaves the reviews as they are.
pub review_stands :
    (h : Handler) (c c' : Command) (w : World) {v : World}
    → (handle c w).0 ≡ ok tt
    → c'.purchase_id ≡ c.purchase_id
    → Reach h (handle c w).1 v
    → (pos 1 ≤ℤ c.rating)
      × (c.rating ≤ℤ pos 5)
      × (any (λ p. text_eq p.id c.purchase_id) w.db.purchases ≡ true)
      × ((x : Review) × ((find (λ r. text_eq r.purchase_id c.purchase_id) w.db.reviews ≡ some x)
            ⊎ (find (λ r. text_eq r.purchase_id c.purchase_id) w.db.reviews ≡ none) × IsOf c x)
          × (find (λ r. text_eq r.purchase_id c.purchase_id) (handle c w).1.db.reviews ≡ some x)
          × (find (λ r. text_eq r.purchase_id c.purchase_id) v.db.reviews ≡ some x))
      × ((handle c' v).1.db.reviews ≡ v.db.reviews)
review_stands h c c' w {v} e same later =
    let (there, low, high, bought) = handle-ok c w e in
    let kept =
      Reach-closed h (HasReview c.purchase_id) (HasReview-IsClosed c.purchase_id) there later in
    (low, high, bought, stored, handle_of_HasReview c' v (rw same kept))
  where
    found : Review → World → Type 0
    found x u = find (λ r. text_eq r.purchase_id c.purchase_id) u.db.reviews ≡ some x

    stays : (x : Review) → found x (handle c w).1 → found x v
    stays x f =
        Reach-closed h (IsReviewedBy c.purchase_id x) (IsReviewedBy-IsClosed c.purchase_id x) f
          later

    stored :
        (x : Review) × ((find (λ r. text_eq r.purchase_id c.purchase_id) w.db.reviews ≡ some x)
          ⊎ (find (λ r. text_eq r.purchase_id c.purchase_id) w.db.reviews ≡ none) × IsOf c x)
        × (find (λ r. text_eq r.purchase_id c.purchase_id) (handle c w).1.db.reviews ≡ some x)
        × (find (λ r. text_eq r.purchase_id c.purchase_id) v.db.reviews ≡ some x)
    stored = elim (Option-cases (find (λ r. text_eq r.purchase_id c.purchase_id) w.db.reviews)) [
      | inl new ↦ let (x, f, mine) = handle-first c w e new in (x, inr (new, mine), f, stays x f)
      | inr (x, old) ↦ let f = handle-again c w x old in (x, inl old, f, stays x f)
    ]

request_of_HasReview :
    (has_bot : Bool) (id : Text) (w : World)
    → w.net ≡ []
    → HasReview id w.db
    → (RequestReview.handle has_bot id w).1 ≡ w
unfolding RequestReview.handle RequestReview.unless_reviewed Purchases.get_by_id
    Purchases.select_one Purchases.of_row Reviews.get_by_purchase_id sql gets attempt present pure
    ◌>>=◌
request_of_HasReview has_bot id w calm there =
    by_row (find (λ p. text_eq p.id id) w.db.purchases) refl
  where
    by_review :
        (r : PurchaseRow)
        → find (λ p. text_eq p.id id) w.db.purchases ≡ some r
        → any (λ q. text_eq q.purchase_id r.id) w.db.reviews ≡ true
        → (o : Option Review) → find (λ q. text_eq q.purchase_id r.id) w.db.reviews ≡ o
        → (RequestReview.handle has_bot id w).1 ≡ w
    by_review r e known none e' = absurd (find-any _ w.db.reviews known e')
    by_review r e known (some v) e' = rw (calm, e, e') refl

    by_row :
        (o : Option PurchaseRow)
        → find (λ p. text_eq p.id id) w.db.purchases ≡ o
        → (RequestReview.handle has_bot id w).1 ≡ w
    by_row none e = ground arith
    by_row (some r) e =
        let same : r.id ≡ id =
          found_id r id (find-some (λ p. text_eq p.id id) w.db.purchases r e) in
        let known : any (λ q. text_eq q.purchase_id r.id) w.db.reviews ≡ true = rw same there in
        by_review r e known (find (λ q. text_eq q.purchase_id r.id) w.db.reviews) refl

-- Once a review of a purchase was accepted, no user is asked for one: in every world that is
-- reached afterwards and in which the database answers, a request for the purchase sends nothing
-- and writes nothing.
pub review_ends_requests :
    (h : Handler) (c : Command) (w : World) {v : World}
    → (handle c w).0 ≡ ok tt
    → Reach h (handle c w).1 v
    → v.net ≡ []
    → (RequestReview.handle h.has_bot c.purchase_id v).1 ≡ v
review_ends_requests h c w e later calm = request_of_HasReview h.has_bot c.purchase_id _ calm (
    Reach-closed h (HasReview c.purchase_id) (HasReview-IsClosed c.purchase_id)
      ((handle-HasReview c).at w tt e) later)
