-- ===== src/System/Closed/Facts.antt =====
-- Facts of a row that no statement undoes: a processed key, a grant that was used, a review.
use streaming_bot.Prelude.{
  ◌≤◌, find, some, Text, text_eq, true, false, not, any, ◌≡◌, refl, ◌∙◌, arith,
}
use streaming_bot.Prelude.Tables.{
  any-append, find-append, count, count-append, count-any, any-update_where_same,
}
use streaming_bot.World.{Db}
use streaming_bot.Storage.Purchases
use streaming_bot.Storage.Contents
use streaming_bot.Storage.Grants
use streaming_bot.Storage.Grants.Marks.{
  has_hash, is_open, no_clash, any-mark_used, count-mark_used, none_open-mark_used,
}
use streaming_bot.Storage.Reviews
use streaming_bot.Storage.Payments
use streaming_bot.Storage.Payments.{processed}
use streaming_bot.Storage.Outbox
use streaming_bot.System.Closed.{IsClosed}
use streaming_bot.System.Sound.{has_grant}
use streaming_bot.Domain.Review.{Review, is_valid_rating}

-- The key of a payment is in the table.
abbrev pub HasKey : Text → Db → Type 0
HasKey key d = processed key d ≡ true

pub HasKey-IsClosed : (key : Text) → IsClosed (HasKey key)
unfolding Purchases.insert_row Purchases.update_row Grants.insert_row Grants.mark_used_row
    Reviews.insert_row Payments.insert_event Payments.insert_key Outbox.insert_row
    Outbox.mark_published_row Contents.upsert_row Contents.delete_row Contents.seed_row
HasKey-IsClosed key = record {
  stable = record {
    insert_purchase = λ r d h. ground arith;
    update_purchase = λ r d h. ground arith;
    insert_grant = λ g d h. ground arith;
    mark_used = λ id d h. h;
    insert_review = λ r d h. ground arith;
    insert_event = λ e d h. ground arith;
    insert_key = λ j d h. ground (arith, any-append (λ i. text_eq i key) d.idempotency_keys j);
    insert_outbox = λ id pid d h. ground arith;
    upsert_content = λ c d h. ground arith;
    delete_content = λ id d h. h;
    seed_content = λ c d h. ground arith;
    advance = λ now d h. h;
  };
  mark_published = λ id d h. h;
}

-- At most one grant has this token hash.
abbrev pub HasOneGrant : Text → Db → Type 0
HasOneGrant h d = count (has_hash h) d.access_grants ≤ 1

pub HasOneGrant-IsClosed : (h : Text) → IsClosed (HasOneGrant h)
unfolding Purchases.insert_row Purchases.update_row Grants.insert_row Grants.mark_used_row
    Reviews.insert_row Payments.insert_event Payments.insert_key Outbox.insert_row
    Outbox.mark_published_row Contents.upsert_row Contents.delete_row Contents.seed_row
HasOneGrant-IsClosed h = record {
  stable = record {
    insert_purchase = λ r d x. ground arith;
    update_purchase = λ r d x. ground arith;
    insert_grant = λ g d x. ground (
      arith,
      no_clash h g d.access_grants,
      count-any (has_hash h) d.access_grants,
      count-append (has_hash h) d.access_grants g,
    );
    mark_used = λ id d x. ground (arith, count-mark_used h id d.now d.access_grants);
    insert_review = λ r d x. ground arith;
    insert_event = λ e d x. ground arith;
    insert_key = λ j d x. ground arith;
    insert_outbox = λ id pid d x. ground arith;
    upsert_content = λ c d x. ground arith;
    delete_content = λ id d x. x;
    seed_content = λ c d x. ground arith;
    advance = λ now d x. x;
  };
  mark_published = λ id d x. x;
}

-- The token has a grant, and no grant of it is open.
abbrev pub IsSpent : Text → Db → Type 0
IsSpent h d = (any (has_hash h) d.access_grants ≡ true) × (any (is_open h) d.access_grants ≡ false)

pub IsSpent-IsClosed : (h : Text) → IsClosed (IsSpent h)
unfolding Purchases.insert_row Purchases.update_row Grants.insert_row Grants.mark_used_row
    Reviews.insert_row Payments.insert_event Payments.insert_key Outbox.insert_row
    Outbox.mark_published_row Contents.upsert_row Contents.delete_row Contents.seed_row
IsSpent-IsClosed h = record {
  stable = record {
    insert_purchase = λ r d x. ground arith;
    update_purchase = λ r d x. ground arith;
    insert_grant = λ g d x. ground (
      arith,
      no_clash h g d.access_grants,
      any-append (has_hash h) d.access_grants g,
      any-append (is_open h) d.access_grants g,
    );
    mark_used = λ id d x. ground (
      arith,
      any-mark_used h id d.now d.access_grants,
      none_open-mark_used h id d.now d.access_grants,
    );
    insert_review = λ r d x. ground arith;
    insert_event = λ e d x. ground arith;
    insert_key = λ j d x. ground arith;
    insert_outbox = λ id pid d x. ground arith;
    upsert_content = λ c d x. ground arith;
    delete_content = λ id d x. x;
    seed_content = λ c d x. ground arith;
    advance = λ now d x. x;
  };
  mark_published = λ id d x. x;
}

-- A review of this purchase is there.
abbrev pub HasReview : Text → Db → Type 0
HasReview id d = any (λ r. text_eq r.purchase_id id) d.reviews ≡ true

pub HasReview-IsClosed : (id : Text) → IsClosed (HasReview id)
unfolding Purchases.insert_row Purchases.update_row Grants.insert_row Grants.mark_used_row
    Reviews.insert_row Payments.insert_event Payments.insert_key Outbox.insert_row
    Outbox.mark_published_row Contents.upsert_row Contents.delete_row Contents.seed_row
HasReview-IsClosed id = record {
  stable = record {
    insert_purchase = λ r d x. ground arith;
    update_purchase = λ r d x. ground arith;
    insert_grant = λ g d x. ground arith;
    mark_used = λ i d x. x;
    insert_review = λ r d x. ground (arith, any-append (λ q. text_eq q.purchase_id id) d.reviews r);
    insert_event = λ e d x. ground arith;
    insert_key = λ j d x. ground arith;
    insert_outbox = λ i pid d x. ground arith;
    upsert_content = λ c d x. ground arith;
    delete_content = λ i d x. x;
    seed_content = λ c d x. ground arith;
    advance = λ now d x. x;
  };
  mark_published = λ i d x. x;
}

-- The review that is found for this purchase.
abbrev pub IsReviewedBy : Text → Review → Db → Type 0
IsReviewedBy id x d = find (λ r. text_eq r.purchase_id id) d.reviews ≡ some x

pub IsReviewedBy-IsClosed : (id : Text) (x : Review) → IsClosed (IsReviewedBy id x)
unfolding Purchases.insert_row Purchases.update_row Grants.insert_row Grants.mark_used_row
    Reviews.insert_row Payments.insert_event Payments.insert_key Outbox.insert_row
    Outbox.mark_published_row Contents.upsert_row Contents.delete_row Contents.seed_row
IsReviewedBy-IsClosed id x = record {
  stable = record {
    insert_purchase = λ r d h. ground arith;
    update_purchase = λ r d h. ground arith;
    insert_grant = λ g d h. ground arith;
    mark_used = λ i d h. h;
    insert_review =
        λ r d h. ground (arith, find-append (λ q. text_eq q.purchase_id id) d.reviews r);
    insert_event = λ e d h. ground arith;
    insert_key = λ j d h. ground arith;
    insert_outbox = λ i pid d h. ground arith;
    upsert_content = λ c d h. ground arith;
    delete_content = λ i d h. h;
    seed_content = λ c d h. ground arith;
    advance = λ now d h. h;
  };
  mark_published = λ i d h. h;
}

-- The purchase has a grant.
abbrev pub HasGrant : Text → Db → Type 0
HasGrant k d = has_grant k d ≡ true

pub HasGrant-IsClosed : (k : Text) → IsClosed (HasGrant k)
unfolding Purchases.insert_row Purchases.update_row Grants.insert_row Grants.mark_used_row
    Reviews.insert_row Payments.insert_event Payments.insert_key Outbox.insert_row
    Outbox.mark_published_row Contents.upsert_row Contents.delete_row Contents.seed_row
HasGrant-IsClosed k = record {
  stable = record {
    insert_purchase = λ r d h. ground arith;
    update_purchase = λ r d h. ground arith;
    insert_grant =
        λ g d h. ground (arith, any-append (λ q. text_eq q.purchase_id k) d.access_grants g);
    mark_used = λ id d h.
        any-update_where_same (λ q. text_eq q.purchase_id k) _ _ d.access_grants (λ x e. refl) ∙ h;
    insert_review = λ r d h. ground arith;
    insert_event = λ e d h. ground arith;
    insert_key = λ j d h. ground arith;
    insert_outbox = λ id pid d h. ground arith;
    upsert_content = λ c d h. ground arith;
    delete_content = λ id d h. h;
    seed_content = λ c d h. ground arith;
    advance = λ now d h. h;
  };
  mark_published = λ id d h. h;
}

-- Every review has a rating from 1 to 5, and this purchase has one review at most.
abbrev pub AreRated : Text → Db → Type 0
AreRated id d =
    (any (λ r. not (is_valid_rating r)) d.reviews ≡ false)
    × (count (λ r. text_eq r.purchase_id id) d.reviews ≤ 1)

pub AreRated-IsClosed : (id : Text) → IsClosed (AreRated id)
unfolding Purchases.insert_row Purchases.update_row Grants.insert_row Grants.mark_used_row
    Reviews.insert_row Payments.insert_event Payments.insert_key Outbox.insert_row
    Outbox.mark_published_row Contents.upsert_row Contents.delete_row Contents.seed_row
AreRated-IsClosed id = record {
  stable = record {
    insert_purchase = λ r d h. ground arith;
    update_purchase = λ r d h. ground arith;
    insert_grant = λ g d h. ground arith;
    mark_used = λ i d h. h;
    insert_review = λ r d h. ground (
      arith,
      any-append (λ q. not (is_valid_rating q)) d.reviews r,
      count-append (λ q. text_eq q.purchase_id id) d.reviews r,
      count-any (λ q. text_eq q.purchase_id id) d.reviews,
    );
    insert_event = λ e d h. ground arith;
    insert_key = λ j d h. ground arith;
    insert_outbox = λ i pid d h. ground arith;
    upsert_content = λ c d h. ground arith;
    delete_content = λ i d h. h;
    seed_content = λ c d h. ground arith;
    advance = λ now d h. h;
  };
  mark_published = λ i d h. h;
}
