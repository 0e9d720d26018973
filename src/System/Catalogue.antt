-- ===== src/System/Catalogue.antt =====
-- The catalogue in every reachable world.
use streaming_bot.Prelude.{
  ◌≤◌, Text, text_eq, List, [], ◌∷◌, Bool, false, not, ◌&&◌, any, select, update_where, ◌≡◌, refl,
  arith,
}
use streaming_bot.Prelude.Int.{pos, ltb_ℤ, is_int4}
use streaming_bot.Prelude.Tables.{any-append, count, count-append, count-any}
use streaming_bot.World.{World, Db}
use streaming_bot.Domain.Content.{Content}
use streaming_bot.Storage.Purchases
use streaming_bot.Storage.Contents
use streaming_bot.Storage.Grants
use streaming_bot.Storage.Reviews
use streaming_bot.Storage.Payments
use streaming_bot.Storage.Outbox
use streaming_bot.App.IssueAccess.{Handler}
use streaming_bot.System.Closed.{IsClosed}
use streaming_bot.System.Reach.{Reach, initial}
use streaming_bot.System.Reach.Laws.{Reach-closed}

abbrev pub is_mispriced : Content → Bool
is_mispriced c = not (ltb_ℤ (pos 0) c.price_stars && is_int4 c.price_stars)

-- No item without a price in range, and no two items of one id.
abbrev pub IsPriced : Text → Db → Type 0
IsPriced id d = (any is_mispriced d.content ≡ false) × (count (λ c. text_eq c.id id) d.content ≤ 1)

any-select_none {ℓ} :
    {A : Type ℓ} (q p : A → Bool) (l : List A) → any q l ≡ false → any q (select p l) ≡ false
unfolding any select
any-select_none q p [] h = refl
any-select_none q p (x ∷ l) h = ground (arith, any-select_none q p l)

count-select {ℓ} : {A : Type ℓ} (q p : A → Bool) (l : List A) → count q (select p l) ≤ count q l
unfolding count select
count-select q p [] = omega arith
count-select q p (x ∷ l) = ground (arith, count-select q p l)

any-update_where_none {ℓ} :
    {A : Type ℓ} (q p : A → Bool) (z : A) (l : List A)
    → q z ≡ false
    → any q l ≡ false
    → any q (update_where p (λ _. z) l) ≡ false
unfolding any update_where
any-update_where_none q p z [] hz h = refl
any-update_where_none q p z (x ∷ l) hz h = ground (arith, any-update_where_none q p z l)

-- A row that is written over keeps its id.
count-update_where_id :
    (id : Text) (z : Content) (l : List Content)
    → count (λ c. text_eq c.id id) (update_where (λ c. text_eq c.id z.id) (λ _. z) l)
      ≡ count (λ c. text_eq c.id id) l
unfolding count update_where
count-update_where_id id z [] = refl
count-update_where_id id z (x ∷ l) = ground (arith, count-update_where_id id z l)

pub IsPriced-IsClosed : (id : Text) → IsClosed (IsPriced id)
unfolding Purchases.insert_row Purchases.update_row Grants.insert_row Grants.mark_used_row
    Reviews.insert_row Payments.insert_event Payments.insert_key Outbox.insert_row
    Outbox.mark_published_row Contents.upsert_row Contents.delete_row Contents.seed_row
IsPriced-IsClosed id = record {
  stable = record {
    insert_purchase = λ r d h. ground arith;
    update_purchase = λ r d h. ground arith;
    insert_grant = λ g d h. ground arith;
    mark_used = λ i d h. h;
    insert_review = λ r d h. ground arith;
    insert_event = λ e d h. ground arith;
    insert_key = λ j d h. ground arith;
    insert_outbox = λ i p d h. ground arith;
    upsert_content = λ c d h. ground (
      arith,
      any-append is_mispriced d.content c,
      any-update_where_none is_mispriced (λ q. text_eq q.id c.id) c d.content,
      count-append (λ q. text_eq q.id id) d.content c,
      count-any (λ q. text_eq q.id id) d.content,
      count-update_where_id id c d.content,
    );
    delete_content = λ i d h. ground (
      arith,
      any-select_none is_mispriced (λ q. not (text_eq q.id i)) d.content,
      count-select (λ q. text_eq q.id id) (λ q. not (text_eq q.id i)) d.content,
    );
    seed_content = λ c d h. ground (
      arith,
      any-append is_mispriced d.content c,
      count-append (λ q. text_eq q.id id) d.content c,
      count-any (λ q. text_eq q.id id) d.content,
    );
    advance = λ now d h. h;
  };
  mark_published = λ i d h. h;
}

-- In every reachable world, by whatever commands of the bot and rounds of the synchronisation the
-- catalogue came about, each of its items has a price above zero that fits in 32 bits, and an id has
-- one item at most.
catalogue_is_priced :
    (h : Handler) (w : World) (id : Text)
    → Reach h initial w
    → (any (λ c. not (ltb_ℤ (pos 0) c.price_stars && is_int4 c.price_stars)) w.db.content ≡ false)
      × (count (λ c. text_eq c.id id) w.db.content ≤ 1)
unfolding any count
catalogue_is_priced h w id r =
    Reach-closed h (IsPriced id) (IsPriced-IsClosed id) (refl, omega arith) r
