-- ===== src/System/Sound/Statements.antt =====
-- The statements of the repositories, one triple for each that writes.
use streaming_bot.Prelude.{
  ℕ, ◌<◌, Text, text, text_eq, List, [], ◌∷◌, Option, none, some, Bool, true, false, ◌&&◌, any,
  find, ◌≡◌, refl, arith, if◌then◌else◌, update_where,
}
use streaming_bot.Prelude.Tables.{
  any-append, count-append, count-update_where_same, any-update_where_same, any_of_find, find-some,
  any_mono,
}
use streaming_bot.Exec.{gets}
use streaming_bot.Exec.Triple.{Triple, OnSome}
use streaming_bot.World.{Db, PurchaseRow}
use streaming_bot.Domain.Access.{Grant}
use streaming_bot.Domain.Payment.{Event}
use streaming_bot.Domain.Review.{Review}
use streaming_bot.Domain.Content.{Content}
use streaming_bot.Domain.Purchase.{Purchase, paid, status_text}
use streaming_bot.Domain.Purchase.Lifecycle.{status_text-parse_status}
use streaming_bot.Storage.Purchases
use streaming_bot.Storage.Purchases.{to_row, of_row, select_one, nullable_string}
use streaming_bot.Storage.Grants
use streaming_bot.Storage.Outbox
use streaming_bot.Storage.Reviews
use streaming_bot.Storage.Payments
use streaming_bot.Storage.Contents
use streaming_bot.System.Sound.{IsSound, has_row, is_pending, confirmations}

module _ (k : Text) where
  pub has_row-update :
      (r : PurchaseRow) (l : List PurchaseRow)
      → has_row k (update_where (λ q. text_eq q.id r.id) (λ _. r) l) ≡ has_row k l
  has_row-update r l =
      any-update_where_same (λ q. text_eq q.id k) (λ q. text_eq q.id r.id) (λ _. r) l
        (λ q e. ground arith)

  pub is_pending-update :
      (r : PurchaseRow) (l : List PurchaseRow)
      → any (is_pending k) (update_where (λ q. text_eq q.id r.id) (λ _. r) l) ≡ (
          if text_eq r.id k
          then text_eq r.status (text "pending") && has_row k l
          else any (is_pending k) l)
  unfolding any update_where
  is_pending-update r [] = ground arith
  is_pending-update r (q ∷ l) = ground (arith, is_pending-update r l)

module _ (k : Text) (m : ℕ) where
  -- What a purchase that was read says of the table.
  abbrev pub Read : Purchase → Db → Type 0
  Read p d =
      IsSound k m d
      × (p.id ≡ k → status_text p.status ≡ text "pending" → any (is_pending k) d.purchases ≡ true)

  pub select_one-Read :
      (q : PurchaseRow → Bool) (F : Purchase → Type 0)
      → ((r : PurchaseRow) → q r ≡ true → F (of_row r))
      → Triple
          (IsSound k m)
          (select_one q)
          (OnSome (λ p d. Read p d × F p) (IsSound k m))
          (IsSound k m)
  unfolding select_one gets of_row
  select_one-Read q F passed = record { at = λ d h. go d h (find q d.purchases) refl }
    where
      go :
          (d : Db)
          → IsSound k m d
          → (o : Option PurchaseRow) → find q d.purchases ≡ o
          → OnSome
              (λ p d. Read p d × F p)
              (IsSound k m)
              (elim o [ none ↦ none | some r ↦ some (of_row r) ])
              d
      go d h none e = h
      go d h (some r) e = (
        (
          h,
          λ same late.
              any_of_find q (is_pending k) d.purchases r e
                (ground (arith, status_text-parse_status r.status)),
        ),
        passed r (find-some q d.purchases r e),
      )

  pub insert_row-IsSound :
      (r : PurchaseRow) (d : Db) → IsSound k m d → IsSound k m (Purchases.insert_row r d).1
  unfolding Purchases.insert_row
  insert_row-IsSound r d h = ground (
    arith,
    any-append (is_pending k) d.purchases r,
    any-append (λ q. text_eq q.id k) d.purchases r,
  )

  -- A row may be written back unless that would bring a paid purchase back to `pending`.
  update_row-IsSound :
      (r : PurchaseRow) (d : Db)
      → IsSound k m d
      → (r.id ≡ k → r.status ≡ text "pending" → any (is_pending k) d.purchases ≡ true)
      → IsSound k m (Purchases.update_row r d).1
  unfolding Purchases.update_row
  update_row-IsSound r d h late =
      ground (arith, has_row-update k r d.purchases, is_pending-update k r d.purchases)

  -- `Update` of a purchase that was read, with a status that is not set back.
  pub update-IsSound :
      (p : Purchase) (d : Db) → Read p d → IsSound k m (Purchases.update_row (to_row p) d).1
  unfolding to_row nullable_string
  update-IsSound p d h = update_row-IsSound (to_row p) d h.0 h.1

  abbrev pub JustPaid : Purchase → Db → Type 0
  JustPaid p d =
      IsSound k m d
      × (p.id ≡ k
          → (confirmations k d ≡ 0)
            × (any (is_pending k) d.purchases ≡ false)
            × (has_row k d.purchases ≡ true))

  -- `Update` of a purchase that was pending and has been marked as paid.
  pub update-JustPaid :
      (p : Purchase)
      → p.status ≡ paid
      → Triple
          (λ d. IsSound k m d × (p.id ≡ k → any (is_pending k) d.purchases ≡ true))
          (Purchases.update_row (to_row p))
          (λ _. JustPaid p)
          (IsSound k m)
  unfolding Purchases.update_row to_row nullable_string status_text
  update-JustPaid p s = record {
    at = λ d h. ground (
      arith,
      has_row-update k (to_row p) d.purchases,
      is_pending-update k (to_row p) d.purchases,
      any_mono (is_pending k) (λ r. text_eq r.id k) d.purchases (λ r e. ground arith),
    );
  }

  pub publish-IsSound :
      (id : Text) (p : Purchase) (d : Db)
      → JustPaid p d
      → IsSound k m (Outbox.insert_row id p.id d).1
  unfolding Outbox.insert_row
  publish-IsSound id p d h = ground (
    arith,
    count-append (λ e. text_eq e.purchase_id k) d.outbox_events
        (record {
          id = id;
          event_type = text "purchase_confirmed";
          purchase_id = p.id;
          created_at = d.now;
          published = false;
        }),
  )

  pub insert_event-JustPaid :
      (e : Event) (p : Purchase) (d : Db) → JustPaid p d → JustPaid p (Payments.insert_event e d).1
  unfolding Payments.insert_event
  insert_event-JustPaid e p d h = ground arith

  pub insert_key-IsSound :
      (key : Text) (d : Db) → IsSound k m d → IsSound k m (Payments.insert_key key d).1
  unfolding Payments.insert_key
  insert_key-IsSound key d h = ground arith

  pub insert_review-IsSound :
      (r : Review) (d : Db) → IsSound k m d → IsSound k m (Reviews.insert_row r d).1
  unfolding Reviews.insert_row
  insert_review-IsSound r d h = ground arith

  pub upsert_row-IsSound :
      (c : Content) (d : Db) → IsSound k m d → IsSound k m (Contents.upsert_row c d).1
  unfolding Contents.upsert_row
  upsert_row-IsSound c d h = ground arith

  pub delete_row-IsSound :
      (id : Text) (d : Db) → IsSound k m d → IsSound k m (Contents.delete_row id d).1
  unfolding Contents.delete_row
  delete_row-IsSound id d h = ground arith

  pub advance-IsSound : (now : ℕ) (d : Db) → IsSound k m d → IsSound k m (record d { now = now })
  advance-IsSound now d h = ground arith

  pub seed_row-IsSound :
      (c : Content) (d : Db) → IsSound k m d → IsSound k m (Contents.seed_row c d).1
  unfolding Contents.seed_row
  seed_row-IsSound c d h = ground arith

  pub mark_published_row-IsSound :
      (id : Text) (d : Db) → IsSound k m d → IsSound k m (Outbox.mark_published_row id d).1
  unfolding Outbox.mark_published_row
  mark_published_row-IsSound id d h = ground (
    arith,
    count-update_where_same (λ e. text_eq e.purchase_id k) (λ e. text_eq e.id id)
        (λ e. record e { published = true }) d.outbox_events (λ e late. refl),
  )

  pub mark_used_row-IsSound :
      (id : Text) (d : Db) → IsSound k m d → IsSound k m (Grants.mark_used_row id d).1
  unfolding Grants.mark_used_row
  mark_used_row-IsSound id d h = ground (
    arith,
    any-update_where_same (λ g. text_eq g.purchase_id k)
        (λ g. text_eq g.id id && Grants.is_unused g) (λ g. record g { used_at = some d.now })
        d.access_grants (λ g late. refl),
  )

  -- A grant is for a purchase that is confirmed.
  pub insert_grant-IsSound :
      (g : Grant)
      → (g.purchase_id ≡ k → 0 < m)
      → (d : Db) → IsSound k m d
      → IsSound k m (Grants.insert_row g d).1
  unfolding Grants.insert_row
  insert_grant-IsSound g c d h =
      ground (arith, any-append (λ q. text_eq q.purchase_id k) d.access_grants g)
