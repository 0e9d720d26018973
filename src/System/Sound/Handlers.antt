-- ===== src/System/Sound/Handlers.antt =====
-- Every use case but the issue of a link keeps the tables sound, however its calls end.
use streaming_bot.Prelude.{ℕ, Text, List, Option, none, some, Bool, true, any, ◌≡◌, arith}
use streaming_bot.Exec.{Exec, on, pure, gets}
use streaming_bot.Exec.Triple.{
  Triple, Triple-pure, Triple-bind, Triple-if, Triple-raise_if, Triple-lookup, Triple-given,
  Triple-weaken, Keeps, Triple_of_state, OnSome,
}
use streaming_bot.World.{World, Db, PurchaseRow, Io, sql, time_now, rand_read}
use streaming_bot.World.Calls.{
  Triple-sql, Keeps-sql, Keeps-same_db, time_now-db, redis-db, rand_read-db,
}
use streaming_bot.Domain.Payment.{Event}
use streaming_bot.Domain.Purchase.{Purchase, paid, mark_paid, status_text}
use streaming_bot.Storage.Purchases
use streaming_bot.Storage.Payments.{
  is_processed, insert_event, insert_key, save_payment_event, mark_processed,
}
use streaming_bot.Storage.Outbox.{publish_purchase_confirmed, event_id}
use streaming_bot.System.Sound.{IsSound, Sound, is_pending}
use streaming_bot.System.Sound.Statements.{
  Read, JustPaid, select_one-Read, insert_row-IsSound, update-JustPaid, publish-IsSound,
  insert_event-JustPaid, insert_key-IsSound, insert_review-IsSound, mark_used_row-IsSound,
}
use streaming_bot.Storage.Tokens
use streaming_bot.Storage.Tokens.{RedisClient}
use streaming_bot.Storage.Grants.{get_by_token_hash, mark_used, select_by_hash}
use streaming_bot.Exec.Keeps.{keeps_rules}
use streaming_bot.Storage.Contents
use streaming_bot.Storage.Reviews
use streaming_bot.Platform.Idgen.{new_id}
use streaming_bot.App.ConfirmPayment
use streaming_bot.App.StartPurchase
use streaming_bot.App.SubmitReview
use streaming_bot.App.UseAccess

module _ (k : Text) (m : ℕ) where
  abbrev pub Read' : Purchase → World → Type 0
  Read' p w = Read k m p w.db

  -- A look-up of a purchase, by whatever test, of which the purchase shows `F`.
  pub get-Read :
      (q : PurchaseRow → Bool) (F : Purchase → Type 0)
      → ((r : PurchaseRow) → q r ≡ true → F (Purchases.of_row r))
      → Triple
          (Sound k m)
          (sql (Purchases.select_one q))
          (OnSome (λ p w. Read k m p w.db × F p) (Sound k m))
          (Sound k m)
  get-Read q F passed =
      Triple-weaken (λ w h. h) (λ o w h. there o w h) (λ w h. h)
        (Triple-sql (IsSound k m) (OnSome (λ p d. Read k m p d × F p) (IsSound k m)) (IsSound k m)
          (λ o d. sound o d) (λ d h. h) (select_one-Read k m q F passed))
    where
      there :
          (o : Option Purchase) (w : World)
          → OnSome (λ p d. Read k m p d × F p) (IsSound k m) o w.db
          → OnSome (λ p v. Read k m p v.db × F p) (Sound k m) o w
      there none w h = h
      there (some p) w h = h

      sound :
          (o : Option Purchase) (d : Db)
          → OnSome (λ p d. Read k m p d × F p) (IsSound k m) o d
          → IsSound k m d
      sound none d h = h
      sound (some p) d h = h.0.0

  -- A call that leaves the database alone keeps what is known of it.
  pub keep :
      {A : Type 0} (P : Db → Type 0)
      → ((d : Db) → P d → IsSound k m d)
      → (call : Io A) → ((w : World) → (call w).1.db ≡ w.db)
      → Triple (λ w. P w.db) call (λ _ w. P w.db) (Sound k m)
  keep P sound call same =
      Triple-weaken (λ w h. h) (λ a w h. h) (λ w h. sound w.db h) (Keeps-same_db P call same)

  pub keep-Read :
      {A : Type 0} (p : Purchase) (call : Io A)
      → ((w : World) → (call w).1.db ≡ w.db)
      → Triple (Read' p) call (λ _. Read' p) (Sound k m)
  keep-Read p = keep (Read k m p) (λ d h. h.0)

  -- A look-up of something else.
  pub keep-lookup :
      {A : Type 0} (P : Db → Type 0)
      → ((d : Db) → P d → IsSound k m d)
      → (f : Db → Option A)
      → Triple (λ w. P w.db) (sql (gets f)) (OnSome (λ _ w. P w.db) (Sound k m)) (Sound k m)
  unfolding gets
  keep-lookup {A} P sound f =
      Triple-weaken (λ w h. h) (λ o w h. either o w h) (λ w h. sound w.db h)
        (Keeps-sql P (gets f) (λ d h. h))
    where
      either : (o : Option A) (w : World) → P w.db → OnSome (λ _ v. P v.db) (Sound k m) o w
      either none w h = sound w.db h
      either (some a) w h = h

  -- A statement that keeps the tables sound.
  pub keep-sql :
      {A : Type 0} (stmt : Exec Db A)
      → ((d : Db) → IsSound k m d → IsSound k m (stmt d).1)
      → Keeps (Sound k m) (sql stmt)
  keep-sql = Keeps-sql (IsSound k m)

  -- A query.
  pub keep-gets : {A : Type 0} (f : Db → A) → Keeps (Sound k m) (sql (gets f))
  unfolding gets
  keep-gets f = keep-sql (gets f) (λ d h. h)

  pub keep-same :
      {A : Type 0} (call : Io A) → ((w : World) → (call w).1.db ≡ w.db) → Keeps (Sound k m) call
  keep-same = keep (IsSound k m) (λ d h. h)

  abbrev Marked : Purchase → World → Type 0
  Marked p w =
      (IsSound k m w.db × (p.id ≡ k → any (is_pending k) w.db.purchases ≡ true)) × (p.status ≡ paid)

  on_mark_paid :
      (p : Purchase) (charge_id : Text) (now : ℕ)
      → Triple (Read' p) (on p (mark_paid charge_id now)) Marked (Sound k m)
  unfolding on mark_paid status_text
  on_mark_paid p charge_id now = record { at = λ w h. ground arith }

  keep-JustPaid :
      (p : Purchase) (e : Event)
      → Triple
          (λ w. JustPaid k m p w.db)
          (save_payment_event e)
          (λ _ w. JustPaid k m p w.db)
          (Sound k m)
  unfolding save_payment_event
  keep-JustPaid p e =
      Triple-weaken (λ w h. h) (λ a w h. h) (λ w h. h.0)
        (Keeps-sql (JustPaid k m p) (insert_event e) (insert_event-JustPaid k m e p))

  publish-Sound :
      (p : Purchase)
      → Triple
          (λ w. JustPaid k m p w.db)
          (publish_purchase_confirmed p.id)
          (λ _. Sound k m)
          (Sound k m)
  unfolding publish_purchase_confirmed
  publish-Sound p = Triple-bind (keep (JustPaid k m p) (λ d h. h.0) time_now time_now-db) λ now.
      Triple-sql (JustPaid k m p) (λ _. IsSound k m) (IsSound k m) (λ _ d h. h) (λ d h. h.0)
        (Triple-weaken (λ d h. h) (λ a d h. h) (λ d h. h)
          (Triple_of_state (λ d h. publish-IsSound k m (event_id now p.id) p d h)))

  confirm-Sound : (e : Event) → Keeps (Sound k m) (ConfirmPayment.confirm e)
  unfolding ConfirmPayment.confirm Purchases.get_by_payload Purchases.update mark_processed
  confirm-Sound e =
      Triple-lookup (λ p w. Read' p w × Unit {0}) _ (get-Read _ (λ _. Unit) (λ r e. tt))
        λ p. Triple-given λ _. Triple-bind (keep-Read p time_now time_now-db) λ now.
          Triple-bind (on_mark_paid p e.charge_id now) λ q. Triple-given λ is_paid.
            Triple-bind
              (Triple-sql _ (λ _. JustPaid k m q) (IsSound k m) (λ _ d h. h.0) (λ d h. h.0)
                (update-JustPaid k m q is_paid))
              λ _. Triple-bind (keep-JustPaid q e) λ _. Triple-bind (publish-Sound q) λ _.
                Keeps-sql (IsSound k m) (insert_key e.charge_id)
                  (insert_key-IsSound k m e.charge_id)

  -- A confirmation, first or repeated, whole or cut short by an error.
  pub handle_confirm-Sound : (e : Event) → Keeps (Sound k m) (ConfirmPayment.handle e)
  unfolding ConfirmPayment.handle is_processed
  handle_confirm-Sound e = Triple-bind (Triple-raise_if _ _) λ _. Triple-given λ given.
      Triple-bind (keep-gets _) λ already.
        Triple-if already (pure tt) (ConfirmPayment.confirm e) (λ _. Triple-pure tt (λ w h. h))
          (λ _. confirm-Sound e)

  -- A new purchase is not confirmed yet.
  pub handle_start-Sound : (c : StartPurchase.Command) → Keeps (Sound k m) (StartPurchase.handle c)
  unfolding StartPurchase.handle Contents.get_by_id Purchases.create new_id
  handle_start-Sound c =
      Triple-lookup (λ _. Sound k m) _ (keep-lookup (IsSound k m) (λ d h. h) _)
        λ item. Triple-bind (Triple-raise_if _ _) λ _. Triple-given λ priced.
          Triple-bind
            (Triple-bind (keep-same (rand_read 16) (rand_read-db 16))
              λ buf. Triple-pure _ (λ w h. h))
            λ id. Triple-bind (keep-same time_now time_now-db) λ now.
              Triple-bind (keep-sql _ (insert_row-IsSound k m _)) λ _. Triple-pure _ (λ w h. h)

  pub handle_review-Sound : (c : SubmitReview.Command) → Keeps (Sound k m) (SubmitReview.handle c)
  unfolding SubmitReview.handle Purchases.get_by_id Purchases.select_one Reviews.create
  handle_review-Sound c =
      search (keeps_rules, keep-gets, keep-sql, keep-same, time_now-db, insert_review-IsSound k m)
        depth 20

  -- A token that is redeemed, or not.
  pub handle_use-Sound :
      (sum256 : Text → List ℕ) (cache : RedisClient) (token : Text)
      → Keeps (Sound k m) (UseAccess.handle sum256 cache token)
  unfolding UseAccess.handle UseAccess.check UseAccess.redeem Tokens.get Tokens.delete
      get_by_token_hash mark_used select_by_hash
  handle_use-Sound sum256 cache token =
      search
        (
          keeps_rules,
          keep-gets,
          keep-sql,
          keep-same,
          redis-db,
          time_now-db,
          mark_used_row-IsSound k m,
        )
        depth 20
