-- ===== src/System/OneLink.antt =====
-- At most one link is issued for a purchase.
pub mod Unsent
pub mod GivenUp
use streaming_bot.Prelude.{ℕ, Text, text_eq, Option, none, some, find, [], ◌≡◌, ◌≢◌, refl, arith}
use mathlib.Core.Option
use streaming_bot.Prelude.Tables.{any-append}
use streaming_bot.Prelude.Tables.{any_mono, find-some}
use streaming_bot.Exec.{Result, ok, err, ◌>>=◌, raise, gets, attempt}
use streaming_bot.Exec.Triple.{
  Triple, Triple-bind, Triple-lookup, Triple-raise_if, Triple-given, Triple-weaken, Keeps-of,
  Triple-ok, OnSome,
}
use streaming_bot.World.{World, Db, PurchaseRow, Io, sql}
use streaming_bot.World.Calls.{
  Triple-sql, Keeps-sql, Keeps-same_db, redis-db, time_now-db, ignore-db, attempt-db,
}
use streaming_bot.Domain.Access.{Grant}
use streaming_bot.Domain.Purchase.{Purchase}
use streaming_bot.Storage.Purchases
use streaming_bot.Storage.Contents
use streaming_bot.Storage.Grants
use streaming_bot.Storage.Tokens
use streaming_bot.Platform.Crypto.{generate}
use streaming_bot.App.IssueAccess.{Handler, grant_access, after_provider, handle}
use streaming_bot.System.Sound.Issue.{found_id, generate-db}
use streaming_bot.System.Closed.Facts.{HasGrant, HasGrant-IsClosed}
use streaming_bot.System.Closed.{finish-Kept}
use streaming_bot.System.Reach.{Reach}
use streaming_bot.System.Reach.Laws.{Reach-closed}

-- A call that cannot return.
abbrev Fails : {S A : Type 0} → A → S → Type 0
Fails _ _ = ⊥

-- What the issue of a link for the purchase `k` comes to where it returns no error, from what its
-- last part comes to; the calls before that part write nothing.
module _ (h : Handler) (k : Text) (P : Db → Type 0) (Q : World → Type 0) where
  abbrev Held : World → Type 0
  Held w = P w.db

  keep :
      {A : Type 0} (call : Io A)
      → ((w : World) → (call w).1.db ≡ w.db)
      → Triple Held call (λ _. Held) (λ _. Unit)
  keep call same = Triple-weaken (λ w x. x) (λ a w x. x) (λ w x. tt) (Keeps-same_db P call same)

  selected :
      (o : Option PurchaseRow) (d : Db)
      → P d
      → find (λ r. text_eq r.id k) d.purchases ≡ o
      → OnSome (λ p d. P d × (p.id ≡ k)) (λ _. Unit {0}) (Option.map Purchases.of_row o) d
  selected none d x e = tt
  selected (some r) d x e = (x, found_id r k (find-some (λ r. text_eq r.id k) d.purchases r e))

  select_one-same :
      Triple P
        (Purchases.select_one (λ r. text_eq r.id k))
        (OnSome (λ p d. P d × (p.id ≡ k)) (λ _. Unit))
        (λ _. Unit)
  unfolding Purchases.select_one gets
  select_one-same = record {
    at = λ d x. selected (find (λ r. text_eq r.id k) d.purchases) d x refl;
  }

  shift :
      (o : Option Purchase) (w : World)
      → OnSome (λ p d. P d × (p.id ≡ k)) (λ _. Unit {0}) o w.db
      → OnSome (λ p v. Held v × (p.id ≡ k)) (λ _. Unit {0}) o w
  shift none w x = tt
  shift (some p) w x = x

  get_by_id-same :
      Triple Held
        (sql (Purchases.select_one (λ r. text_eq r.id k)))
        (OnSome (λ p w. Held w × (p.id ≡ k)) (λ _. Unit))
        (λ _. Unit)
  get_by_id-same =
      Triple-weaken (λ w x. x) shift (λ w x. tt)
        (Triple-sql P (OnSome (λ p d. P d × (p.id ≡ k)) (λ _. Unit)) (λ _. Unit) (λ o d x. tt)
          (λ d x. tt) select_one-same)

  either : {A : Type 0} (o : Option A) (w : World) → Held w → OnSome (λ _. Held) (λ _. Unit {0}) o w
  either none w x = tt
  either (some a) w x = x

  lookup :
      {A : Type 0} (f : Db → Option A)
      → Triple Held (sql (gets f)) (OnSome (λ _. Held) (λ _. Unit)) (λ _. Unit)
  unfolding gets
  lookup f = Triple-weaken (λ w x. x) either (λ w x. tt) (Keeps-sql P (gets f) (λ d x. x))

  module _
      (granting : (link : Text) (expires_at : ℕ) (p : Purchase)
        → p.id ≡ k
        → Triple Held (grant_access h link expires_at p) (λ _. Q) (λ _. Unit)) where
    after_provider-gives :
        (r : Result (Text × ℕ)) (p : Purchase)
        → p.id ≡ k
        → Triple Held (after_provider h r p) (λ _. Q) (λ _. Unit)
    unfolding after_provider raise ◌>>=◌
    after_provider-gives (ok (link, expires_at)) p same = granting link expires_at p same
    after_provider-gives (err e) p same = record { at = λ w x. ground arith }

    handle-gives : Triple Held (handle h k) (λ _. Q) (λ _. Unit)
    unfolding handle Purchases.get_by_id Contents.get_by_id
    handle-gives =
        Triple-lookup (λ p w. Held w × (p.id ≡ k)) _ get_by_id-same
          λ p. Triple-given λ same.
            Triple-lookup (λ _. Held) _ (lookup _)
              λ c.
                Triple-bind
                  (Triple-weaken (λ w x. x) (λ a w x. x.0) (λ w x. tt) (Triple-raise_if _ _))
                  λ _.
                    Triple-bind
                      (keep (attempt _) (
                        attempt-db _
                          (h.provider.issue_access_link-db c.external_ref p.user_id h.ttl p.id)))
                      λ issued. after_provider-gives issued p same

module _ (h : Handler) (k : Text) where
  abbrev Granted : World → Type 0
  Granted w = HasGrant k w.db

  create-Fails :
      (g : Grant) → g.purchase_id ≡ k → Triple Granted (Grants.create g) Fails (λ _. Unit)
  unfolding Grants.create Grants.insert_row
  create-Fails g same =
      Triple-sql (HasGrant k) Fails (λ _. Unit) (λ _ d x. tt) (λ d x. tt)
        (record {
          at = λ d x.
              ground
                (arith, any_mono (λ q. text_eq q.purchase_id k) (Grants.clashes g) d.access_grants);
        })

  create-grants :
      (g : Grant)
      → g.purchase_id ≡ k
      → Triple (λ _. Unit) (Grants.create g) (λ _. Granted) (λ _. Unit)
  unfolding Grants.create Grants.insert_row
  create-grants g same =
      Triple-sql (λ _. Unit) (λ _. HasGrant k) (λ _. Unit) (λ _ d x. tt) (λ d x. tt)
        (record {
          at = λ d x. ground (arith, any-append (λ q. text_eq q.purchase_id k) d.access_grants g);
        })

  grant_access-Fails :
      (link : Text) (expires_at : ℕ) (p : Purchase)
      → p.id ≡ k
      → Triple Granted (grant_access h link expires_at p) (λ _ _. ⊥) (λ _. Unit)
  unfolding grant_access
  grant_access-Fails link expires_at p same =
      Triple-bind (keep h k (HasGrant k) (λ _. ⊥) (generate h.sum256) (generate-db [] 0 h)) λ token.
        Triple-bind (keep h k (HasGrant k) (λ _. ⊥) _ time_now-db)
          λ now. Triple-bind (create-Fails _ same) λ _. record { at = λ w x. absurd x }

  grant_access-grants :
      (link : Text) (expires_at : ℕ) (p : Purchase)
      → p.id ≡ k
      → Triple (λ _. Unit {0}) (grant_access h link expires_at p) (λ _. Granted) (λ _. Unit)
  unfolding grant_access Tokens.put
  grant_access-grants link expires_at p same = Triple-bind (anything (generate h.sum256)) λ token.
      Triple-bind (anything _) λ now. Triple-bind (create-grants _ same) λ _.
        Triple-bind (keep h k (HasGrant k) (λ _. ⊥) _ time_now-db) λ until.
          Triple-bind (keep h k (HasGrant k) (λ _. ⊥) _ (ignore-db _ (redis-db _))) λ _.
            Triple-weaken (λ w x. x) (λ a w x. x) (λ w x. tt)
              (finish-Kept (HasGrant k) (HasGrant-IsClosed k).stable h link token.0 p)
    where
      anything :
          {A : Type 0} (call : Io A) → Triple (λ _. Unit {0}) call (λ _ _. Unit {0}) (λ _. Unit {0})
      anything call = Keeps-of (λ w x. tt)

  pub handle-HasGrant : (w : World) → (handle h k w).0 ≡ ok tt → HasGrant k (handle h k w).1.db
  handle-HasGrant w e =
      Triple-ok (handle-gives h k (λ _. Unit) Granted grant_access-grants) w tt tt e

  pub handle_of_HasGrant : (w : World) → HasGrant k w.db → (handle h k w).0 ≢ ok tt
  handle_of_HasGrant w granted e =
      Triple-ok (handle-gives h k (HasGrant k) (λ _. ⊥) grant_access-Fails) w tt granted e

-- At most one link for a purchase: when the issue of a link returns no error the purchase has a
-- grant, and in every world that is reached afterwards a further issue for it does not return
-- without an error.
pub one_link :
    (h : Handler) (k : Text) (w : World) {v : World}
    → (handle h k w).0 ≡ ok tt
    → Reach h (handle h k w).1 v
    → HasGrant k (handle h k w).1.db × ((handle h k v).0 ≢ ok tt)
one_link h k w e later =
    let granted = handle-HasGrant h k w e in
    (
      granted,
      handle_of_HasGrant h k _ (Reach-closed h (HasGrant k) (HasGrant-IsClosed k) granted later),
    )

-- A purchase that has a grant is never given another link, whether the first was sent or not: in
-- every world that is reached from one where it has a grant, an issue for the purchase does not
-- return without an error.
pub link_lost :
    (h : Handler) (k : Text) {w v : World}
    → HasGrant k w.db
    → Reach h w v
    → (handle h k v).0 ≢ ok tt
link_lost h k granted later =
    handle_of_HasGrant h k _ (Reach-closed h (HasGrant k) (HasGrant-IsClosed k) granted later)
