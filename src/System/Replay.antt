-- ===== src/System/Replay.antt =====
-- A charge that was confirmed once is never confirmed again.
use streaming_bot.Prelude.{
  Text, text_eq, if◌then◌else◌, [], ◌≡◌, ◌≢◌, refl, Bool, true, false, arith, ap, ◌∙◌,
}
use streaming_bot.Exec.{ok, ◌>>=◌, raise_if, gets, pure, Error, empty_charge_id}
use streaming_bot.Exec.Ensures.{bind-ok}
use streaming_bot.World.{World, sql}
use streaming_bot.Domain.Payment.{Event}
use streaming_bot.Storage.Payments.{is_processed}
use streaming_bot.App.ConfirmPayment.{handle, confirm}
use streaming_bot.App.ConfirmPayment.Replay.{confirm-ok}
use streaming_bot.App.IssueAccess.{Handler}
use streaming_bot.System.Closed.Facts.{HasKey, HasKey-IsClosed}
use streaming_bot.System.Reach.{Reach}
use streaming_bot.System.Reach.Laws.{Reach-closed}

is_processed-true :
    (key : Text) (w : World)
    → (is_processed key w).0 ≡ ok true
    → HasKey key (is_processed key w).1.db
unfolding is_processed sql gets
is_processed-true key w h = ground arith

after_check :
    (e : Event) (already : Bool) (w : World)
    → (already ≡ true → HasKey e.charge_id w.db)
    → ((if already then pure tt else confirm e) w).0 ≡ ok tt
    → HasKey e.charge_id ((if already then pure tt else confirm e) w).1.db
unfolding pure
after_check e true w known h = known refl
after_check e false w known h = (confirm-ok e).at w tt h

raise_if-ok : (c : Bool) (x : Error) (w : World) → (raise_if c x w).0 ≡ ok tt → c ≡ false
unfolding raise_if
raise_if-ok c x w h = ground arith

pub handle-HasKey :
    (e : Event) (w : World)
    → (handle e w).0 ≡ ok tt
    → HasKey e.charge_id (handle e w).1.db × (e.charge_id ≢ [])
unfolding handle
handle-HasKey e w h =
    let (_, given, rest, state) =
      bind-ok (raise_if _ empty_charge_id)
        (λ _. is_processed e.charge_id >>= λ already. if already then pure tt else confirm e) w tt
        h in
    let (already, looked, done', state') =
      bind-ok (is_processed e.charge_id) (λ already. if already then pure tt else confirm e) _ tt
        rest in
    (
      rw (state, state')
          (after_check e already _ (λ yes'. is_processed-true e.charge_id _ (looked ∙ ap ok yes'))
            done'),
      λ none'. ground (arith, raise_if-ok (text_eq e.charge_id []) empty_charge_id w given),
    )

pub handle_of_HasKey :
    (e : Event) (w : World)
    → HasKey e.charge_id w.db
    → ((handle e w).1.db ≡ w.db) × (w.net ≡ [] → e.charge_id ≢ [] → handle e w ≡ (ok tt, w))
unfolding handle is_processed sql gets ◌>>=◌ raise_if pure
handle_of_HasKey e w h = (ground arith, λ calm given. ground arith)

module _ (h : Handler) (e e' : Event) (w : World) {v : World} where
  known_later :
      e'.charge_id ≡ e.charge_id
      → (handle e w).0 ≡ ok tt
      → Reach h (handle e w).1 v
      → HasKey e'.charge_id v.db × (e'.charge_id ≢ [])
  known_later same confirmed later =
      let (key, given) = handle-HasKey e w confirmed in
      let known = Reach-closed h (HasKey e.charge_id) (HasKey-IsClosed e.charge_id) key later in
      rw same (known, given)

-- A payment that was confirmed stays confirmed: in every world that is reached afterwards, an event
-- with the same charge id, redelivered or forged, changes nothing in the database.
confirmed_replay :
    (h : Handler) (e e' : Event) (w : World) {v : World}
    → e'.charge_id ≡ e.charge_id
    → (handle e w).0 ≡ ok tt
    → Reach h (handle e w).1 v
    → (handle e' v).1.db ≡ v.db
confirmed_replay h e e' w same confirmed later =
    (handle_of_HasKey e' _ (known_later h e e' w same confirmed later).0).0

-- After a payment was confirmed, in every world that is reached afterwards and in which the
-- database answers, an event with the same charge id is accepted: the call returns no error and
-- changes nothing at all.
confirmed_replay_is_accepted :
    (h : Handler) (e e' : Event) (w : World) {v : World}
    → e'.charge_id ≡ e.charge_id
    → (handle e w).0 ≡ ok tt
    → Reach h (handle e w).1 v
    → v.net ≡ []
    → handle e' v ≡ (ok tt, v)
confirmed_replay_is_accepted h e e' w same confirmed later calm =
    let (known, given) = known_later h e e' w same confirmed later in
    (handle_of_HasKey e' _ known).1 calm given
