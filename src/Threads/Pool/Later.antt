-- ===== src/Threads/Pool/Later.antt =====
-- What no statement undoes, and what every statement keeps, however the threads take turns.
use streaming_bot.Prelude.{
  ◌≤◌, Text, text_eq, List, false, not, ◌&&◌, any, find, some, none, ◌≡◌, ◌≢◌, refl, arith,
}
use streaming_bot.Prelude.Tables.{count}
use streaming_bot.Prelude.Int.{pos, ltb_ℤ, is_int4}
use streaming_bot.Exec.{Result, ok}
use streaming_bot.World.{World, Db}
use streaming_bot.Domain.Access.{Grant}
use streaming_bot.Domain.Payment.{Event}
use streaming_bot.Domain.Review.{is_valid_rating}
use streaming_bot.Platform.Crypto.{token_digest}
use streaming_bot.Storage.Grants.Marks.{has_hash}
use streaming_bot.App.IssueAccess.{Handler}
use streaming_bot.App.UseAccess
use streaming_bot.App.UseAccess.{Admission}
use streaming_bot.App.ConfirmPayment
use streaming_bot.System.Closed.{IsClosed}
use streaming_bot.System.Closed.Facts.{
  HasOneGrant, HasOneGrant-IsClosed, IsSpent, IsSpent-IsClosed, HasKey, HasKey-IsClosed, AreRated,
  AreRated-IsClosed,
}
use streaming_bot.System.SingleUse.{admission, handle-ok, handle-IsSpent}
use streaming_bot.System.Replay.{handle-HasKey, handle_of_HasKey}
use streaming_bot.System.Catalogue.{IsPriced, IsPriced-IsClosed}
use streaming_bot.Threads.Closed.{closed_rely, closed-Allows}
use streaming_bot.Threads.Pool.{Pool, Move, play}
use streaming_bot.Threads.Pool.Safe.{AllSafe-later, play-AllSafe}
use streaming_bot.Threads.Pool.Paid.{idle}

module _ (h : Handler) (P : Db → Type 0) (c : IsClosed P) where
  -- What holds of the empty tables holds of all.
  play-closed : (ms : List Move) → P idle.world.db → P (play h ms idle).world.db
  play-closed ms p = (play-AllSafe (closed_rely P) h (closed-Allows P c) ms idle tt tt).1 p

  -- What a call brings about, while threads are under way, stays.
  later-closed :
      (ms ns : List Move) (w : World)
      → P w.db
      → P (play h ns (record (play h ms idle) { world = w })).world.db
  later-closed ms ns w p =
      let s = play h ms idle in
      let (_, _, safe) = play-AllSafe (closed_rely P) h (closed-Allows P c) ms idle tt tt in
      (play-AllSafe (closed_rely P) h (closed-Allows P c) ns (record s { world = w }) tt
          (AllSafe-later (closed_rely P) s.threads s.world.db w.db (λ _. p) safe)).1
        p

-- A whole call among the threads.
abbrev pub redeem_in : Handler → Text → Pool → Result Admission × Pool
redeem_in h token s =
    let (r, w) = UseAccess.handle h.sum256 h.cache token s.world in (r, record s { world = w })

abbrev pub confirm_in : Event → Pool → Result (Unit {0}) × Pool
confirm_in e s = let (r, w) = ConfirmPayment.handle e s.world in (r, record s { world = w })

-- A token that was redeemed is refused from then on, also among threads: after any turns of any
-- threads, a call that admits has found an open grant of the token, not used and not expired, and
-- returns the purchase and the user of that grant; and after any further turns, of the threads that
-- were under way and of new ones, a call with the token is refused.
pub interleaved_single_use :
    (h : Handler) (token : Text) (ms ns : List Move) (a b : Admission)
    → (redeem_in h token (play h ms idle)).0 ≡ ok a
    → ((g : Grant) × (find
            (has_hash (token_digest h.sum256 token))
            (play h ms idle).world.db.access_grants
          ≡ some g)
        × (g.used_at ≡ none)
        × ((play h ms idle).world.clock ≤ g.expires_at)
        × (a ≡ admission g))
      × ((redeem_in h token (play h ns (redeem_in h token (play h ms idle)).1)).0 ≢ ok b)
unfolding count
interleaved_single_use h token ms ns a b e =
    let d = token_digest h.sum256 token in
    let one = play-closed h (HasOneGrant d) (HasOneGrant-IsClosed d) ms (omega arith) in
    let (spent, opened) = handle-ok h.sum256 h.cache token (play h ms idle).world a one e in
    (
      opened,
      handle-IsSpent h.sum256 h.cache token _ b
          (later-closed h (IsSpent d) (IsSpent-IsClosed d) ms ns _ spent),
    )

-- A payment that was confirmed stays confirmed, also among threads: after any turns of any threads
-- a confirmation returned no error, and after any further turns, of the threads that were under way
-- and of new ones, an event with the same charge id changes nothing in the database.
pub interleaved_replay :
    (h : Handler) (e e' : Event) (ms ns : List Move)
    → e'.charge_id ≡ e.charge_id
    → (confirm_in e (play h ms idle)).0 ≡ ok tt
    → (confirm_in e' (play h ns (confirm_in e (play h ms idle)).1)).1.world.db
      ≡ (play h ns (confirm_in e (play h ms idle)).1).world.db
interleaved_replay h e e' ms ns same confirmed =
    let (key, _) = handle-HasKey e (play h ms idle).world confirmed in
    let kept = later-closed h (HasKey e.charge_id) (HasKey-IsClosed e.charge_id) ms ns _ key in
    (handle_of_HasKey e' _ (rw same kept)).0

-- However the threads take turns, every stored review has a rating from 1 to 5, and no purchase has
-- two.
pub interleaved_reviews :
    (h : Handler) (ms : List Move) (purchase_id : Text)
    → (any (λ r. not (is_valid_rating r)) (play h ms idle).world.db.reviews ≡ false)
      × (count (λ r. text_eq r.purchase_id purchase_id) (play h ms idle).world.db.reviews ≤ 1)
unfolding any count
interleaved_reviews h ms purchase_id =
    play-closed h (AreRated purchase_id) (AreRated-IsClosed purchase_id) ms (refl, omega arith)

-- However the threads take turns, and by whatever commands of the bot and rounds of the
-- synchronisation the catalogue came about, each of its items has a price above zero that fits in
-- 32 bits, and an id has one item at most.
pub interleaved_catalogue :
    (h : Handler) (ms : List Move) (id : Text)
    → (any
          (λ c. not (ltb_ℤ (pos 0) c.price_stars && is_int4 c.price_stars))
          (play h ms idle).world.db.content
        ≡ false)
      × (count (λ c. text_eq c.id id) (play h ms idle).world.db.content ≤ 1)
unfolding any count
interleaved_catalogue h ms id =
    play-closed h (IsPriced id) (IsPriced-IsClosed id) ms (refl, omega arith)
