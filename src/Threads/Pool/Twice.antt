-- ===== src/Threads/Pool/Twice.antt =====
-- Two confirmations of one payment that interleave.
use streaming_bot.Prelude.{
  ℕ, ◌+◌, text_eq, List, [], ◌∷◌, ◌++◌, some, false, any, ◌≡◌, ◌≢◌, refl, arith,
}
use streaming_bot.Exec.{ok, gets}
use streaming_bot.World.{World, PurchaseRow, sql, time_now}
use streaming_bot.Domain.Payment.{Event}
use streaming_bot.Domain.Purchase.{mark_paid}
use streaming_bot.Storage.Purchases
use streaming_bot.Storage.Purchases.{to_row, of_row, select_one}
use streaming_bot.Storage.Payments.{is_processed}
use streaming_bot.Storage.Outbox.{event_id}
use streaming_bot.App.IssueAccess.{Handler}
use streaming_bot.App.ConfirmPayment.Update.{paid_purchase, IsDue, IsAlone}
use streaming_bot.System.Sound.{confirmations}
use streaming_bot.Threads.{Prog, ended, chain, tried, one, local, branch, attempted, and_then}
use streaming_bot.Threads.Locals.{presented, raised_if, applied}
use streaming_bot.Threads.UseCases.{confirming, confirming_due, writing_paid}
use streaming_bot.Threads.Pool.{Pool, Move, pass, resume, make, play}
use streaming_bot.Threads.Pool.Turns.{
  resumes, calls, resumes-calls, turns, pair_of, play-append, play-first, play-second,
}
use streaming_bot.Threads.Pool.Writes.{
  written, CanWrite, write_paid-calm, written-confirmations, written-CanWrite,
}

-- The thread that is about to write.
abbrev about_to_write : Event → ℕ → PurchaseRow → Prog (Unit {0})
about_to_write e now r = (writing_paid e (paid_purchase e now (of_row r))).prog

module _ (e : Event) (r : PurchaseRow) (w : World) (calm : w.net ≡ []) (due : IsDue e r w.db) where
  asked : is_processed e.charge_id w ≡ (ok false, w)
  unfolding is_processed sql gets
  asked = ground arith

  found : Purchases.get_by_payload e.invoice_payload w ≡ (ok (some (of_row r)), w)
  unfolding Purchases.get_by_payload select_one sql gets
  found = ground arith

  may_mark : (mark_paid e.charge_id w.clock (of_row r)).0 ≡ ok tt
  unfolding mark_paid
  may_mark = ground arith

  marked : (mark_paid e.charge_id w.clock (of_row r)).1 ≡ paid_purchase e w.clock (of_row r)
  unfolding mark_paid
  marked = ground arith

  given : text_eq e.charge_id [] ≡ false
  given = ground arith

  after_asked : resume (confirming e).prog w ≡ ((confirming_due e).prog, w)
  unfolding confirming and_then chain one raised_if branch local resume
  after_asked = rw given (rw asked refl)

  -- The thread that has read the purchase.
  abbrev has_read : Prog (Unit {0})
  has_read =
      (and_then {A = ℕ} (one time_now)
        λ now. and_then (applied (of_row r) (mark_paid e.charge_id now)) λ p. writing_paid e p).prog

  after_found : resume (confirming_due e).prog w ≡ (has_read, w)
  unfolding confirming_due and_then chain one attempted tried presented local resume
  after_found = rw found refl

  after_read : resume has_read w ≡ (about_to_write e w.clock r, w)
  unfolding and_then chain one applied local resume time_now
  after_read = rw (may_mark, marked) refl

  checked : resumes 3 (confirming e).prog w ≡ (about_to_write e w.clock r, w)
  checked = rw (after_asked, after_found, after_read) refl

-- The schedule: both threads read, the first one writes, time goes on, the second one writes.
module _ (h : Handler) (e : Event) (r : PurchaseRow) where
  abbrev written_world : ℕ → World → World
  written_world now w = record w { db = written e (paid_purchase e now (of_row r)) w.clock w.db }

  abbrev ticked : ℕ → World → World
  ticked later w = record w { clock = later; net = [] }

  abbrev once_and_twice : ℕ → World → List Move
  once_and_twice later w =
      turns 0 3
      ++ (turns 1 3
          ++ (turns 0 (calls (about_to_write e w.clock r) w)
              ++ (pass (written_world w.clock w).db.now later w.entropy w.cache []
                  ∷ turns 1 (
                      calls (about_to_write e w.clock r)
                        (ticked later (written_world w.clock w))))))

  write-first :
      (now : ℕ) (q : Prog (Unit {0})) (w : World)
      → w.net ≡ []
      → CanWrite e (paid_purchase e now (of_row r)) w.clock w.db
      → play h (turns 0 (calls (about_to_write e now r) w)) (pair_of w (about_to_write e now r) q)
        ≡ pair_of (written_world now w) (ended (ok tt)) q
  write-first now q w calm c =
      rw
        (
          play-first h (calls (about_to_write e now r) w) (about_to_write e now r) q w,
          resumes-calls (about_to_write e now r) w,
          (writing_paid e (paid_purchase e now (of_row r))).alone,
          write_paid-calm e (paid_purchase e now (of_row r)) w calm c,
        )
        refl

  write-second :
      (now : ℕ) (p : Prog (Unit {0})) (w : World)
      → w.net ≡ []
      → CanWrite e (paid_purchase e now (of_row r)) w.clock w.db
      → play h (turns 1 (calls (about_to_write e now r) w)) (pair_of w p (about_to_write e now r))
        ≡ pair_of (written_world now w) p (ended (ok tt))
  write-second now p w calm c =
      rw
        (
          play-second h (calls (about_to_write e now r) w) p (about_to_write e now r) w,
          resumes-calls (about_to_write e now r) w,
          (writing_paid e (paid_purchase e now (of_row r))).alone,
          write_paid-calm e (paid_purchase e now (of_row r)) w calm c,
        )
        refl

  both_read :
      (w : World)
      → w.net ≡ []
      → IsDue e r w.db
      → play h (turns 1 3) (play h (turns 0 3) (pair_of w (confirming e).prog (confirming e).prog))
        ≡ pair_of w (about_to_write e w.clock r) (about_to_write e w.clock r)
  both_read w calm due =
      rw
        (
          play-first h 3 (confirming e).prog (confirming e).prog w,
          checked e r w calm due,
          play-second h 3 (about_to_write e w.clock r) (confirming e).prog w,
          checked e r w calm due,
        )
        refl

  pass-ticked :
      (later : ℕ) (w : World) (p q : Prog (Unit {0})) (ms : List Move)
      → play h (pass w.db.now later w.entropy w.cache [] ∷ ms) (pair_of w p q)
        ≡ play h ms (pair_of (ticked later w) p q)
  unfolding play make
  pass-ticked later w p q ms = refl

  first_CanWrite :
      (now : ℕ) (w : World)
      → IsDue e r w.db
      → IsAlone e r w.clock w.db
      → any (λ q. text_eq q.id (event_id now r.id)) w.db.outbox_events ≡ false
      → CanWrite e (paid_purchase e w.clock (of_row r)) now w.db
  unfolding of_row
  first_CanWrite now w due alone fresh = record {
    counted = due.counted;
    fits = due.fits;
    alone = alone;
    fresh = fresh;
  }

  -- The pool at the end of the schedule.
  abbrev end_of : ℕ → World → Pool
  end_of later w =
      pair_of (written_world w.clock (ticked later (written_world w.clock w))) (ended (ok tt))
        (ended (ok tt))

  play-once_and_twice :
      (later : ℕ) (w : World)
      → w.net ≡ []
      → IsDue e r w.db
      → CanWrite e (paid_purchase e w.clock (of_row r)) w.clock w.db
      → CanWrite e (paid_purchase e w.clock (of_row r)) later (written_world w.clock w).db
      → play h (once_and_twice later w) (pair_of w (confirming e).prog (confirming e).prog)
        ≡ end_of later w
  play-once_and_twice later w calm due first second =
      rw
        (
          play-append h (turns 0 3),
          play-append h (turns 1 3),
          play-append h (turns 0 (calls (about_to_write e w.clock r) w)),
          both_read w calm due,
          write-first w.clock (about_to_write e w.clock r) w calm first,
          pass-ticked later (written_world w.clock w) (ended (ok tt)) (about_to_write e w.clock r),
          write-second w.clock (ended (ok tt)) (ticked later (written_world w.clock w)) refl second,
        )
        refl

-- Two deliveries of one payment, with the database answering: a first event for a pending purchase,
-- no other purchase in the way, and no outbox event of the two ids that the times of the writes
-- make. There is an order of the turns of their two threads, the clock going on once in between, in
-- which both confirm it: both end without an error, and the purchase has two confirmations more.
pub confirmed_twice :
    (h : Handler) (e : Event) (r : PurchaseRow) (w : World) (later : ℕ)
    → w.net ≡ []
    → IsDue e r w.db
    → IsAlone e r w.clock w.db
    → any (λ q. text_eq q.id (event_id w.clock r.id)) w.db.outbox_events ≡ false
    → any (λ q. text_eq q.id (event_id later r.id)) w.db.outbox_events ≡ false
    → event_id later r.id ≢ event_id w.clock r.id
    → (ms : List Move) × let s = play h ms (pair_of w (confirming e).prog (confirming e).prog) in
        (s.threads ≡ ended (ok tt) ∷ ended (ok tt) ∷ [])
        × (confirmations r.id s.world.db ≡ confirmations r.id w.db + 2)
unfolding of_row
confirmed_twice h e r w later calm due alone fresh fresh' other =
    let p = paid_purchase e w.clock (of_row r) in
    let first = first_CanWrite h e r w.clock w due alone fresh in
    let again = first_CanWrite h e r later w due alone fresh' in
    let second = written-CanWrite e p w.clock later w.db other first again in
    let at_end = play-once_and_twice h e r later w calm due first second in
    (
      once_and_twice h e r later w,
      (
        rw at_end refl,
        rw at_end (
            omega (
              arith,
              written-confirmations e p w.clock w.db first,
              written-confirmations e p later (written e p w.clock w.db) second,
            )),
      ),
    )
