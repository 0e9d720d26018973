-- ===== src/Threads/Pool/Safe.antt =====
-- Threads that are safe each for itself are safe together, in any order of their turns.
use streaming_bot.Prelude.{ℕ, zero, suc, List, [], ◌∷◌, ◌++◌}
use streaming_bot.World.{World, Db}
use streaming_bot.App.IssueAccess.{Handler}
use streaming_bot.Threads.{Prog, ended, call}
use streaming_bot.Threads.Rely.{Rely, Safe, Free, Safe-call, Safe-later, Safe-dropped}
use streaming_bot.Storage.Contents
use streaming_bot.Threads.{one}
use streaming_bot.Threads.Quiet.{IsQuiet, quiet_rules}
use streaming_bot.Threads.Quiet.Allows.{Allows}
use streaming_bot.Threads.Quiet.Front.Bot.{updating-IsQuiet}
use streaming_bot.Threads.Quiet.Front.Server.{serving-IsQuiet}
use streaming_bot.Threads.Quiet.Front.Sync.{syncing-IsQuiet}
use streaming_bot.Threads.Pool.{
  Task, telegram, http, work, sync, seed, Pool, resume, turn_of, Move, arrive, turn, pass,
  thread_of, make, play,
}

module _ (R : Rely) where
  open R use {holds, extends, same, later}

  abbrev pub AllSafe : List (Prog (Unit {0})) → Db → Type 0
  AllSafe [] d = Unit
  AllSafe (p ∷ ps) d = Safe R (Free R) p d × AllSafe ps d

  pub AllSafe-later :
      (ps : List (Prog (Unit {0}))) (d e : Db) → extends d e → AllSafe ps d → AllSafe ps e
  AllSafe-later [] d e x s = tt
  AllSafe-later (p ∷ ps) d e x s =
      (Safe-later R (Free R) (λ a d e x q. tt) p d e x s.0, AllSafe-later ps d e x s.1)

  AllSafe-append :
      (ps : List (Prog (Unit {0}))) (p : Prog (Unit {0})) (d : Db)
      → AllSafe ps d
      → Safe R (Free R) p d
      → AllSafe (ps ++ p ∷ []) d
  AllSafe-append [] p d s t = (t, tt)
  AllSafe-append (q ∷ ps) p d s t = (s.0, AllSafe-append ps p d s.1 t)

  resume-Safe :
      (p : Prog (Unit {0})) (w : World)
      → holds w.db
      → Safe R (Free R) p w.db
      → holds (resume p w).1.db
        × extends w.db (resume p w).1.db
        × Safe R (Free R) (resume p w).0 (resume p w).1.db
  unfolding resume
  resume-Safe (ended r) w i s = (i, same w.db, s)
  resume-Safe (call m k) w i s = Safe-call R (Free R) m k w.db s w (same w.db) i

  turn_of-AllSafe :
      (i : ℕ) (ps : List (Prog (Unit {0}))) (w : World)
      → holds w.db
      → AllSafe ps w.db
      → holds (turn_of i ps w).1.db
        × extends w.db (turn_of i ps w).1.db
        × AllSafe (turn_of i ps w).0 (turn_of i ps w).1.db
  unfolding turn_of
  turn_of-AllSafe i [] w h s = (h, same w.db, tt)
  turn_of-AllSafe zero (p ∷ ps) w h s =
      let (h', x, t) = resume-Safe p w h s.0 in
      (h', x, (t, AllSafe-later ps w.db (resume p w).1.db x s.1))
  turn_of-AllSafe (suc i) (p ∷ ps) w h s =
      let (h', x, t) = turn_of-AllSafe i ps w h s.1 in
      (h', x, (Safe-later R (Free R) (λ a d e x q. tt) p w.db (turn_of i ps w).1.db x s.0, t))

  module _ (h : Handler) (a : Allows R) where
    seeding-IsQuiet : IsQuiet R (one Contents.ensure_demo_content)
    unfolding Contents.ensure_demo_content
    seeding-IsQuiet = search (quiet_rules, a.seed_content)

    thread_of-Safe : (t : Task) (d : Db) → Safe R (Free R) (thread_of h t) d
    unfolding thread_of
    thread_of-Safe (telegram b u) d = (updating-IsQuiet a b u).guards.at d tt
    thread_of-Safe (http s r) d =
        Safe-dropped R (Free R) _ d ((serving-IsQuiet a s r).guards.at d tt)
    thread_of-Safe work d = (a.work h).guards.at d tt
    thread_of-Safe (sync api c fuel price) d =
        Safe-dropped R (Free R) _ d ((syncing-IsQuiet a api c fuel price).guards.at d tt)
    thread_of-Safe seed d = seeding-IsQuiet.guards.at d tt

    make-AllSafe :
        (m : Move) (s : Pool)
        → holds s.world.db
        → AllSafe s.threads s.world.db
        → holds (make h m s).world.db
          × extends s.world.db (make h m s).world.db
          × AllSafe (make h m s).threads (make h m s).world.db
    unfolding make
    make-AllSafe (arrive t) s i safe = (
      i,
      same s.world.db,
      AllSafe-append s.threads (thread_of h t) s.world.db safe (thread_of-Safe t s.world.db),
    )
    make-AllSafe (turn n) s i safe = turn_of-AllSafe n s.threads s.world i safe
    make-AllSafe (pass now clock entropy cache net) s i safe =
        let (i', x) = a.advance now s.world.db i in
        (i', x, AllSafe-later s.threads s.world.db (record s.world.db { now = now }) x safe)

    -- Whatever the order of the moves: the invariant stands, the tables go on as agreed, and the
    -- threads stay safe.
    pub play-AllSafe :
        (ms : List Move) (s : Pool)
        → holds s.world.db
        → AllSafe s.threads s.world.db
        → holds (play h ms s).world.db
          × extends s.world.db (play h ms s).world.db
          × AllSafe (play h ms s).threads (play h ms s).world.db
    unfolding play
    play-AllSafe [] s i safe = (i, same s.world.db, safe)
    play-AllSafe (m ∷ ms) s i safe =
        let (i', x, safe') = make-AllSafe m s i safe in
        let (j, y, safe'') = play-AllSafe ms (make h m s) i' safe' in (j, later x y, safe'')
