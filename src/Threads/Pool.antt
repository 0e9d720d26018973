-- ===== src/Threads/Pool.antt =====
-- The program as threads that take turns, in any order: each goroutine of the HTTP server, of the
-- bot and of the scheduler makes its calls while others make theirs.
pub mod Safe
pub mod Paid
pub mod Later
pub mod Alone
pub mod Turns
pub mod Writes
pub mod Twice
use streaming_bot.Prelude.{ℕ, zero, suc, Text, List, [], ◌∷◌, ◌++◌}
use streaming_bot.Exec.{Result, ok}
use streaming_bot.World.{World, Db, Io, Cache, Outcome}
use streaming_bot.Prelude.Int.{ℤ}
use streaming_bot.Storage.Contents
use streaming_bot.Streaming.Client.{Client, BunnyApi}
use streaming_bot.Telegram.Api.{Bot, Update}
use streaming_bot.Http.Server.{Server, Request}
use streaming_bot.App.IssueAccess.{Handler}
use streaming_bot.Threads.{Prog, ended, call, dropped, one}
use streaming_bot.Threads.Front.Bot.{updating}
use streaming_bot.Threads.Front.Server.{serving}
use streaming_bot.Threads.Front.Sync.{syncing}
use streaming_bot.Threads.Issuing.{working}

-- What a new thread is for: an update of the bot, a request, a round of the outbox processor or of
-- the synchronisation (with the pages that it can read), or the demo content.
pub data Task : Type 0 where
  telegram : Bot → Update → Task
  http : Server → Request → Task
  work : Task
  sync : BunnyApi → Client → ℕ → ℤ → Task
  seed : Task

-- The threads in the order of their arrival; one that has ended stays in its place.
pub record Pool : Type 1 where
  pub world : World
  pub threads : List (Prog (Unit {0}))

-- The next call of a thread, if it has one.
unfoldable pub resume : Prog (Unit {0}) → World → Prog (Unit {0}) × World
resume (ended r) w = (ended r, w)
resume (call m k) w = let (r, w') = m w in (k r, w')

-- The turn of the thread with this number.
unfoldable pub turn_of : ℕ → List (Prog (Unit {0})) → World → List (Prog (Unit {0})) × World
unfolding resume
turn_of i [] w = ([], w)
turn_of zero (p ∷ ps) w = let (p', w') = resume p w in (p' ∷ ps, w')
turn_of (suc i) (p ∷ ps) w = let (ps', w') = turn_of i ps w in (p ∷ ps', w')

-- What happens next: a thread arrives, a thread has its turn, or time passes, the cache forgets,
-- entropy comes in and the services get as they get.
pub data Move : Type 0 where
  arrive : Task → Move
  turn : ℕ → Move
  pass : ℕ → ℕ → List ℕ → Cache → List Outcome → Move

module _ (h : Handler) where
  unfoldable pub thread_of : Task → Prog (Unit {0})
  unfolding Contents.ensure_demo_content
  thread_of (telegram b u) = (updating b u).prog
  thread_of (http s r) = dropped (serving s r).prog
  thread_of work = (working h).prog
  thread_of (sync api c fuel price) = dropped (syncing api c fuel price).prog
  thread_of seed = (one Contents.ensure_demo_content).prog

  unfoldable pub make : Move → Pool → Pool
  make (arrive t) s = record s { threads = s.threads ++ thread_of t ∷ [] }
  make (turn i) s = let (ps, w) = turn_of i s.threads s.world in record { world = w; threads = ps }
  make (pass now clock entropy cache net) s = record s {
    world = record s.world {
      db = record s.world.db { now = now };
      clock = clock;
      entropy = entropy;
      cache = cache;
      net = net;
    };
  }

  unfoldable pub play : List Move → Pool → Pool
  play [] s = s
  play (m ∷ ms) s = play ms (make m s)
