-- ===== src/Threads/Pool/Alone.antt =====
-- The threads against the handlers that they stand for.
use streaming_bot.Prelude.{◌≡◌}
use streaming_bot.Exec.{ignore}
use streaming_bot.World.{Io}
use streaming_bot.Storage.Contents
use streaming_bot.App.IssueAccess.{Handler}
use streaming_bot.Jobs
use streaming_bot.Streaming.Sync.{sync_library_content}
use streaming_bot.Telegram.Bot.{handle_update}
use streaming_bot.Http.Server.{serve}
use streaming_bot.Threads.{run, one, ignore-alone}
use streaming_bot.Threads.Issuing.{working}
use streaming_bot.Threads.Front.Bot.{updating}
use streaming_bot.Threads.Front.Server.{serving}
use streaming_bot.Threads.Front.Sync.{syncing}
use streaming_bot.Threads.Pool.{Task, telegram, http, work, sync, seed, thread_of}

-- What a task is, as one call of its handler; a reply or a count is not looked at.
unfoldable handler_of : Handler → Task → Io (Unit {0})
handler_of h (telegram b u) = handle_update b u
handler_of h (http s r) = ignore (serve s r)
handler_of h work = Jobs.run_once h
handler_of h (sync api c fuel price) = ignore (sync_library_content api c fuel price)
handler_of h seed = Contents.ensure_demo_content

-- A thread that no other interrupts does what the handler of its task does: in every world the same
-- result, and the same world after it.
thread_of-handler_of : (h : Handler) (t : Task) → run (thread_of h t) ≡ handler_of h t
unfolding thread_of handler_of
thread_of-handler_of h (telegram b u) = (updating b u).alone
thread_of-handler_of h (http s r) = ignore-alone (serving s r)
thread_of-handler_of h work = (working h).alone
thread_of-handler_of h (sync api c fuel price) = ignore-alone (syncing api c fuel price)
thread_of-handler_of h seed = (one Contents.ensure_demo_content).alone
