-- ===== src/Threads/Issuing.antt =====
-- The issue of a link and the round of the outbox processor, as threads.
use streaming_bot.Prelude.{ℕ, Text, text, text_eq, List, [], ◌∷◌, Bool, true, false, map}
use streaming_bot.Prelude.Int.{pos}
use streaming_bot.Exec.{Result, ok, err}
use streaming_bot.World
use streaming_bot.World.{Io}
use streaming_bot.Domain.Purchase.{Purchase}
use streaming_bot.Storage.Purchases
use streaming_bot.Storage.Contents
use streaming_bot.Storage.Grants
use streaming_bot.Storage.Tokens
use streaming_bot.Storage.Outbox.{unpublished, mark_published}
use streaming_bot.Platform.Crypto.{generate}
use streaming_bot.App.Sender.{send_access_link}
use streaming_bot.Prelude.Int.{ℤ}
use streaming_bot.App.IssueAccess
use streaming_bot.App.IssueAccess.{Handler}
use streaming_bot.Jobs
use streaming_bot.Threads.{Thread, one, branch, attempted, ignored, and_then}
use streaming_bot.Threads.Locals.{returned, raised, presented, raised_if, applied}

unfoldable pub sending_link :
    (has_bot : Bool) (user : ℤ) (link : Text) → Thread (send_access_link has_bot user link)
unfolding send_access_link
sending_link false user link = returned tt
sending_link true user link = one _

module _ (h : Handler) where
  unfoldable pub generating : Thread (generate h.sum256)
  unfolding generate
  generating = and_then (one (World.rand_read 32)) λ buf. returned _

  unfoldable pub finishing :
      (link raw : Text) (p : Purchase) → Thread (IssueAccess.finish h link raw p)
  unfolding IssueAccess.finish
  finishing link raw p =
      and_then (applied p _)
        λ p. and_then (one (Purchases.update p)) λ _. sending_link h.has_bot p.user_id _

  unfoldable pub granting :
      (link : Text) (expires_at : ℕ) (p : Purchase)
      → Thread (IssueAccess.grant_access h link expires_at p)
  unfolding IssueAccess.grant_access
  granting link expires_at p = and_then generating λ token. and_then (one World.time_now) λ now.
      and_then (one (Grants.create _)) λ _. and_then (one World.time_now) λ until.
        and_then (ignored (one (Tokens.put h.cache _ p.id _))) λ _. finishing link token.0 p

  unfoldable pub answering :
      (r : Result (Text × ℕ)) (p : Purchase) → Thread (IssueAccess.after_provider h r p)
  unfolding IssueAccess.after_provider
  answering (ok (link, expires_at)) p = granting link expires_at p
  answering (err e) p =
      and_then (one World.time_now)
        λ now. and_then (ignored (one (Purchases.update _))) λ _. raised e

  unfoldable pub issuing : (id : Text) → Thread (IssueAccess.handle h id)
  unfolding IssueAccess.handle
  issuing id = and_then (attempted (one (Purchases.get_by_id id))) λ found.
      and_then (presented found _) λ p.
        and_then (attempted (one (Contents.get_by_id p.content_id))) λ item.
          and_then (presented item _) λ c. and_then (raised_if _ _) λ _.
            and_then
              (attempted (one (h.provider.issue_access_link c.external_ref p.user_id h.ttl p.id)))
              λ issued. answering issued p

  unfoldable pub marking :
      (r : Result (Unit {0})) (e : Jobs.OutboxEvent) → Thread (Jobs.after_issue h r e)
  unfolding Jobs.after_issue
  marking (ok _) e = ignored (one (mark_published e.id))
  marking (err _) e = returned tt

  unfoldable pub processing : (e : Jobs.OutboxEvent) → Thread (Jobs.process_event h e)
  unfolding Jobs.process_event
  processing e =
      branch (text_eq e.event_type (text "purchase_confirmed"))
        (and_then (attempted (issuing e.purchase_id)) λ r. marking r e) (returned tt)

  unfoldable pub processing_all : (es : List Jobs.OutboxEvent) → Thread (Jobs.process_all h es)
  unfolding Jobs.process_all
  processing_all [] = returned tt
  processing_all (e ∷ es) = and_then (processing e) λ _. processing_all es

  unfoldable pub working : Thread (Jobs.run_once h)
  unfolding Jobs.run_once
  working = and_then (one (unpublished (pos 20))) λ events. processing_all (map Jobs.to_job events)
