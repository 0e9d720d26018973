-- ===== src/Tests.antt =====
-- One sale, from the catalogue to the review: the fixtures of the tests.
mod Sale
mod Whole
mod Calls
mod Links
mod Parts
mod Settings
mod Front
mod Videos
mod Schedule
mod Interleaved
mod Start
use streaming_bot.Prelude.{
  ℕ, ◌+◌, Text, text, text_eq, List, [], ◌∷◌, ◌++◌, Option, none, some, Bool, true, not, take,
  select, find, refl,
}
use mathlib.Core.Option
use streaming_bot.Prelude.Int.{ℤ, pos}
use streaming_bot.Exec.{ok}
use streaming_bot.World.{World, Cache, Io}
use streaming_bot.Domain.Content.{Content}
use streaming_bot.Domain.Payment.{Event}
use streaming_bot.Storage.Contents
use streaming_bot.Storage.Tokens.{RedisClient}
use streaming_bot.App.IssueAccess.{StreamingProvider, Handler}
use streaming_bot.App.StartPurchase
use streaming_bot.App.ConfirmPayment
use streaming_bot.App.UseAccess
use streaming_bot.App.SubmitReview
use streaming_bot.Jobs
use streaming_bot.System.Reach.{initial}

-- A client over the list of pairs, the newest first.
abbrev client : RedisClient
client = record {
  set = λ k v ttl c. (ok tt, (k, v) ∷ c);
  get = λ k c. (ok (Option.map (λ p. p.1) (find (λ p. text_eq p.0 k) c)), c);
  del = λ k c. (ok tt, select (λ p. not (text_eq p.0 k)) c);
}

abbrev provider : StreamingProvider
provider = record {
  issue_access_link = λ ref user ttl key w. (ok (text "https://v/" ++ ref, w.clock + ttl), w);
  issue_access_link-db = λ ref user ttl key w. refl;
}

-- A digest of four bytes.
abbrev digest : Text → List ℕ
digest t = take 4 t

abbrev handler : Handler
handler = record {
  provider = provider;
  cache = client;
  sum256 = digest;
  has_bot = true;
  ttl = 100;
  max_retries = pos 3;
}

abbrev item : Content
item = record {
  id = text "c1";
  external_ref = text "v1";
  title = text "T";
  description = text "D";
  price_stars = pos 25;
  active = true;
}

abbrev bytes : List ℕ
bytes = 1 ∷ 2 ∷ 3 ∷ 4 ∷ 5 ∷ 6 ∷ 7 ∷ 8 ∷ 9 ∷ 10 ∷ 11 ∷ 12 ∷ 13 ∷ 14 ∷ 15 ∷ 255 ∷ []

-- The catalogue has the item, and time has come.
abbrev listed : World
listed = (Contents.upsert item initial).1

abbrev opened : World
opened = record listed {
  db = record listed.db { now = 10 };
  clock = 10;
  entropy = bytes ++ bytes ++ bytes;
  cache = [];
  net = [];
}

abbrev order : StartPurchase.Command
order = record { user_id = pos 7; content_id = text "c1" }

abbrev purchase_id : Text
purchase_id = text "0102030405060708090a0b0c0d0e0fff"

abbrev invoice : StartPurchase.Invoice
invoice = record {
  purchase_id = purchase_id;
  invoice_payload = StartPurchase.payload purchase_id (pos 7) (text "c1");
  amount_stars = pos 25;
}

abbrev sold : World
sold = (StartPurchase.handle order opened).1

abbrev payment : Event
payment = record {
  charge_id = text "ch1";
  amount_stars = pos 25;
  invoice_payload = invoice.invoice_payload;
  raw_payload = text "raw";
  occurred_at = 10;
}

abbrev confirmed : World
confirmed = (ConfirmPayment.handle payment sold).1

abbrev served : World
served = (Jobs.run_once handler confirmed).1

abbrev token : Text
token = text "0102030405060708090a0b0c0d0e0fff" ++ text "0102030405060708090a0b0c0d0e0fff"

abbrev admission : UseAccess.Admission
admission = record { purchase_id = purchase_id; user_id = pos 7; valid = true }

abbrev redeemed : World
redeemed = (UseAccess.handle digest client token served).1

abbrev opinion : SubmitReview.Command
opinion = record {
  user_id = pos 7;
  purchase_id = purchase_id;
  rating = pos 4;
  comment = text "good";
}

abbrev reviewed : World
reviewed = (SubmitReview.handle opinion redeemed).1
