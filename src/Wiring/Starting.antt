-- ===== src/Wiring/Starting.antt =====
-- The start of the program as a thread.
use streaming_bot.Prelude.{ℕ, Text, List, [], ◌∷◌}
use streaming_bot.Storage.Contents
use streaming_bot.Platform.Config.{Config, Loaded, loaded, required}
use streaming_bot.Wiring.{Services, has_library, fill_catalogue, bunny_client}
use streaming_bot.Wiring.Main.{run_query, run_queries, ensure_schema, connect, start_loaded}
use streaming_bot.Threads.{Thread, one, branch, attempted, and_then}
use streaming_bot.Threads.Locals.{returned, lifted}
use streaming_bot.Threads.Front.Sync.{syncing}
use streaming_bot.Threads.Rely.{Rely}
use streaming_bot.Threads.Quiet.{IsQuiet, and_then-IsQuiet, gets-IsQuiet, quiet_rules}
use streaming_bot.Threads.Quiet.Allows.{Allows}
use streaming_bot.Threads.Quiet.Front.Sync.{syncing-IsQuiet}

unfoldable pub filling :
    (s : Services) (cfg : Config) (fuel : ℕ) → Thread (fill_catalogue s cfg fuel)
unfolding fill_catalogue
filling s cfg fuel =
    branch (has_library cfg)
      (and_then (syncing s.api (bunny_client cfg) fuel cfg.bunny_default_price) λ res. returned _)
      (and_then (attempted (one Contents.ensure_demo_content)) λ res. returned _)

unfoldable pub creating : (names : List Text) → Thread (run_queries names)
unfolding run_queries
creating [] = returned tt
creating (name ∷ names) = and_then (one (run_query name)) λ _. creating names

unfoldable pub preparing : Thread ensure_schema
unfolding ensure_schema
preparing = creating _

unfoldable pub connecting : (s : Services) (cfg : Config) (fuel : ℕ) → Thread (connect s cfg fuel)
unfolding connect
connecting s cfg fuel = and_then (lifted s.opened) λ _.
    and_then preparing
      λ _. and_then (lifted s.store_made) λ _. and_then (lifted s.pinged) λ _. filling s cfg fuel

unfoldable pub starting_loaded :
    (s : Services) (fuel : ℕ) (c : Loaded) → Thread (start_loaded s fuel c)
unfolding start_loaded
starting_loaded s fuel (required name) = returned _
starting_loaded s fuel (loaded cfg) = and_then (attempted (connecting s cfg fuel)) λ on. returned _

module _ {R : Rely} (a : Allows R) where
  filling-IsQuiet : (s : Services) (cfg : Config) (fuel : ℕ) → IsQuiet R (filling s cfg fuel)
  unfolding filling Contents.ensure_demo_content
  filling-IsQuiet s cfg fuel = search (quiet_rules, a.seed_content, syncing-IsQuiet a)

  query-IsQuiet : (name : Text) → IsQuiet R (one (run_query name))
  unfolding run_query
  query-IsQuiet name = gets-IsQuiet (λ d. tt)

  creating-IsQuiet : (names : List Text) → IsQuiet R (creating names)
  unfolding creating
  creating-IsQuiet [] = search quiet_rules
  creating-IsQuiet (name ∷ names) =
      and_then-IsQuiet (query-IsQuiet name) λ _. creating-IsQuiet names

  preparing-IsQuiet : IsQuiet R preparing
  unfolding preparing
  preparing-IsQuiet = creating-IsQuiet _

  connecting-IsQuiet : (s : Services) (cfg : Config) (fuel : ℕ) → IsQuiet R (connecting s cfg fuel)
  unfolding connecting
  connecting-IsQuiet s cfg fuel = search (quiet_rules, preparing-IsQuiet, filling-IsQuiet)

  pub starting_loaded-IsQuiet :
      (s : Services) (fuel : ℕ) (c : Loaded) → IsQuiet R (starting_loaded s fuel c)
  unfolding starting_loaded
  starting_loaded-IsQuiet s fuel (required name) = search quiet_rules
  starting_loaded-IsQuiet s fuel (loaded cfg) = search (quiet_rules, connecting-IsQuiet)
