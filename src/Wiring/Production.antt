-- ===== src/Wiring/Production.antt =====
-- What a program that runs in production has.
use streaming_bot.Prelude.{
  ℕ, Text, Option, none, some, Bool, true, false, ◌≡◌, ◌≢◌, refl, arith, ap, sym, ◌∙◌, ◌&&◌,
}
use streaming_bot.Exec.{Result, ok, err, continue, ◌>>=◌, lift, pure, attempt}
use streaming_bot.Exec.Ensures.{bind-ok}
use streaming_bot.World.{World, Io}
use streaming_bot.Platform.Config.{Config, Loaded, loaded, required, load}
use streaming_bot.Platform.Config
use streaming_bot.Platform.Config.Required.{lacks_setting, load-loaded}
use streaming_bot.Platform.Config.{read_config}
use streaming_bot.Streaming.Sync.{Synced, sync_library_content}
use streaming_bot.Telegram.Api.{Bot}
use streaming_bot.Wiring.{
  Services, has_library, is_production, bunny_client, after_sync, fill_catalogue, Polling, fatal,
  disabled, enabled, after_init, polling, is_enabled,
}
use streaming_bot.Wiring.Main.{
  running, with_bot, launched, connect, ensure_schema, start_loaded, start_up,
}

-- The synchronisation of the start.
abbrev pub first_sync : Services → Config → ℕ → Io (Option Synced)
first_sync s cfg fuel = sync_library_content s.api (bunny_client cfg) fuel cfg.bunny_default_price

module _ (s : Services) (cfg : Config) where
  with_bot-running :
      (p : Polling) (c : Config) (bot : Polling)
      → with_bot cfg p ≡ running c bot
      → (c ≡ cfg) × (bot ≡ p) × (p ≢ fatal)
  with_bot-running fatal c bot e = absurd (ground arith)
  with_bot-running disabled c bot e = (ground arith, ground arith, λ h. ground arith)
  with_bot-running (enabled b) c bot e = (ground arith, ground arith, λ h. ground arith)

  launched-running :
      (r : Result (Option Bool)) (c : Config) (bot : Polling)
      → launched s cfg r ≡ running c bot
      → (r ≡ ok (some true)) × (c ≡ cfg) × (bot ≡ polling s cfg) × (polling s cfg ≢ fatal)
  launched-running (err e) c bot h = absurd (ground arith)
  launched-running (ok none) c bot h = absurd (ground arith)
  launched-running (ok (some false)) c bot h = absurd (ground arith)
  launched-running (ok (some true)) c bot h =
      let (same, b, alive) = with_bot-running (polling s cfg) c bot h in (refl, same, b, alive)

  after_init-enabled :
      (r : Result Bot)
      → is_production cfg ≡ true
      → after_init cfg r ≢ fatal
      → is_enabled (after_init cfg r) ≡ true
  after_init-enabled (ok b) p alive = refl
  after_init-enabled (err e) p alive = absurd (alive (rw p refl))

  polling-enabled :
      is_production cfg ≡ true
      → cfg.telegram_polling ≡ true
      → polling s cfg ≢ fatal
      → is_enabled (polling s cfg) ≡ true
  unfolding polling
  polling-enabled p t alive = rw t (after_init-enabled _ p (λ e. alive (rw (t, e) refl)))

  after_sync_complete :
      (r : Option Synced)
      → is_production cfg ≡ true
      → after_sync cfg r ≡ some true
      → (y : Synced) × (r ≡ some y) × (y.failure ≡ none)
  after_sync_complete none p e = absurd (ground arith)
  after_sync_complete (some y) p e = (y, refl, ground arith)

  fill_catalogue-library :
      (fuel : ℕ)
      → has_library cfg ≡ true
      → fill_catalogue s cfg fuel ≡ (first_sync s cfg fuel >>= λ res. pure (after_sync cfg res))
  unfolding fill_catalogue
  fill_catalogue-library fuel l = rw l refl

  filled :
      (fuel : ℕ) (w : World)
      → is_production cfg ≡ true
      → has_library cfg ≡ true
      → (fill_catalogue s cfg fuel w).0 ≡ ok (some true)
      → (y : Synced) × ((first_sync s cfg fuel w).0 ≡ ok (some y))
        × (y.failure ≡ none)
        × ((fill_catalogue s cfg fuel w).1 ≡ (first_sync s cfg fuel w).1)
  unfolding pure
  filled fuel w p l e =
      let same = fill_catalogue-library fuel l in
      let (res, found, done, end) =
        bind-ok (first_sync s cfg fuel) _ w (some true) (ap (λ m. (m w).0) (sym same) ∙ e) in
      let (y, is, fine) = after_sync_complete res p cc in
      (y, found ∙ ap ok is, fine, ap (λ m. (m w).1) same ∙ end)

  connect-filled :
      (fuel : ℕ) (w : World)
      → (connect s cfg fuel w).0 ≡ ok (some true)
      → ((fill_catalogue s cfg fuel (ensure_schema w).1).0 ≡ ok (some true))
        × ((connect s cfg fuel w).1 ≡ (fill_catalogue s cfg fuel (ensure_schema w).1).1)
  unfolding connect lift ◌>>=◌ continue
  connect-filled fuel w e = ground arith

module _ (s : Services) where
  loaded-running :
      (c : Loaded) (fuel : ℕ) (w : World) (cfg : Config) (bot : Polling)
      → (start_loaded s fuel c w).0 ≡ ok (running cfg bot)
      → (c ≡ loaded cfg)
        × ((connect s cfg fuel w).0 ≡ ok (some true))
        × ((start_loaded s fuel c w).1 ≡ (connect s cfg fuel w).1)
        × (bot ≡ polling s cfg)
        × (polling s cfg ≢ fatal)
  unfolding start_loaded pure attempt ◌>>=◌ continue
  loaded-running (required n) fuel w cfg bot e = absurd (ground arith)
  loaded-running (loaded c) fuel w cfg bot e =
      let (on, same, b, alive) = launched-running s c (connect s c fuel w).0 cfg bot cc in
      rw same (refl, on, refl, b, alive)

is_production-same :
    (cfg : Config) → is_production cfg ≡ true → Config.is_production cfg.environment ≡ true
is_production-same cfg p = ground arith

right_false : (a b : Bool) → a ≡ true → (a && b) ≡ false → b ≡ false
right_false true b p e = e
right_false false b p e = absurd (ground arith)

has_library-lacks_setting :
    (cfg given : Config)
    → lacks_setting given ≡ false
    → cfg ≡ record given { bot_token = cfg.bot_token }
    → has_library cfg ≡ true
has_library-lacks_setting cfg given full same = rw same (ground arith)

-- A program that the start leaves running has the configuration that its environment loads. In
-- production that has a library of the video service and its key; the first synchronisation ended
-- without an error, and what it left is the world that the program goes on from (no demo content is
-- made); and where updates are to be polled, there is a bot.
pub production_is_complete :
    (s : Services) (getenv : Text → Text) (fuel : ℕ) (w : World) (cfg : Config) (bot : Polling)
    → (start_up s getenv fuel w).0 ≡ ok (running cfg bot)
    → is_production cfg ≡ true
    → (load getenv ≡ loaded cfg)
      × (has_library cfg ≡ true)
      × ((y : Synced) × ((first_sync s cfg fuel (ensure_schema w).1).0 ≡ ok (some y))
          × (y.failure ≡ none)
          × ((start_up s getenv fuel w).1 ≡ (first_sync s cfg fuel (ensure_schema w).1).1))
      × (cfg.telegram_polling ≡ true → is_enabled bot ≡ true)
unfolding start_up
production_is_complete s getenv fuel w cfg bot e p =
    let (is, on, end, b, alive) = loaded-running s (load getenv) fuel w cfg bot e in
    let (_, complete, given) = load-loaded getenv cfg is in
    let full = right_false _ _ (is_production-same cfg p) complete in
    let library = has_library-lacks_setting cfg (read_config getenv) full given in
    let (fill, at_end) = connect-filled s cfg fuel w on in
    let (y, found, fine, same) = filled s cfg fuel (ensure_schema w).1 p library fill in
    (
      is,
      library,
      (y, found, fine, end ∙ (at_end ∙ same)),
      λ t. rw b (polling-enabled s cfg p t alive),
    )
