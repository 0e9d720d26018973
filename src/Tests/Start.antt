-- ===== src/Tests/Start.antt =====
-- A program that is started in production, stops, and is started again.
use streaming_bot.Prelude.{
  text_eq, false, some, none, ◌<◌, ◌||◌, if◌then◌else◌, ◌≡◌, refl, Text, text, Text-discrete, List,
  [], ◌∷◌, ◌++◌, find, any, update_where, select, true,
}
use streaming_bot.Prelude.Int.{is_int4}
use streaming_bot.Prelude.Tables.{count}
use streaming_bot.Prelude.Decimal.{decimal, decimal_ℤ}
use streaming_bot.Exec.{ok, gets, pure, attempt, present, raise_if, ignore, on, modify, ◌>>=◌}
use streaming_bot.World.{sql, redis, time_now, rand_read}
use streaming_bot.Domain.Content.{can_be_purchased}
use streaming_bot.Domain.Purchase.{mark_paid, status_text, parse_status, Status-discrete}
use streaming_bot.Storage.Contents
use streaming_bot.Storage.Purchases
use streaming_bot.Storage.Grants
use streaming_bot.Storage.Outbox
use streaming_bot.Storage.Payments
use streaming_bot.Platform.Hex.{encode_to_string}
use streaming_bot.Platform.Crypto.{token_digest, generate}
use streaming_bot.Platform.Idgen.{new_id}
use streaming_bot.Platform.Json.{escape, escape_all, marshal_string}
use streaming_bot.Platform.Strings.{trim_space, trim_left, trim_right, is_space}
use streaming_bot.App.StartPurchase
use streaming_bot.App.ConfirmPayment
use streaming_bot.Threads.{chain, tried, dropped, one, local, branch, attempted, ignored, and_then}
use streaming_bot.Threads.Locals.{returned, raised, presented, raised_if, applied}
use streaming_bot.Threads.UseCases.{
  publishing, writing_paid, confirming_due, confirming, new_identifier, starting,
}
use streaming_bot.Threads.Issuing.{
  generating, granting, answering, issuing, processing, processing_all, working,
}
use streaming_bot.Threads.Front.Server.{
  posting, decoding, starting_decoded, paying_decoded, serving,
}
use streaming_bot.Threads.Pool.{resume, turn_of, thread_of, make, play}
use streaming_bot.Storage.Tokens
use streaming_bot.App.UseAccess
use streaming_bot.System.Sound.{has_grant, has_row, is_pending, confirmations}
use streaming_bot.Tests.{bytes, client, digest}
use streaming_bot.Platform.Config.{
  Config, load, read_config, require_settings, getenv_default, getenv_int, getenv_bool,
}
use streaming_bot.Platform.Config
use streaming_bot.Streaming.Client.{
  BunnyApi, new_bunny_client, issue_access_link, list_library_videos,
}
use streaming_bot.Streaming.Provider.{bunny}
use streaming_bot.Streaming.Sync.{
  Synced, sync_library_content, sync_pages, sync_videos, sync_video, after_page, after_videos,
  after_video, store_video,
}
use streaming_bot.Exec.{lift}
use streaming_bot.System.Reach.{initial}
use streaming_bot.Wiring.{
  Services, disabled, has_library, is_production, is_enabled, fill_catalogue, bunny_client, polling,
  issue_access_uc, api_server, syncs_periodically,
}
use streaming_bot.Wiring.Main.{
  running, run_query, run_queries, ensure_schema, connect, start_loaded, start_up, request,
  outbox_tick, turn_taken, passed, moves, go_on, Run, main, restarted,
}
use streaming_bot.Wiring.Restarts.{restarted_is_paid}
use streaming_bot.Wiring.Production.{first_sync, production_is_complete}
use streaming_bot.Tests.Schedule.{bought_id, decoder, post}

-- The service has one video.
abbrev api : BunnyApi
api = record {
  get = λ url key w. (ok (record { status = 200; body = []; start = [] }), w);
  get-db = λ url key w. refl;
  decode_items =
      λ body. ok (record { guid = text "content-demo-1"; title = text "T"; description = [] } ∷ []);
}

abbrev services : Services
services = record {
  sum256 = digest;
  api = api;
  cache = client;
  collate = λ a b. true;
  decoder = decoder;
  opened = ok tt;
  store_made = ok tt;
  pinged = ok tt;
  connected = ok tt;
}

abbrev variables : Text → Text
variables key =
    if text_eq key (text "ENVIRONMENT")
    then text "prod"
    else if text_eq key (text "TELEGRAM_POLLING")
    then text "off"
    else if text_eq key (text "BOT_TOKEN")
        || text_eq key (text "BUNNY_LIBRARY_ID")
        || text_eq key (text "BUNNY_API_KEY")
    then text "x"
    else []

abbrev settings : Config
settings = read_config variables

launch : (start_up services variables 1 initial).0 ≡ ok (running settings disabled)
unfolding start_up load read_config require_settings getenv_default getenv_int getenv_bool
    start_loaded connect ensure_schema run_queries run_query fill_catalogue bunny_client
    new_bunny_client polling sync_library_content sync_pages sync_videos sync_video after_page
    after_videos after_video store_video list_library_videos lift trim_space trim_left trim_right
    is_space Text-discrete sql gets pure attempt raise_if ◌>>=◌ find any select update_where
    Contents.get_by_id Contents.upsert Contents.upsert_row is_int4
launch = refl

in_production : is_production settings ≡ true
unfolding Text-discrete read_config getenv_default
in_production = refl

production_is_complete_example :
    (load variables ≡ Config.loaded settings)
    × (has_library settings ≡ true)
    × ((y : Synced) × ((first_sync services settings 1 (ensure_schema initial).1).0 ≡ ok (some y))
        × (y.failure ≡ none)
        × ((start_up services variables 1 initial).1
            ≡ (first_sync services settings 1 (ensure_schema initial).1).1))
    × (settings.telegram_polling ≡ true → is_enabled disabled ≡ true)
production_is_complete_example =
    production_is_complete services variables 1 initial settings disabled launch in_production

-- A purchase is started, and the program stops.
abbrev first_run : Run
first_run = record {
  services = services;
  getenv = variables;
  fuel = 1;
  occurrences =
      passed 10 10 (bytes ++ bytes ++ bytes) [] []
      ∷ request (post (text "/purchase/start"))
      ∷ turn_taken 0
      ∷ turn_taken 0
      ∷ turn_taken 0
      ∷ turn_taken 0
      ∷ [];
}

-- The payment comes, and the program stops while a round of the outbox is under way.
abbrev second_run : Run
second_run = record first_run {
  occurrences =
      request (post (text "/webhook/telegram/successful_payment"))
      ∷ turn_taken 0
      ∷ turn_taken 0
      ∷ turn_taken 0
      ∷ turn_taken 0
      ∷ turn_taken 0
      ∷ turn_taken 0
      ∷ turn_taken 0
      ∷ turn_taken 0
      ∷ turn_taken 0
      ∷ outbox_tick
      ∷ turn_taken 1
      ∷ turn_taken 1
      ∷ turn_taken 1
      ∷ turn_taken 1
      ∷ turn_taken 1
      ∷ turn_taken 1
      ∷ turn_taken 1
      ∷ [];
}

abbrev runs : List Run
runs = first_run ∷ second_run ∷ []

granted : has_grant bought_id (restarted runs initial).db ≡ true
unfolding is_int4 count Contents.seed_row Contents.ensure_demo_content StartPurchase.handle
    StartPurchase.payload Contents.get_by_id can_be_purchased new_id rand_read encode_to_string
    Purchases.create Purchases.insert_row Purchases.to_row Purchases.nullable_string status_text
    time_now sql gets pure attempt present raise_if ◌>>=◌ Text-discrete find any escape escape_all
    marshal_string Payments.is_processed Purchases.get_by_payload Purchases.select_one
    Purchases.of_row parse_status mark_paid Status-discrete on modify Purchases.update
    Purchases.update_row update_where Payments.save_payment_event Payments.insert_event
    Outbox.publish_purchase_confirmed Outbox.insert_row Outbox.event_id Payments.mark_processed
    Payments.insert_key Outbox.unpublished Outbox.order_by_created select Purchases.get_by_id
    generate token_digest Grants.create Grants.insert_row ignore decimal_ℤ decimal trim_space
    trim_left trim_right is_space play make turn_of resume thread_of chain tried dropped one local
    branch attempted ignored and_then returned raised presented raised_if applied publishing
    writing_paid confirming_due confirming new_identifier starting generating granting answering
    issuing processing processing_all working posting decoding starting_decoded paying_decoded
    serving UseAccess.handle UseAccess.check UseAccess.redeem Tokens.get Tokens.delete redis
    Grants.get_by_token_hash Grants.select_by_hash Grants.mark_used Grants.mark_used_row
    ConfirmPayment.handle ConfirmPayment.confirm restarted main go_on moves issue_access_uc
    api_server bunny issue_access_link syncs_periodically start_up load read_config require_settings
    getenv_default getenv_int getenv_bool start_loaded connect ensure_schema run_queries run_query
    fill_catalogue bunny_client new_bunny_client polling sync_library_content sync_pages sync_videos
    sync_video after_page after_videos after_video store_video list_library_videos lift
    Contents.upsert Contents.upsert_row
granted = refl

restarted_is_paid_example :
    (0 < confirmations bought_id (restarted runs initial).db)
    × (has_row bought_id (restarted runs initial).db.purchases ≡ true)
    × (any (is_pending bought_id) (restarted runs initial).db.purchases ≡ false)
restarted_is_paid_example = restarted_is_paid runs bought_id granted
