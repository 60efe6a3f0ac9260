-- ===== src/Imports/Tests.antt =====
-- A run of an import.
use galaxy_integration_steam.Prelude.{
  ℕ, ◌≡◌, refl, true, false, List, [], ◌∷◌, ◌++◌, Option, none, some, arith, ok,
}
use galaxy_integration_steam.Prelude.Keys.{nat_eq}
use galaxy_integration_steam.Prelude.Dict.{get}
use galaxy_integration_steam.Prelude.Text.{Text, codes, list_eq}
use galaxy_integration_steam.UserInfo.Decimal.{str}
use galaxy_integration_steam.Imports.Jobs.{
  import_game_stats, import_collections, import_game_times, Client, Round, packet, timeout, rounds,
  put_on, rounds-keeps, end_loop, second_raises,
}
use galaxy_integration_steam.Imports.Achievements.{
  Schema, text, node, nil, field, Block, Unlocked, block_schema, get_achievement_name,
  stats_handler, get_unlocked_achievements,
}
use galaxy_integration_steam.Imports.Earned.{earned, shown-stats_handler}
use galaxy_integration_steam.Imports.Collections.{
  Collections, process_collections_response, retrieve_collections, get_game_library_settings,
  get_game_time, process_user_time_response,
}
use galaxy_integration_steam.Imports.Settings.{
  or_else, last_named, entries_of, Fits, settings-process_collections_response,
}
use galaxy_integration_steam.Imports.Defs.{StatsCache, update_times_ready_state}
use galaxy_integration_steam.Imports.Completion.{Response, games, respond}
use galaxy_integration_steam.Imports.Prepare.{
  Importer, waits, authentication_required, prepare_achievements_context,
  prepare_game_times_context,
}
use galaxy_integration_steam.Imports.AnyOrder.{prepare_achievements_context-completes}
use galaxy_integration_steam.Imports.Defs.{import_in_progress, update_ready_state}
use galaxy_integration_steam.Friends.Translations.{count}

abbrev old_stats : StatsCache ℕ ℕ
old_stats = record { info = []; games_to_import = 570 ∷ []; ready = false }

abbrev responses : List (Response ℕ ℕ)
responses =
    record { game = 440; stats = 1; achievements = 2 }
    ∷ record { game = 570; stats = 3; achievements = 4 }
    ∷ []

abbrev waiting : Client
waiting = record {
  job_list = import_game_stats 570 ∷ import_collections ∷ import_game_times ∷ [];
  jobs_to_process = 0;
  sent = [];
}

abbrev some_rounds : List Round
some_rounds =
    record { called = import_game_stats 440 ∷ []; received = timeout }
    ∷ record { called = []; received = packet (import_collections ∷ []) }
    ∷ []

rounds-keeps_example :
    (end_loop second_raises (rounds some_rounds waiting)).sent
      ++ (end_loop second_raises (rounds some_rounds waiting)).job_list
    ≡ (waiting.sent ++ waiting.job_list) ++ put_on some_rounds
rounds-keeps_example = rounds-keeps some_rounds second_raises waiting

-- A schema with the name of bit 1 of block 2 of the game 570, in English and as it is.
abbrev block_two : Schema → Schema
block_two name = node (
    field (codes "bits")
      (node (
        field (codes "1")
          (node (field (codes "display") (node (field (codes "name") name nil)) nil)) nil))
      nil)

abbrev names : Schema → Schema
names name = node (
    field (codes "570")
      (node (field (codes "stats") (node (field (codes "2") (block_two name) nil)) nil)) nil)

abbrev english_only : Schema
english_only = node (field (codes "english") (text (codes "Won ")) nil)

abbrev english_name : Schema
english_name = names english_only

abbrev blocks : List Block
blocks = record { achievement_id = 2; unlock_time = 0 ∷ 1000 ∷ 0 ∷ [] } ∷ []

abbrev won : ℕ → ℕ → Text
won b i = codes "Won "

shown-stats_handler_example :
    (d : StatsCache ℕ (List Unlocked)) × (stats_handler 570 5 blocks english_name
        (record { info = []; games_to_import = 570 ∷ []; ready = false })
      ≡ ok d)
    × (get_unlocked_achievements (λ t. t) 570 d ≡ ok (earned (λ t. t) won blocks))
unfolding str block_schema get_achievement_name
shown-stats_handler_example =
    shown-stats_handler (λ t. t) won 570 5 blocks english_name
      (record { info = []; games_to_import = 570 ∷ []; ready = false }) refl
      ((block_two english_only, refl, (refl, tt)), tt)

abbrev loads : Text → Option (Text × List ℕ)
loads t = some (t, 570 ∷ [])

abbrev no_collections : Collections
no_collections = record { collections = []; event = false }

settings-process_collections_response_example :
    let d =
      (retrieve_collections (
        process_collections_response loads
          ((codes "a" ∷ codes "hidden" ∷ []) ∷ [])
          no_collections)).0 in
    (get (codes "a") d
      ≡ or_else
          (last_named loads (codes "a") (entries_of ((codes "a" ∷ codes "hidden" ∷ []) ∷ [])))
          (get (codes "a") no_collections.collections))
    × Fits (λ t. t) 570 (codes "a") d (get_game_library_settings (λ t. t) 570 d)
settings-process_collections_response_example =
    settings-process_collections_response (λ t. t) 570 (codes "a") loads
      ((codes "a" ∷ codes "hidden" ∷ []) ∷ []) no_collections tt

settings_run :
    get_game_library_settings
      (λ t. t)
      570
      ((codes "a", 570 ∷ []) ∷ (codes "hidden", 570 ∷ 440 ∷ []) ∷ [])
    ≡ record { tags = some (codes "a" ∷ []); hidden = some true }
unfolding get_game_library_settings
settings_run = refl

-- Steam does not know when 440 was played.
times_run :
    get_game_time 440 (
      process_user_time_response
        (record { appid = 440; playtime_forever = 12; last_playtime = 86_400 } ∷ [])
        (record { times = []; times_imported = false; times_ready = false }))
    ≡ (some 12, none)
unfolding get_game_time process_user_time_response update_times_ready_state
times_run = refl

abbrev idle_importer : Importer ℕ ℕ
idle_importer = record {
  steam_id = some 7;
  stats = record { info = []; games_to_import = []; ready = false };
  times = record { times = []; times_imported = true; times_ready = true };
  client = waiting;
}

-- During an import nothing is asked for again.
asked_once :
    prepare_achievements_context (440 ∷ []) (record idle_importer { stats = old_stats })
    ≡ (record idle_importer { stats = old_stats }, waits)
unfolding prepare_achievements_context update_ready_state
asked_once = refl

refused :
    (prepare_game_times_context (record idle_importer { steam_id = none })).1
    ≡ authentication_required
unfolding prepare_game_times_context
refused = refl

same_games : (i : ℕ) → count i (games responses) ≡ count i (570 ∷ 440 ∷ [])
same_games i = omega arith

prepare_achievements_context-completes_example :
    ((prepare_achievements_context (570 ∷ 440 ∷ []) idle_importer).0.client.job_list
      ≡ waiting.job_list ++ import_game_stats 570 ∷ import_game_stats 440 ∷ [])
    × (d : StatsCache ℕ ℕ) × (respond responses
          (prepare_achievements_context (570 ∷ 440 ∷ []) idle_importer).0.stats
        ≡ some d)
    × (d.ready ≡ true)
    × ((import_in_progress d).1 ≡ false)
prepare_achievements_context-completes_example =
    prepare_achievements_context-completes 7 idle_importer (570 ∷ 440 ∷ []) responses refl refl
      same_games
