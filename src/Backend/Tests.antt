-- ===== src/Backend/Tests.antt =====
-- Runs of the backend's ticks.
use galaxy_integration_steam.Prelude.{
  ℕ, String, ◌≡◌, refl, true, false, List, [], ◌∷◌, ◌++◌, Option, none, some, arith,
}
use galaxy_integration_steam.Games.Defs.{
  App, GamesCache, update_app_title, consume_resolved_apps, held, update_ready_state, count_down,
  consumed, yielded,
}
use galaxy_integration_steam.UserInfo.Defs.{new_cache}
use galaxy_integration_steam.Backend.Defs.{
  LicensesCache, Dumped, Json, done, Backend, Event, ticking, resuming, importing, titled, run,
}
use galaxy_integration_steam.Backend.Told.{promised, all_added}
use galaxy_integration_steam.Backend.Sent.{IsNoted, promised-run-IsNoted}
use galaxy_integration_steam.Backend.Reached.{resumings, run-tick-tells}

-- The texts are the objects.
data Object : Type 0 where
  licenses_object : LicensesCache → Object
  bare_object : Option String → Object
  dumped_object : Object → Option String → Object

abbrev licenses_of : Object → Option LicensesCache
licenses_of (licenses_object l) = some l
licenses_of (bare_object v) = none
licenses_of (dumped_object j v) = none

abbrev dumped_of : Object → Option (Dumped Object)
dumped_of (licenses_object l) = none
dumped_of (bare_object v) = some (record { licenses = none; version = v })
dumped_of (dumped_object j v) = some (record { licenses = some j; version = v })

abbrev object_of : Option Object → Option String → Object
object_of none v = bare_object v
object_of (some j) v = dumped_object j v

abbrev objects : Json Object
objects = record {
  to_json = licenses_object;
  from_json = licenses_of;
  dumps = λ d. object_of d.licenses d.version;
  loads = dumped_of;
}

abbrev game_of : ℕ → App
game_of i = record { appid = i; title = "a game"; type_ = "game"; parent = none }

abbrev empty_games : GamesCache
empty_games = record {
  licenses = record { package_id = 10; shared = false; app_ids = 440 ∷ [] } ∷ [];
  apps = [];
  sent_apps = [];
  apps_added = [];
  add_game_lever = false;
  packages_to_parse = none;
  apps_to_parse = none;
  ready = false;
}

abbrev started : Backend Object
started = record {
  games = empty_games;
  user_info = new_cache;
  owned_games_parsed = false;
  task = done;
  persistent_games = none;
  modified = false;
  games_told = [];
  credentials_told = [];
}

-- A title that comes while the task of the second tick has not started is told by it.
abbrev events : List Event
events =
    ticking
    ∷ importing
    ∷ ticking
    ∷ titled 570 "Dota 2" "game" none
    ∷ titled 7 "a dlc" "dlc" none
    ∷ resuming
    ∷ []

titles_told :
    (run objects events started).games_told
    ≡ record { appid = 570; title = "Dota 2"; type_ = "game"; parent = none } ∷ []
unfolding run update_app_title consume_resolved_apps held update_ready_state count_down consumed
    yielded
titles_told = refl

promised-run-IsNoted_example :
    (promised (run objects events started) ≡ promised started ++ all_added objects events started)
    × IsNoted (run objects events started)
promised-run-IsNoted_example = promised-run-IsNoted objects events started tt

abbrev two_added : Backend Object
two_added = record started {
  games = record empty_games { apps_added = game_of 1 ∷ game_of 2 ∷ [] };
  owned_games_parsed = true;
}

run-tick-tells_example :
    ((run objects (ticking ∷ resumings 3) two_added).games_told ≡ game_of 1 ∷ game_of 2 ∷ [])
    × ((run objects (ticking ∷ resumings 3) two_added).task ≡ done)
run-tick-tells_example = run-tick-tells objects 2 two_added refl refl (omega arith)

abbrev decoded : (d : Dumped Object) → dumped_of (object_of d.licenses d.version) ≡ some d
decoded d = by_licenses d.licenses d.version
  where
    by_licenses :
        (o : Option Object) (v : Option String)
        → dumped_of (object_of o v) ≡ some (record { licenses = o; version = v })
    by_licenses none v = refl
    by_licenses (some j) v = refl
