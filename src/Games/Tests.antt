-- ===== src/Games/Tests.antt =====
-- Runs and instances of the games cache and its import.
use galaxy_integration_steam.Prelude.{
  ℕ, ◌≡◌, ◌↔◌, refl, true, false, List, [], ◌∷◌, map, arith, none, some,
}
use galaxy_integration_steam.Prelude.Keys.{nat_eq, string_eq}
use galaxy_integration_steam.Prelude.Int.{pos, ◌+ℤ◌, ◌-ℤ◌}
use galaxy_integration_steam.Games.Defs.{
  GamesCache, SteamLicense, start_packages_import, reset_storing_map, update_packages,
  update_license_apps, update_app_title, update_ready_state, fresh_licenses, get_package_ids,
  add_app, count_down,
}
use galaxy_integration_steam.Games.Balance.{IsBalanced, unresolved}
use galaxy_integration_steam.Games.Balance.Steps.{
  Reach, here, next, answered, license_app, import_counts, title_ready,
}
use galaxy_integration_steam.Games.Faults.{new_license}
use galaxy_integration_steam.Games.Library.{Library}
use galaxy_integration_steam.Games.Import.{LicenseMessage, license_import_handler, handle_package}
use galaxy_integration_steam.Games.Import.Licenses.{license_import_handler-rebuild}
use galaxy_integration_steam.Games.Import.Packages.{with_apps, handle_package-Reach}

abbrev empty_cache : GamesCache
empty_cache = record {
  licenses = [];
  apps = [];
  sent_apps = [];
  apps_added = [];
  add_game_lever = false;
  packages_to_parse = none;
  apps_to_parse = none;
  ready = false;
}

abbrev two_licenses : List SteamLicense
two_licenses =
    record { id_ = 10; access_token = 1; shared = false }
    ∷ record { id_ = 20; access_token = 2; shared = true }
    ∷ []

abbrev start : GamesCache
start = start_packages_import two_licenses (reset_storing_map empty_cache)

-- The cache after both packages were answered with one app each.
abbrev waiting : GamesCache
waiting = record empty_cache {
  licenses =
      record { package_id = 10; shared = false; app_ids = 440 ∷ [] }
      ∷ record { package_id = 20; shared = true; app_ids = 570 ∷ [] }
      ∷ [];
  packages_to_parse = some (pos 0);
  apps_to_parse = some (pos 2);
}

abbrev one_packages : GamesCache
one_packages = record empty_cache {
  licenses = map new_license two_licenses;
  packages_to_parse = some (pos 1);
  apps_to_parse = some (pos 0);
}

abbrev one_app : GamesCache
one_app = record one_packages {
  licenses =
      record { package_id = 10; shared = false; app_ids = 440 ∷ [] }
      ∷ record { package_id = 20; shared = true; app_ids = [] }
      ∷ [];
  apps_to_parse = some (pos 1);
}

abbrev last_package : GamesCache
last_package = record one_app { packages_to_parse = some (pos 0) }

start-to-one_app : Reach start one_app
unfolding start_packages_import reset_storing_map update_ready_state fresh_licenses get_package_ids
    update_packages update_license_apps add_app ◌+ℤ◌ ◌-ℤ◌
start-to-one_app =
    next {d = one_packages} (next here (answered refl)) (license_app 10 440 refl refl refl)

start-to-waiting : Reach start waiting
unfolding start_packages_import reset_storing_map update_ready_state fresh_licenses get_package_ids
    update_packages update_license_apps add_app ◌+ℤ◌ ◌-ℤ◌
start-to-waiting =
    next {d = last_package} (next start-to-one_app (answered refl))
      (license_app 20 570 refl refl refl)

import_counts_example :
    waiting.apps_to_parse ≡ some (pos (unresolved waiting.apps waiting.licenses))
import_counts_example = import_counts two_licenses empty_cache start-to-waiting

abbrev one_title : GamesCache
one_title = record waiting {
  apps = (440, record { appid = 440; title = "TF2"; type_ = "game"; parent = none }) ∷ [];
  apps_to_parse = some (pos 1);
}

title_ready_example : (one_title.ready ≡ true) ↔ (
    (one_title.packages_to_parse ≡ some (pos 0))
    × (unresolved one_title.apps one_title.licenses ≡ 0))
unfolding update_app_title update_ready_state count_down ◌-ℤ◌
title_ready_example =
    title_ready two_licenses empty_cache 440 "TF2" "game" none start-to-waiting refl refl

abbrev parsed : GamesCache
parsed = record waiting { apps_to_parse = some (pos 0); ready = true }

abbrev messages : List LicenseMessage
messages =
    record { package_id = 10; flags = 0; owner_id = 5; access_token = 1 }
    ∷ record { package_id = 11; flags = 520; owner_id = 5; access_token = 1 }
    ∷ record { package_id = 0; flags = 0; owner_id = 5; access_token = 1 }
    ∷ record { package_id = 10; flags = 0; owner_id = 6; access_token = 1 }
    ∷ []

license_import_handler-rebuild_example :
    ((license_import_handler two_licenses empty_cache).0.licenses ≡ map new_license two_licenses)
    × ((license_import_handler two_licenses empty_cache).0.apps ≡ [])
    × ((license_import_handler two_licenses empty_cache).0.apps_to_parse ≡ some (pos 0))
    × ((license_import_handler two_licenses empty_cache).0.packages_to_parse ≡ some (pos 2))
    × IsBalanced (license_import_handler two_licenses empty_cache).0
    × ((license_import_handler two_licenses empty_cache).1 ≡ two_licenses)
license_import_handler-rebuild_example =
    license_import_handler-rebuild two_licenses empty_cache (omega arith) refl

handle_package-Reach_example :
    (d : GamesCache) × (handle_package
        (record { packageid = 10; appids = some (440 ∷ 441 ∷ []) })
        (record one_packages { packages_to_parse = some (pos 2) })
      ≡ some (d, 440 ∷ 441 ∷ []))
    × (d.licenses ≡ map (with_apps 10 (440 ∷ 441 ∷ [])) one_packages.licenses)
    × (d.packages_to_parse ≡ some (pos 2 -ℤ pos 1))
    × Reach (record one_packages { packages_to_parse = some (pos 2) }) d
handle_package-Reach_example =
    handle_package-Reach 10 (440 ∷ 441 ∷ [])
      (record one_packages { packages_to_parse = some (pos 2) }) refl refl (refl, (refl, tt))
      (refl, refl, (refl, refl, tt))

-- A user who owns both parts of the expansion pass.
abbrev witcher_library : Library
witcher_library = record {
  steam_id = some 76561;
  games = record empty_cache {
    licenses = record { package_id = 10; shared = false; app_ids = 378648 ∷ 378649 ∷ [] } ∷ [];
    apps =
        (378648, record { appid = 378648; title = "Stone"; type_ = "dlc"; parent = none })
        ∷ (378649, record { appid = 378649; title = "Wine"; type_ = "dlc"; parent = none })
        ∷ [];
    ready = true;
  };
  owned_games_parsed = false;
  modified = false;
}

abbrev shown_to_witcher : List ℕ
shown_to_witcher = 378648 ∷ 378649 ∷ 499450 ∷ []
