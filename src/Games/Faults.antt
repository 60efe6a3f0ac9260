-- ===== src/Games/Faults.antt =====
-- Where the counters of src/steam_network/games_cache.py go wrong.
use galaxy_integration_steam.Prelude.{
  ℕ, ◌-◌, ◌<◌, ◌≡◌, refl, true, false, ◌&&◌, not, List, [], ◌∷◌, ◌++◌, map, arith, Option, some,
  String, if◌then◌else◌, any,
}
use galaxy_integration_steam.Prelude.Keys.{nat_eq}
use galaxy_integration_steam.Prelude.Dict.{put}
use galaxy_integration_steam.Prelude.Int.{pos, negsuc, ◌-ℤ◌, ◌+ℤ◌, int_laws}
use galaxy_integration_steam.Games.Defs.{
  App, License, GamesCache, SteamLicense, number, text, id_in, update_ready_state, update_packages,
  update_license_apps, add_app, same_app, update_app_title, start_packages_import, fresh_licenses,
  get_package_ids,
}
use galaxy_integration_steam.Games.Balance.{holders, count_down-holders}

number_not_in_texts :
    (n : ℕ) (ls : List License) → id_in (number n) (map (λ l. text l.package_id) ls) ≡ false
number_not_in_texts n [] = refl
number_not_in_texts n (l ∷ ls) = ground (arith, number_not_in_texts n ls)

abbrev pub new_license : SteamLicense → License
new_license s = record { package_id = s.id_; shared = s.shared; app_ids = [] }

fresh-all :
    (ls : List License) (ss : List SteamLicense)
    → fresh_licenses (map (λ l. text l.package_id) ls) ss ≡ map new_license ss
unfolding fresh_licenses
fresh-all ls [] = refl
fresh-all ls (s ∷ ss) = rw (number_not_in_texts s.id_ ls) (rw (fresh-all ls ss))

-- The test that should skip licenses the cache holds already never skips one, since it looks for a
-- number among texts: every license sent is stored, once more where it was stored.
pub start_packages_import-appends :
    (ss : List SteamLicense) (c : GamesCache)
    → (start_packages_import ss c).licenses ≡ c.licenses ++ map new_license ss
unfolding start_packages_import get_package_ids update_ready_state
start_packages_import-appends ss c = ground (arith, fresh-all c.licenses ss)

below_zero : (k : ℕ) → 0 < k → pos 0 -ℤ pos k ≡ negsuc (k - 1)
below_zero k h = omega int_laws

-- A title that arrives again once all is parsed, for an app that some license holds, takes
-- `apps_to_parse` below zero, and the cache is no longer ready.
pub repeated_title :
    (a : ℕ) (t type_ : String) (parent : Option ℕ) (c : GamesCache)
    → c.apps_to_parse ≡ some (pos 0)
    → 0 < holders a c.licenses
    → (d : GamesCache) × (update_app_title a t type_ parent c ≡ some d)
      × (d.apps_to_parse ≡ some (negsuc (holders a c.licenses - 1)))
      × (d.ready ≡ false)
unfolding update_app_title update_ready_state
repeated_title a t type_ parent c parsed held =
    let new_app : App = record { appid = a; title = t; type_ = type_; parent = parent } in
    (
      record c {
        apps_to_parse = some (negsuc (holders a c.licenses - 1));
        apps = put a new_app c.apps;
        apps_added =
            if c.add_game_lever && not (any (same_app new_app) c.sent_apps)
            then c.apps_added ++ new_app ∷ []
            else c.apps_added;
        ready = false;
      },
      ground
          (arith, count_down-holders a c.licenses (pos 0), below_zero (holders a c.licenses) held),
      refl,
      refl,
    )

-- The last package to be answered makes the cache ready before the apps of that package are known:
-- the handler counts the package first, and counting its apps does not clear the event.
pub ready_too_early :
    (p a : ℕ) (c : GamesCache)
    → c.packages_to_parse ≡ some (pos 1)
    → c.apps_to_parse ≡ some (pos 0)
    → (d e : GamesCache) × (update_packages c ≡ some d)
      × (update_license_apps p a d ≡ some e)
      × (e.ready ≡ true)
      × (e.apps_to_parse ≡ some (pos 1))
unfolding update_packages update_license_apps update_ready_state ◌+ℤ◌ ◌-ℤ◌
ready_too_early p a c one none_yet = (
  record c { packages_to_parse = some (pos 0); ready = true },
  record c {
    packages_to_parse = some (pos 0);
    apps_to_parse = some (pos 1);
    licenses = map (add_app p a) c.licenses;
    ready = true;
  },
  ground arith,
  ground arith,
  refl,
  refl,
)
