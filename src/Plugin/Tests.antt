-- ===== src/Plugin/Tests.antt =====
-- The plugin on small inputs.
use galaxy_integration_steam.Prelude.{
  ℕ, ◌≡◌, refl, true, false, List, [], ◌∷◌, ◌++◌, Option, none, some, String, ok,
}
use galaxy_integration_steam.Prelude.Int.{negsuc}
use galaxy_integration_steam.Prelude.Keys.{nat_eq, string_eq}
use galaxy_integration_steam.Prelude.Text.{Text, codes, list_eq}
use galaxy_integration_steam.Prelude.Dict.{Dict}
use galaxy_integration_steam.Local.Defs.{
  get_state_changes, removed_games, added_games, changed_games,
}
use galaxy_integration_steam.Local.Folders.{Vdf, text, node, nil, entry, Machine}
use galaxy_integration_steam.Local.Tests.{Flags, flags_eq, two_flags, before, after, machine}
use galaxy_integration_steam.Plugin.Defs.{
  Stat, Plugin, Event, waiting, cooling, done, tick, games_asked, games_read, update_woken,
  first_push_done, get_stat, run, new_plugin,
}
use galaxy_integration_steam.Plugin.Mirror.{IsMirrored, HasOneUpdate, run-IsMirrored}
use galaxy_integration_steam.Plugin.Ticks.{repeat, run-tick-catches}
use galaxy_integration_steam.Plugin.Manifest.{int_of}
use galaxy_integration_steam.Plugin.Client.{
  steam_command, store_current_version, getattr, inherited, not_implemented, attribute_error,
}

abbrev stat : ℕ → Option Stat
stat n = some record { size = n; mtime = n }

abbrev events : List (Event Flags)
events =
    update_woken
    ∷ first_push_done
    ∷ games_asked before
    ∷ tick (stat 2)
    ∷ games_read 100 after
    ∷ update_woken
    ∷ []

run-IsMirrored_example :
    IsMirrored two_flags (run two_flags events (new_plugin (stat 1)))
    × HasOneUpdate two_flags (run two_flags events (new_plugin (stat 1)))
run-IsMirrored_example = run-IsMirrored two_flags events (stat 1)

launch_run : (run two_flags events (new_plugin (stat 1))).last_launch ≡ 100
unfolding run new_plugin get_state_changes removed_games added_games changed_games
launch_run = refl

-- The same with an update that sleeps.
abbrev asleep : Plugin Flags
asleep = record {
  local_games_cache = some before;
  last_launch = 0;
  regmon = get_stat (stat 1);
  update_task = cooling;
  updates = 1;
  push_task = done;
  pushes_waiting = 0;
  pushes_cooling = 0;
  modified = false;
  pushed = 0;
  galaxy = [];
}

run-tick-catches_example :
    let q =
      run two_flags (repeat 3 (tick (stat 2) ∷ []) ++ (update_woken ∷ tick (stat 2) ∷ [])) asleep in
    (q.update_task ≡ waiting) × (q.regmon ≡ get_stat (stat 2))
run-tick-catches_example = run-tick-catches two_flags 3 (stat 2) asleep (refl, refl, refl)

abbrev app_state : Vdf
app_state = node (
    entry (codes "stateflags") (text (codes "4")) (
      entry (codes "sizeondisk") (text (codes "900"))
        (entry (codes "bytesdownloaded") (text (codes "7")) nil)))

abbrev with_manifest : Machine
with_manifest = record machine {
  load_vdf = λ t. ok (node (entry (codes "appstate") app_state nil));
}

abbrev context : Dict Text Text
context = (codes "570", codes "path") ∷ []

ints : (int_of (codes " -1_0 ") ≡ some (negsuc 9)) × (int_of (codes "1__0") ≡ none)
unfolding int_of
ints = (refl, refl)

-- The methods of `SteamNetworkBackend`.
abbrev methods : List String
methods = "get_owned_games" ∷ "get_subscriptions" ∷ []

abbrev of_galaxy : List String
of_galaxy = "ImportFriends" ∷ "LaunchGame" ∷ []

attributes :
    (getattr methods ("shutdown" ∷ []) "prepare_game_times_context" ≡ not_implemented)
    × (getattr methods ("shutdown" ∷ []) "shutdown" ≡ inherited)
    × (getattr methods ("_tick" ∷ []) "_tick" ≡ attribute_error)
unfolding getattr
attributes = (refl, refl, refl)

-- Version 2 is stored once.
versions :
    store_current_version "v" (codes "2") (store_current_version "v" (codes "2") ([], 0))
    ≡ (("v", codes "2") ∷ [], 1)
unfolding store_current_version
versions = refl

witcher : steam_command true (codes "launch") (codes "499450") ≡ codes "steam://launch/292030"
unfolding steam_command
witcher = refl
