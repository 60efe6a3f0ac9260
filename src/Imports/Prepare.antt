-- ===== src/Imports/Prepare.antt =====
-- `prepare_achievements_context` and `prepare_game_times_context` of src/backend_steam_network.py, with the
-- calls of src/steam_network/websocket_client.py and src/steam_network/protocol_client.py that they make.
-- Each then waits for its cache, for ten minutes at most.
use galaxy_integration_steam.Prelude.{ℕ, List, [], ◌∷◌, Option, none, some, if◌then◌else◌, map}
use galaxy_integration_steam.Prelude.Keys.{nat_eq}
use galaxy_integration_steam.Imports.Defs.{
  StatsCache, TimesCache, start_game_stats_import, import_in_progress, start_game_times_import,
  update_times_ready_state,
}
use galaxy_integration_steam.Imports.Jobs.{import_game_stats, import_game_times, Client, add_jobs}

-- The caches of an import and the queue of jobs.
pub record Importer (S A : Type 0) : Type 0 where
  pub steam_id : Option ℕ
  pub stats : StatsCache S A
  pub times : TimesCache
  pub client : Client

-- `AuthenticationRequired`, or the wait that follows
pub data Prepared : Type 0 where
  authentication_required waits : Prepared

module _ {S A : Type 0} where
  -- `refresh_game_stats`
  unfoldable pub refresh_game_stats : List ℕ → Importer S A → Importer S A
  refresh_game_stats game_ids p = record p {
    stats = start_game_stats_import game_ids p.stats;
    client = add_jobs (map import_game_stats game_ids) p.client;
  }

  -- `refresh_game_times`
  unfoldable pub refresh_game_times : Importer S A → Importer S A
  refresh_game_times p = record p {
    times = start_game_times_import p.times;
    client = add_jobs (import_game_times ∷ []) p.client;
  }

  abbrev pub prepare_stats : Option ℕ → List ℕ → Importer S A → Importer S A × Prepared
  prepare_stats none game_ids p = (p, authentication_required)
  prepare_stats (some me) game_ids p =
      let (stats, busy) = import_in_progress p.stats in
      let checked : Importer S A = record p { stats = stats } in
      (if busy then checked else refresh_game_stats game_ids checked, waits)

  unfoldable pub prepare_achievements_context : List ℕ → Importer S A → Importer S A × Prepared
  unfolding refresh_game_stats import_in_progress
  prepare_achievements_context game_ids p = prepare_stats p.steam_id game_ids p

  abbrev pub prepare_times : Option ℕ → Importer S A → Importer S A × Prepared
  prepare_times none p = (p, authentication_required)
  prepare_times (some me) p =
      let times = update_times_ready_state p.times in
      let checked : Importer S A = record p { times = times } in
      (if times.times_ready then refresh_game_times checked else checked, waits)

  unfoldable pub prepare_game_times_context : Importer S A → Importer S A × Prepared
  unfolding refresh_game_times
  prepare_game_times_context p = prepare_times p.steam_id p
