-- ===== src/Plugin/Defs.antt =====
-- `SteamPlugin` of src/plugin.py with `FileRegistryMonitor` of src/registry_monitor.py: the tasks that
-- `tick` starts, as a machine whose events are what the event loop can do next.
use galaxy_integration_steam.Prelude.{
  ℕ, suc, ◌-◌, Bool, true, false, not, ◌&&◌, List, [], ◌∷◌, Option, none, some, ltb, if◌then◌else◌,
  ◌==◌,
}
use galaxy_integration_steam.Prelude.Keys.{Eq, nat_eq}
use galaxy_integration_steam.Prelude.Text.{Text, list_eq}
use galaxy_integration_steam.Prelude.Dict.{Dict}
use galaxy_integration_steam.UserInfo.Defs.{is_some}
use galaxy_integration_steam.Local.Defs.{
  LocalGameStates, LocalGame, put_all, state_dict, get_state_changes,
}

-- FileRegistryMonitor._get_stat: the size and the time of the file, (0, 0) if it cannot be read.
pub record Stat : Type 0 where
  pub size : ℕ
  pub mtime : ℕ

abbrev pub get_stat : Option Stat → Stat
get_stat none = record { size = 0; mtime = 0 }
get_stat (some s) = s

abbrev pub stats_differ : Stat → Stat → Bool
stats_differ s t = not (s.size == t.size && s.mtime == t.mtime)

-- FileRegistryMonitor.is_updated: whether the file has changed, and the stat that is kept.
unfoldable pub is_updated : Option Stat → Stat → Bool × Stat
is_updated file kept = let current = get_stat file in (stats_differ kept current, current)

-- A task that has not run yet, one in its last `asyncio.sleep`, and one that is done.
pub data Phase : Type 0 where
  waiting cooling done : Phase

abbrev pub is_done : Phase → Bool
is_done done = true
is_done _ = false

abbrev pub is_waiting : Phase → Bool
is_waiting waiting = true
is_waiting _ = false

abbrev pub is_cooling : Phase → Bool
is_cooling cooling = true
is_cooling _ = false

-- `update_task` and `push_task` are the attributes `_update_local_games_task` and
-- `_pushing_cache_task`; `updates`, `pushes_waiting` and `pushes_cooling` count the tasks of the two
-- coroutines that have been created and are not done. `galaxy` is what Galaxy has been told.
pub record Plugin (S : Type 0) : Type 0 where
  pub local_games_cache : Option (List (LocalGame S))
  pub last_launch : ℕ
  pub regmon : Stat
  pub update_task : Phase
  pub updates : ℕ
  pub push_task : Phase
  pub pushes_waiting : ℕ
  pub pushes_cooling : ℕ
  pub modified : Bool
  pub pushed : ℕ
  pub galaxy : Dict Text S

-- Seconds of `time.time()`; the lists are what `local_games_list` returns in the executor.
pub data Event (S : Type 0) : Type 0 where
  tick : Option Stat → Event S
  games_asked : List (LocalGame S) → Event S
  games_read : ℕ → List (LocalGame S) → Event S
  update_woken : Event S
  first_push_done : Event S
  push_runs : Event S
  push_woken : Event S
  cache_written : Event S

module _ {S : Type 0} where
  -- The two halves of `tick`, after the tick of the backend.
  unfoldable pub start_update : Option Stat → Plugin S → Plugin S
  unfolding is_updated
  start_update file p =
      if is_some p.local_games_cache && is_done p.update_task
      then (let seen = record p { regmon = (is_updated file p.regmon).1 } in
          if (is_updated file p.regmon).0
          then record seen { update_task = waiting; updates = suc p.updates }
          else seen)
      else p

  -- The new task goes to another attribute, `_pushing_cache`.
  unfoldable pub start_push : Plugin S → Plugin S
  start_push p =
      if is_done p.push_task && p.modified
      then record p { pushes_waiting = suc p.pushes_waiting }
      else p

  unfoldable pub get_local_games : List (LocalGame S) → Plugin S → Plugin S
  get_local_games l p = record p { local_games_cache = some l; galaxy = state_dict l }

  -- `_push_cache` up to its sleep.
  unfoldable pub push_cache : Plugin S → Plugin S
  push_cache p = record p {
    pushed = suc p.pushed;
    modified = false;
    pushes_waiting = p.pushes_waiting - 1;
    pushes_cooling = suc p.pushes_cooling;
  }

  abbrev pub or_empty : Option (List (LocalGame S)) → List (LocalGame S)
  or_empty none = []
  or_empty (some l) = l

module _ {S : Type 0} ⦃e : Eq S⦄ (F : LocalGameStates S) where
  -- The loop over the changes: when a running game is reported its launch is noted.
  abbrev pub launched : ℕ → List (LocalGame S) → ℕ → ℕ
  launched now [] last = last
  launched now (g ∷ l) last =
      launched now l (if F.includes g.local_game_state F.running then now else last)

  -- `_update_local_games` once the list is there, up to its sleep. `tick` starts it only when there is
  -- a list already.
  unfoldable pub update_local_games : ℕ → List (LocalGame S) → Plugin S → Plugin S
  update_local_games now new_list p =
      let notify_list = get_state_changes F (or_empty p.local_games_cache) new_list in
      record p {
        local_games_cache = some new_list;
        last_launch = launched now notify_list p.last_launch;
        galaxy = put_all notify_list p.galaxy;
        update_task = cooling;
      }

  -- An event that cannot happen in the state, such as the end of a sleep of no task, changes nothing.
  unfoldable pub step : Event S → Plugin S → Plugin S
  unfolding start_update start_push get_local_games update_local_games push_cache
  step (tick file) p = start_push (start_update file p)
  step (games_asked l) p = get_local_games l p
  step (games_read now l) p = if is_waiting p.update_task then update_local_games now l p else p
  step update_woken p =
      if is_cooling p.update_task
      then record p { update_task = done; updates = p.updates - 1 }
      else p
  step first_push_done p = record p { push_task = done }
  step push_runs p = if ltb 0 p.pushes_waiting then push_cache p else p
  step push_woken p = record p { pushes_cooling = p.pushes_cooling - 1 }
  step cache_written p = record p { modified = true }

  unfoldable pub run : List (Event S) → Plugin S → Plugin S
  unfolding step
  run [] p = p
  run (x ∷ xs) p = run xs (step x p)

-- SteamPlugin.__init__. Both attributes hold an `asyncio.sleep(0)`.
unfoldable pub new_plugin : {S : Type 0} → Option Stat → Plugin S
new_plugin file = record {
  local_games_cache = none;
  last_launch = 0;
  regmon = get_stat file;
  update_task = cooling;
  updates = 0;
  push_task = cooling;
  pushes_waiting = 0;
  pushes_cooling = 0;
  modified = false;
  pushed = 0;
  galaxy = [];
}
