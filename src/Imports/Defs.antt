-- ===== src/Imports/Defs.antt =====
-- `StatsCache` of src/steam_network/stats_cache.py and `TimesCache` of
-- src/steam_network/times_cache.py, on `ProtoCache`. Games are numbers.
use galaxy_integration_steam.Prelude.{
  ℕ, Bool, false, not, List, [], ◌∷◌, Option, none, some, if◌then◌else◌,
}
use galaxy_integration_steam.Prelude.Keys.{nat_eq, contains, list_remove}
use galaxy_integration_steam.Prelude.Dict.{Dict, put}
use galaxy_integration_steam.Friends.Defs.{is_empty}

-- The statistics and the achievements of a game, where its entry has them.
pub record GameStats (S A : Type 0) : Type 0 where
  pub stats : Option S
  pub achievements : Option A

pub record StatsCache (S A : Type 0) : Type 0 where
  pub info : Dict ℕ (GameStats S A)
  pub games_to_import : List ℕ
  pub ready : Bool

module _ {S A : Type 0} where
  abbrev pub no_stats : GameStats S A
  no_stats = record { stats = none; achievements = none }

  unfoldable pub update_ready_state : StatsCache S A → StatsCache S A
  update_ready_state c = record c { ready = is_empty c.games_to_import }

  -- `for game_id in game_ids: self._info_map[game_id] = dict()`
  abbrev pub forget_all : List ℕ → Dict ℕ (GameStats S A) → Dict ℕ (GameStats S A)
  forget_all [] d = d
  forget_all (i ∷ is) d = forget_all is (put i no_stats d)

  unfoldable pub start_game_stats_import : List ℕ → StatsCache S A → StatsCache S A
  start_game_stats_import ids c =
      update_ready_state (record c { info = forget_all ids c.info; games_to_import = ids })

  -- Reading the property sets the event anew.
  unfoldable pub import_in_progress : StatsCache S A → StatsCache S A × Bool
  import_in_progress c = let c' = update_ready_state c in (c', not c'.ready)

  -- `_check_remove`, once both parts of the entry are there; `none` is the `ValueError` of removing a
  -- game that is not in the list.
  unfoldable pub check_remove : ℕ → StatsCache S A → Option (StatsCache S A)
  check_remove i c =
      if contains i c.games_to_import
      then some (record c { games_to_import = list_remove i c.games_to_import })
      else none

  unfoldable pub update_stats : ℕ → S → A → StatsCache S A → Option (StatsCache S A)
  update_stats i s a c =
      let stored = record c {
        info = put i record { stats = some s; achievements = some a } c.info;
      } in
      elim (check_remove i stored) [ none ↦ none | some d ↦ some (update_ready_state d) ]

pub record GameTime : Type 0 where
  pub time_played : ℕ
  pub last_played : Option ℕ

pub record TimesCache : Type 0 where
  pub times : Dict ℕ GameTime
  pub times_imported : Bool
  pub times_ready : Bool

unfoldable pub update_times_ready_state : TimesCache → TimesCache
update_times_ready_state c = record c { times_ready = c.times_imported }

unfoldable pub start_game_times_import : TimesCache → TimesCache
start_game_times_import c =
    update_times_ready_state (record c { times = []; times_imported = false })

unfoldable pub times_import_finished : Bool → TimesCache → TimesCache
times_import_finished finished c = update_times_ready_state (record c { times_imported = finished })

unfoldable pub update_time : ℕ → ℕ → Option ℕ → TimesCache → TimesCache
update_time i played last c = record c {
  times = put i record { time_played = played; last_played = last } c.times;
}
