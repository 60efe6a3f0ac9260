-- ===== src/Plugin/Mirror.antt =====
-- What Galaxy is told of the local games, whatever the tasks do between each other.
use galaxy_integration_steam.Prelude.{
  ◌≤◌, ◌≡◌, refl, true, false, List, [], ◌∷◌, Option, none, some, arith, if◌then◌else◌, if_intro,
  ◌&&◌, ltb,
}
use galaxy_integration_steam.Prelude.Keys.{Eq, nat_eq}
use galaxy_integration_steam.Prelude.Text.{Text, list_eq}
use galaxy_integration_steam.Prelude.Dict.{Dict, get}
use galaxy_integration_steam.UserInfo.Defs.{is_some}
use galaxy_integration_steam.Local.Defs.{
  LocalGameStates, LocalGame, state_dict, put_all, get_state_changes,
}
use galaxy_integration_steam.Local.Changes.{shown, shown-get_state_changes}
use galaxy_integration_steam.Plugin.Defs.{
  Stat, Phase, waiting, cooling, done, Plugin, is_cooling, get_local_games, update_local_games,
  push_cache, or_empty, Event, tick, games_asked, games_read, update_woken, first_push_done,
  push_runs, push_woken, cache_written, is_waiting, is_done, start_update, start_push, step, run,
  new_plugin,
}

module _ {S : Type 0} ⦃e : Eq S⦄ (F : LocalGameStates S) where
  -- Without a list no update has been started; with one, Galaxy shows its games.
  abbrev pub Mirrors : Option (List (LocalGame S)) → Dict Text S → Phase → Type 0
  Mirrors none galaxy phase = is_waiting phase ≡ false
  Mirrors (some l) galaxy phase =
      (i : Text) → shown F (get i galaxy) ≡ shown F (get i (state_dict l))

  abbrev pub IsMirrored : Plugin S → Type 0
  IsMirrored p = Mirrors p.local_games_cache p.galaxy p.update_task

  -- At most one update of the games is under way, and none if the attribute's task is done.
  abbrev pub HasOneUpdate : Plugin S → Type 0
  HasOneUpdate p = p.updates ≤ (if is_done p.update_task then 0 else 1)

  start_push-IsMirrored : (p : Plugin S) → IsMirrored p → IsMirrored (start_push p)
  unfolding start_push
  start_push-IsMirrored p h = if_intro IsMirrored _ (λ _. h) (λ _. h)

  Mirrors-phase :
      (o : Option (List (LocalGame S))) (galaxy : Dict Text S) (phase : Phase)
      → is_some o ≡ true
      → Mirrors o galaxy phase
      → Mirrors o galaxy waiting
  Mirrors-phase none galaxy phase some_list h = ground (arith, some_list)
  Mirrors-phase (some l) galaxy phase some_list h = h

  Mirrors-rested :
      (o : Option (List (LocalGame S))) (galaxy : Dict Text S) (phase : Phase)
      → Mirrors o galaxy phase
      → Mirrors o galaxy done
  Mirrors-rested none galaxy phase h = refl
  Mirrors-rested (some l) galaxy phase h = h

  start_update-IsMirrored :
      (file : Option Stat) (p : Plugin S) → IsMirrored p → IsMirrored (start_update file p)
  unfolding start_update
  start_update-IsMirrored file p h =
      if_intro IsMirrored (is_some p.local_games_cache && is_done p.update_task)
        (λ ready.
          if_intro IsMirrored _
            (λ _.
              Mirrors-phase p.local_games_cache p.galaxy p.update_task (ground (arith, ready)) h)
            (λ _. h))
        (λ _. h)

  update-IsMirrored :
      (o : Option (List (LocalGame S))) (galaxy : Dict Text S) (l : List (LocalGame S))
      → Mirrors o galaxy waiting
      → (i : Text)
      → shown F (get i (put_all (get_state_changes F (or_empty o) l) galaxy))
        ≡ shown F (get i (state_dict l))
  update-IsMirrored none galaxy l h i = ground (arith, h)
  update-IsMirrored (some old) galaxy l h i = shown-get_state_changes F old l galaxy h i

  step-IsMirrored : (x : Event S) (p : Plugin S) → IsMirrored p → IsMirrored (step F x p)
  unfolding step get_local_games update_local_games push_cache
  step-IsMirrored (tick file) p h =
      start_push-IsMirrored (start_update file p) (start_update-IsMirrored file p h)
  step-IsMirrored (games_asked l) p h = λ i. refl
  step-IsMirrored (games_read now l) p h =
      if_intro IsMirrored (is_waiting p.update_task)
        (λ is_there.
          update-IsMirrored p.local_games_cache p.galaxy l (at_waiting p.update_task is_there h))
        (λ _. h)
    where
      at_waiting :
          (phase : Phase)
          → is_waiting phase ≡ true
          → Mirrors p.local_games_cache p.galaxy phase
          → Mirrors p.local_games_cache p.galaxy waiting
      at_waiting waiting q m = m
      at_waiting cooling q m = ground (arith, q)
      at_waiting done q m = ground (arith, q)
  step-IsMirrored update_woken p h =
      if_intro IsMirrored (is_cooling p.update_task)
        (λ _. Mirrors-rested p.local_games_cache p.galaxy p.update_task h) (λ _. h)
  step-IsMirrored first_push_done p h = h
  step-IsMirrored push_runs p h = if_intro IsMirrored (ltb 0 p.pushes_waiting) (λ _. h) (λ _. h)
  step-IsMirrored push_woken p h = h
  step-IsMirrored cache_written p h = h

  step-HasOneUpdate : (x : Event S) (p : Plugin S) → HasOneUpdate p → HasOneUpdate (step F x p)
  unfolding step get_local_games update_local_games push_cache start_push start_update
  step-HasOneUpdate (tick file) p h = ground (arith, h)
  step-HasOneUpdate (games_asked l) p h = h
  step-HasOneUpdate (games_read now l) p h = ground (arith, h)
  step-HasOneUpdate update_woken p h = ground (arith, h)
  step-HasOneUpdate first_push_done p h = h
  step-HasOneUpdate push_runs p h = ground (arith, h)
  step-HasOneUpdate push_woken p h = h
  step-HasOneUpdate cache_written p h = h

  run-keeps :
      (xs : List (Event S)) (p : Plugin S)
      → IsMirrored p × HasOneUpdate p
      → IsMirrored (run F xs p) × HasOneUpdate (run F xs p)
  unfolding run
  run-keeps [] p h = h
  run-keeps (x ∷ xs) p h =
      run-keeps xs (step F x p) (step-IsMirrored x p h.0, step-HasOneUpdate x p h.1)

  -- From the start of the plugin, in whatever order its ticks, its tasks and the requests of Galaxy
  -- come: once there is a list of games, Galaxy shows every game in the state that the last list gave
  -- it (not installed, if it was not in the list), and never more than one update is under way.
  pub run-IsMirrored :
      (xs : List (Event S)) (file : Option Stat)
      → IsMirrored (run F xs (new_plugin file)) × HasOneUpdate (run F xs (new_plugin file))
  unfolding new_plugin
  run-IsMirrored xs file = run-keeps xs (new_plugin file) (refl, omega arith)
