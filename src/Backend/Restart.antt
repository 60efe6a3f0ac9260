-- ===== src/Backend/Restart.antt =====
-- What a tick keeps is what the next start of the plugin finds.
use galaxy_integration_steam.Prelude.{
  ℕ, ◌+◌, ◌%◌, ◌≡◌, ◌∙◌, refl, ap, List, [], ◌∷◌, some, if_intro, ◌==◌,
}
use galaxy_integration_steam.Games.Defs.{App, GamesCache, consume_added_games}
use galaxy_integration_steam.Backend.Defs.{
  LicensesCache, Dumped, Json, created, Backend, dump, loads, load_dumped, with_licenses,
  load_persistent_cache, add_games, update_owned_games, resume,
}
use galaxy_integration_steam.Backend.Told.{games_of}

-- What is encoded is decoded.
abbrev pub IsInverse : {J : Type 0} → Json J → Type 0
IsInverse json =
    ((d : Dumped _) → json.loads (json.dumps d) ≡ some d)
    × ((l : LicensesCache) → json.from_json (json.to_json l) ≡ some l)

module _ {J : Type 0} (json : Json J) where
  pub loads-dump :
      (inverse : IsInverse json) (c d : GamesCache)
      → loads json (dump json c) d ≡ some (record d { licenses = c.licenses; apps = c.apps })
  unfolding loads dump
  loads-dump inverse c d =
      ap (λ o. load_dumped json o d) (inverse.0 _) ∙ ap (with_licenses d) (inverse.1 _)

  persistent_games-add_games :
      (i : ℕ) (games : List App) (b : Backend J)
      → (add_games json i games b).persistent_games ≡ b.persistent_games
  unfolding add_games
  persistent_games-add_games i [] b = refl
  persistent_games-add_games i (g ∷ gs) b =
      if_intro (λ (x : Backend J). x.persistent_games ≡ b.persistent_games) (i % 50 == 49)
        (λ _. refl) (λ _. persistent_games-add_games (i + 1) gs _)

  -- When the task of a tick has found new games, the next start, whatever its fresh cache, finds the
  -- licenses and the apps of that moment. What JSON encodes it decodes.
  pub load_persistent_cache-resume :
      (inverse : IsInverse json) (b : Backend J) (game : App) (games : List App) (d : GamesCache)
      → games_of b.games.apps_added ≡ game ∷ games
      → load_persistent_cache json (resume json created b).persistent_games d
        ≡ some (record d { licenses = b.games.licenses; apps = b.games.apps })
  unfolding load_persistent_cache resume update_owned_games consume_added_games
  load_persistent_cache-resume inverse b game games d h = rw h (
      ap (λ o. load_persistent_cache json o d) (persistent_games-add_games 0 (game ∷ games) _)
      ∙ loads-dump inverse _ d)
