-- ===== src/Backend/Told.antt =====
-- Galaxy is told each game that the cache adds, in order.
use galaxy_integration_steam.Prelude.{
  ℕ, ◌+◌, ◌%◌, ◌≡◌, ◌∙◌, refl, ap, sym, ◌&&◌, not, List, [], ◌∷◌, ◌++◌, Option, none, some, arith,
  String, if◌then◌else◌, if_intro, ◌==◌, any, filter, append_assoc, append-nil,
}
use galaxy_integration_steam.Prelude.Keys.{◌=?◌, string_eq}
use galaxy_integration_steam.Games.Defs.{
  App, GamesCache, consume_added_games, update_app_title, update_ready_state, get_owned_games,
  consume_resolved_apps, same_app,
}
use galaxy_integration_steam.Backend.Defs.{
  Json, Task, done, created, sleeping, Backend, add_games, update_owned_games, resume, tick, Event,
  ticking, resuming, importing, titled, writing, step, run, or_same, tell_games, is_done,
}

abbrev pub games_of : List App → List App
games_of = filter (λ a. a.type_ =? "game")

abbrev pub coming : Task → List App
coming done = []
coming created = []
coming (sleeping i games) = games

-- The games that Galaxy has been told, with those that it will be.
abbrev pub promised : {J : Type 0} → Backend J → List App
promised b = b.games_told ++ (coming b.task ++ games_of b.games.apps_added)

-- What an app's title adds: the app, once the owned games are imported, unless it has been sent.
abbrev pub added_app : App → GamesCache → Option GamesCache → List App
added_app app c none = []
added_app app c (some _) =
    if c.add_game_lever && not (any (same_app app) c.sent_apps) then app ∷ [] else []

abbrev pub added : {J : Type 0} → Event → Backend J → List App
added (titled appid title type_ parent) b =
    added_app (record { appid = appid; title = title; type_ = type_; parent = parent }) b.games
      (update_app_title appid title type_ parent b.games)
added _ b = []

games_of-append : (xs ys : List App) → games_of (xs ++ ys) ≡ games_of xs ++ games_of ys
games_of-append [] ys = refl
games_of-append (x ∷ xs) ys = ground (arith, games_of-append xs ys)

apps_added-titled :
    {J : Type 0} (appid : ℕ) (title type_ : String) (parent : Option ℕ) (b : Backend J)
    → (or_same b (update_app_title appid title type_ parent b.games)).games.apps_added
      ≡ b.games.apps_added ++ added (titled appid title type_ parent) b
unfolding update_app_title update_ready_state
apps_added-titled appid title type_ parent b = ground (arith, append-nil b.games.apps_added)

promised-or_same :
    {J : Type 0} (b : Backend J) (o : Option GamesCache) (ys : List App)
    → (or_same b o).games.apps_added ≡ b.games.apps_added ++ ys
    → promised (or_same b o) ≡ promised b ++ games_of ys
promised-or_same b o ys h =
    kept o
    ∙ ap (λ zs. b.games_told ++ (coming b.task ++ games_of zs)) h
    ∙ ap (λ zs. b.games_told ++ (coming b.task ++ zs)) (games_of-append b.games.apps_added ys)
    ∙ sym (
        append_assoc b.games_told (coming b.task ++ games_of b.games.apps_added) (games_of ys)
        ∙ ap (λ zs. b.games_told ++ zs)
            (append_assoc (coming b.task) (games_of b.games.apps_added) (games_of ys)))
  where
    kept :
        (o : Option GamesCache)
        → promised (or_same b o)
          ≡ b.games_told ++ (coming b.task ++ games_of (or_same b o).games.apps_added)
    kept none = refl
    kept (some c) = refl

module _ {J : Type 0} (json : Json J) where
  promised-add_games :
      (i : ℕ) (games : List App) (b : Backend J)
      → promised (add_games json i games b) ≡ b.games_told ++ (games ++ games_of b.games.apps_added)
  unfolding add_games
  promised-add_games i [] b = refl
  promised-add_games i (g ∷ gs) b =
      if_intro
        (λ (x : Backend J). promised x ≡ b.games_told ++ (g ∷ gs ++ games_of b.games.apps_added))
        (i % 50 == 49) (λ _. append_assoc b.games_told (g ∷ []) (gs ++ games_of b.games.apps_added))
        (λ _.
          promised-add_games (i + 1) gs (record b { games_told = b.games_told ++ g ∷ [] })
          ∙ append_assoc b.games_told (g ∷ []) (gs ++ games_of b.games.apps_added))

  promised-tell_games :
      (games : List App) (b : Backend J)
      → promised (tell_games json games b) ≡ b.games_told ++ (games ++ games_of b.games.apps_added)
  promised-tell_games [] b = refl
  promised-tell_games (g ∷ gs) b = promised-add_games 0 (g ∷ gs) _

  promised-resume :
      (t : Task) (b : Backend J) → b.task ≡ t → promised (resume json t b) ≡ promised b
  unfolding resume update_owned_games consume_added_games
  promised-resume done b p = refl
  promised-resume created b p =
      promised-tell_games (games_of b.games.apps_added) _
      ∙ ap (λ ys. b.games_told ++ ys) (append-nil (games_of b.games.apps_added))
      ∙ ap (λ t. b.games_told ++ (coming t ++ games_of b.games.apps_added)) (sym p)
  promised-resume (sleeping i games) b p =
      promised-add_games i games b
      ∙ ap (λ t. b.games_told ++ (coming t ++ games_of b.games.apps_added)) (sym p)

  promised-tick : (b : Backend J) → promised (tick json b) ≡ promised b
  unfolding tick
  promised-tick b = ticked b.task
    where
      ticked :
          (t : Task)
          → b.games_told
              ++ (coming (if is_done t && b.owned_games_parsed then created else t)
                  ++ games_of b.games.apps_added)
            ≡ b.games_told ++ (coming t ++ games_of b.games.apps_added)
      ticked done = ground arith
      ticked created = refl
      ticked (sleeping i games) = refl

  promised-step :
      (e : Event) (b : Backend J) → promised (step json e b) ≡ promised b ++ games_of (added e b)
  unfolding step get_owned_games consume_resolved_apps
  promised-step ticking b = promised-tick b ∙ sym (append-nil (promised b))
  promised-step resuming b = promised-resume b.task b refl ∙ sym (append-nil (promised b))
  promised-step importing b = sym (append-nil (promised b))
  promised-step (titled appid title type_ parent) b =
      promised-or_same b (update_app_title appid title type_ parent b.games) _
        (apps_added-titled appid title type_ parent b)
  promised-step (writing user_info) b = sym (append-nil (promised b))

  -- The games that the events add, in their order.
  abbrev pub all_added : List Event → Backend J → List App
  all_added [] b = []
  all_added (e ∷ es) b = games_of (added e b) ++ all_added es (step json e b)

  -- Whatever ticks, titles of apps, imports of owned games and logins there are, and however the task of
  -- the ticks is interleaved with them: what Galaxy has been told, with what the task and the cache still
  -- hold, is what it was before, followed by the games that their titles add, in their order.
  pub promised-run :
      (es : List Event) (b : Backend J) → promised (run json es b) ≡ promised b ++ all_added es b
  unfolding run
  promised-run [] b = sym (append-nil (promised b))
  promised-run (e ∷ es) b =
      promised-run es (step json e b)
      ∙ ap (λ xs. xs ++ all_added es (step json e b)) (promised-step e b)
      ∙ append_assoc (promised b) (games_of (added e b)) (all_added es (step json e b))
