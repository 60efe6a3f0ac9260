-- ===== src/Backend/Sent.antt =====
-- What Galaxy is told is noted as sent.
use mathlib.Core.Path.{subst}
use galaxy_integration_steam.Prelude.{
  ℕ, ◌+◌, ◌%◌, ◌≡◌, ◌∙◌, refl, ap, sym, true, ◌&&◌, List, [], ◌∷◌, ◌++◌, Option, none, some, arith,
  String, if◌then◌else◌, if_intro, ◌==◌, any, append_assoc, append-nil, All, All-append,
}
use galaxy_integration_steam.Prelude.Keys.{◌=?◌, nat_eq, string_eq}
use galaxy_integration_steam.Games.Defs.{
  App, GamesCache, consume_added_games, update_app_title, update_ready_state, get_owned_games,
  consume_resolved_apps, same_app, same_parent,
}
use galaxy_integration_steam.Backend.Defs.{
  Json, Task, done, created, sleeping, Backend, add_games, update_owned_games, resume, tick, Event,
  ticking, resuming, importing, titled, writing, step, run, or_same, tell_games, is_done,
}
use galaxy_integration_steam.Backend.Told.{games_of, coming, promised, all_added, promised-run}

same_parent_refl : (o : Option ℕ) → same_parent o o ≡ true
unfolding same_parent
same_parent_refl none = refl
same_parent_refl (some a) = ground arith

same_app_refl : (a : App) → same_app a a ≡ true
unfolding same_app
same_app_refl a = ground (
  arith,
  same_parent_refl a.parent,
  string_eq.beq_iff a.title a.title,
  string_eq.beq_iff a.type_ a.type_,
)

-- The app is among those that are noted.
abbrev pub IsIn : List App → App → Type 0
IsIn xs a = any (same_app a) xs ≡ true

IsIn-append : (xs ys : List App) (a : App) → IsIn xs a → IsIn (xs ++ ys) a
IsIn-append [] ys a h = ground (arith, h)
IsIn-append (x ∷ xs) ys a h = ground (arith, IsIn-append xs ys a, h)

IsIn-later : (xs ys : List App) (a : App) → IsIn ys a → IsIn (xs ++ ys) a
IsIn-later [] ys a h = h
IsIn-later (x ∷ xs) ys a h = ground (arith, IsIn-later xs ys a h)

All-more : (xs ys l : List App) → All (IsIn xs) l → All (IsIn (xs ++ ys)) l
All-more xs ys [] h = tt
All-more xs ys (a ∷ l) h = (IsIn-append xs ys a h.0, All-more xs ys l h.1)

All-games_of : (xs ys : List App) → All (IsIn (xs ++ ys)) (games_of ys)
All-games_of xs [] = tt
All-games_of xs (y ∷ ys) =
    let later =
      subst (λ l. All (IsIn l) (games_of ys)) (append_assoc xs (y ∷ []) ys)
        (All-games_of (xs ++ y ∷ []) ys) in
    if_intro (All (IsIn (xs ++ y ∷ ys))) (y.type_ =? "game")
      (λ _. (IsIn-later xs (y ∷ ys) y (ground (arith, same_app_refl y)), later)) (λ _. later)

-- What Galaxy has been told, and the task is telling it, is noted.
abbrev pub IsNoted : {J : Type 0} → Backend J → Type 0
IsNoted b = All (IsIn b.games.sent_apps) (b.games_told ++ coming b.task)

same_sent :
    (appid : ℕ) (title type_ : String) (parent : Option ℕ) (c d : GamesCache)
    → update_app_title appid title type_ parent c ≡ some d
    → c.sent_apps ≡ d.sent_apps
unfolding update_app_title update_ready_state
same_sent appid title type_ parent c d p = ground (arith, p)

module _ {J : Type 0} (json : Json J) where
  games-add_games :
      (i : ℕ) (games : List App) (b : Backend J)
      → ((add_games json i games b).games ≡ b.games)
        × ((add_games json i games b).games_told ++ coming (add_games json i games b).task
            ≡ b.games_told ++ games)
  unfolding add_games
  games-add_games i [] b = (refl, refl)
  games-add_games i (g ∷ gs) b =
      if_intro
        (λ (x : Backend J).
          (x.games ≡ b.games) × (x.games_told ++ coming x.task ≡ b.games_told ++ (g ∷ gs)))
        (i % 50 == 49) (λ _. (refl, append_assoc b.games_told (g ∷ []) gs))
        (λ _.
          let (same, told) =
            games-add_games (i + 1) gs (record b { games_told = b.games_told ++ g ∷ [] }) in
          (same, told ∙ append_assoc b.games_told (g ∷ []) gs))

  add_games-IsNoted :
      (i : ℕ) (games : List App) (b : Backend J)
      → All (IsIn b.games.sent_apps) (b.games_told ++ games)
      → IsNoted (add_games json i games b)
  add_games-IsNoted i games b h =
      let (same, told) = games-add_games i games b in
      subst (All (IsIn (add_games json i games b).games.sent_apps)) (sym told)
        (subst (λ (c : GamesCache). All (IsIn c.sent_apps) (b.games_told ++ games)) (sym same) h)

  tell_games-IsNoted :
      (games : List App) (b : Backend J)
      → All (IsIn b.games.sent_apps) (b.games_told ++ games)
      → IsNoted (tell_games json games b)
  tell_games-IsNoted [] b h = h
  tell_games-IsNoted (g ∷ gs) b h = add_games-IsNoted 0 (g ∷ gs) _ h

  resume-IsNoted : (t : Task) (b : Backend J) → b.task ≡ t → IsNoted b → IsNoted (resume json t b)
  unfolding resume update_owned_games consume_added_games
  resume-IsNoted done b p h = h
  resume-IsNoted created b p h = tell_games-IsNoted (games_of b.games.apps_added) _ (
      All-append (IsIn (b.games.sent_apps ++ b.games.apps_added)) b.games_told
        (games_of b.games.apps_added)
        (All-more b.games.sent_apps b.games.apps_added b.games_told (
          subst (All (IsIn b.games.sent_apps))
            (ap (λ t. b.games_told ++ coming t) p ∙ append-nil b.games_told) h))
        (All-games_of b.games.sent_apps b.games.apps_added))
  resume-IsNoted (sleeping i games) b p h =
      add_games-IsNoted i games b
        (subst (λ t. All (IsIn b.games.sent_apps) (b.games_told ++ coming t)) p h)

  tick-IsNoted : (b : Backend J) → IsNoted b → IsNoted (tick json b)
  unfolding tick
  tick-IsNoted b h =
      subst (λ l. All (IsIn b.games.sent_apps) (b.games_told ++ l)) (sym (ticked b.task)) h
    where
      ticked :
          (t : Task) → coming (if is_done t && b.owned_games_parsed then created else t) ≡ coming t
      ticked done = ground arith
      ticked created = refl
      ticked (sleeping i games) = refl

  sent_apps-titled :
      (appid : ℕ) (title type_ : String) (parent : Option ℕ) (b : Backend J)
      → IsNoted b
      → IsNoted (or_same b (update_app_title appid title type_ parent b.games))
  sent_apps-titled appid title type_ parent b h =
      after (update_app_title appid title type_ parent b.games) refl
    where
      after :
          (o : Option GamesCache)
          → update_app_title appid title type_ parent b.games ≡ o
          → IsNoted (or_same b o)
      after none p = h
      after (some c) p =
          subst (λ xs. All (IsIn xs) (b.games_told ++ coming b.task))
            (same_sent appid title type_ parent b.games c p) h

  step-IsNoted : (e : Event) (b : Backend J) → IsNoted b → IsNoted (step json e b)
  unfolding step get_owned_games consume_resolved_apps
  step-IsNoted ticking b h = tick-IsNoted b h
  step-IsNoted resuming b h = resume-IsNoted b.task b refl h
  step-IsNoted importing b h = All-more b.games.sent_apps _ (b.games_told ++ coming b.task) h
  step-IsNoted (titled appid title type_ parent) b h = sent_apps-titled appid title type_ parent b h
  step-IsNoted (writing user_info) b h = h

  run-IsNoted : (es : List Event) (b : Backend J) → IsNoted b → IsNoted (run json es b)
  unfolding run
  run-IsNoted [] b h = h
  run-IsNoted (e ∷ es) b h = run-IsNoted es (step json e b) (step-IsNoted e b h)

  -- Whatever ticks, titles of apps, imports of owned games and logins there are, and however the task of
  -- the ticks is interleaved with them: what Galaxy has been told, with what the task and the cache still
  -- hold, is what it was before, followed by the games that their titles add, in their order, so that none
  -- of these is lost or overtaken. And if each game that Galaxy has been told, or that the task still
  -- holds, is noted as sent at first, then this is so ever after; a title adds an app only if it is not
  -- noted. Two titles of an app before the task takes them both add it.
  pub promised-run-IsNoted :
      (es : List Event) (b : Backend J)
      → IsNoted b
      → (promised (run json es b) ≡ promised b ++ all_added json es b) × IsNoted (run json es b)
  promised-run-IsNoted es b h = (promised-run json es b, run-IsNoted es b h)
