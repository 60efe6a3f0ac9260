-- ===== src/Backend/Reached.antt =====
-- A tick leads to Galaxy being told all the games that the cache has added.
use mathlib.Core.Path.{subst}
use galaxy_integration_steam.Prelude.{
  ℕ, zero, suc, ◌+◌, ◌%◌, ◌<◌, ◌≤◌, ◌≡◌, ◌∙◌, refl, ap, sym, true, ◌&&◌, List, [], ◌∷◌, ◌++◌, arith,
  if◌then◌else◌, if_intro, ◌==◌, length, append-nil,
}
use galaxy_integration_steam.Games.Defs.{App, GamesCache, consume_added_games}
use galaxy_integration_steam.Backend.Defs.{
  Json, Task, done, created, sleeping, Backend, add_games, update_owned_games, resume, tick, Event,
  ticking, resuming, step, run, tell_games, is_done,
}
use galaxy_integration_steam.Backend.Told.{games_of, coming, promised, all_added, promised-run}

abbrev pub resumings : ℕ → List Event
resumings zero = []
resumings (suc n) = resuming ∷ resumings n

-- The task has started, and so many resumings are enough for it.
abbrev IsUnderWay : ℕ → Task → Type 0
IsUnderWay n done = Unit {0}
IsUnderWay n created = ⊥
IsUnderWay n (sleeping i games) = length games < n

module _ {J : Type 0} (json : Json J) where
  add_games-IsUnderWay :
      (n i : ℕ) (games : List App) (b : Backend J)
      → length games ≤ n
      → IsUnderWay n (add_games json i games b).task × ((add_games json i games b).games ≡ b.games)
  unfolding add_games
  add_games-IsUnderWay n i [] b h = (tt, refl)
  add_games-IsUnderWay n i (g ∷ gs) b h =
      if_intro (λ (x : Backend J). IsUnderWay n x.task × (x.games ≡ b.games)) (i % 50 == 49)
        (λ _. (omega (arith, h), refl))
        (λ _.
          add_games-IsUnderWay n (i + 1) gs (record b { games_told = b.games_told ++ g ∷ [] })
            (omega (arith, h)))

  tell_games-IsUnderWay :
      (n : ℕ) (games : List App) (b : Backend J)
      → length games ≤ n
      → IsUnderWay n (tell_games json games b).task × ((tell_games json games b).games ≡ b.games)
  tell_games-IsUnderWay n [] b h = (tt, refl)
  tell_games-IsUnderWay n (g ∷ gs) b h = add_games-IsUnderWay n 0 (g ∷ gs) _ h

  resume-IsUnderWay :
      (n : ℕ) (t : Task) (b : Backend J)
      → b.task ≡ t
      → IsUnderWay (suc n) t
      → IsUnderWay n (resume json t b).task × ((resume json t b).games ≡ b.games)
  unfolding resume
  resume-IsUnderWay n done b p h = (subst (IsUnderWay n) (sym p) tt, refl)
  resume-IsUnderWay n created b p h = absurd h
  resume-IsUnderWay n (sleeping i games) b p h = add_games-IsUnderWay n i games b (omega (arith, h))

  run-resumings :
      (n : ℕ) (t : Task) (b : Backend J)
      → b.task ≡ t
      → IsUnderWay n t
      → ((run json (resumings n) b).task ≡ done)
        × ((run json (resumings n) b).games ≡ b.games)
        × (all_added json (resumings n) b ≡ [])
  unfolding run step
  run-resumings zero done b p h = (p, refl, refl)
  run-resumings zero created b p h = absurd h
  run-resumings zero (sleeping i games) b p h = absurd (omega (arith, h))
  run-resumings (suc n) t b p h =
      let c = resume json b.task b in
      let (under_way, kept) =
        resume-IsUnderWay n b.task b refl (subst (IsUnderWay (suc n)) (sym p) h) in
      let (ended, kept_later, none_added) = run-resumings n c.task c refl under_way in
      (ended, kept_later ∙ kept, none_added)

  created-IsUnderWay :
      (n : ℕ) (b : Backend J)
      → length (games_of b.games.apps_added) ≤ n
      → IsUnderWay n (resume json created b).task
        × ((resume json created b).games ≡ (consume_added_games b.games).0)
  unfolding resume update_owned_games consume_added_games
  created-IsUnderWay n b h = tell_games-IsUnderWay n (games_of b.games.apps_added) _ h

  nothing_left :
      (b : Backend J) → b.task ≡ done → b.games.apps_added ≡ [] → promised b ≡ b.games_told
  nothing_left b p q =
      ap (λ t. b.games_told ++ (coming t ++ games_of b.games.apps_added)) p
      ∙ ap (λ as'. b.games_told ++ games_of as') q
      ∙ append-nil b.games_told

  -- Once the owned games are imported and the last task has ended, a tick starts a task that tells Galaxy
  -- all the games that the cache has added by its start, in their order, and that ends; the event loop
  -- resumes it once, and once more for each game at most.
  pub run-tick-tells :
      (n : ℕ) (b : Backend J)
      → b.task ≡ done
      → b.owned_games_parsed ≡ true
      → length (games_of b.games.apps_added) ≤ n
      → ((run json (ticking ∷ resumings (suc n)) b).games_told
          ≡ b.games_told ++ games_of b.games.apps_added)
        × ((run json (ticking ∷ resumings (suc n)) b).task ≡ done)
  unfolding run step tick consume_added_games
  run-tick-tells n b ended parsed h =
      let t = tick json b in
      let starts : (if is_done b.task && b.owned_games_parsed then created else b.task) ≡ created =
        rw ended rw parsed refl in
      let c = resume json t.task t in
      let (under_way, kept) =
        subst
          (λ x.
            IsUnderWay n (resume json x t).task
            × ((resume json x t).games ≡ (consume_added_games t.games).0))
          (sym starts) (created-IsUnderWay n t h) in
      let (ends, kept_later, none_added) = run-resumings n c.task c refl under_way in
      (
        sym (
              nothing_left (run json (resumings n) c) ends
                (ap (λ (g : GamesCache). g.apps_added) (kept_later ∙ kept)))
            ∙ promised-run json (ticking ∷ resumings (suc n)) b
            ∙ ap (λ xs. promised b ++ xs) none_added
            ∙ append-nil (promised b)
            ∙ ap (λ x. b.games_told ++ (coming x ++ games_of b.games.apps_added)) ended,
        ends,
      )
