-- ===== src/Imports/Completion.antt =====
-- When an import is complete.
use galaxy_integration_steam.Prelude.{
  ℕ, ◌≡◌, ◌∙◌, ap, refl, true, false, List, [], ◌∷◌, arith, Option, none, some,
}
use galaxy_integration_steam.Prelude.Keys.{nat_eq}
use galaxy_integration_steam.Prelude.Dict.{put}
use galaxy_integration_steam.Friends.Defs.{is_empty}
use galaxy_integration_steam.Imports.Defs.{
  StatsCache, start_game_stats_import, update_stats, update_ready_state, check_remove,
  import_in_progress,
}

-- Responses in their order: a game with its statistics and achievements each.
pub record Response (S A : Type 0) : Type 0 where
  pub game : ℕ
  pub stats : S
  pub achievements : A

module _ {S A : Type 0} where
  abbrev pub games : List (Response S A) → List ℕ
  games [] = []
  games (r ∷ rs) = r.game ∷ games rs

  abbrev pub respond : List (Response S A) → StatsCache S A → Option (StatsCache S A)
  respond [] c = some c
  respond (r ∷ rs) c = elim (update_stats r.game r.stats r.achievements c) [
    | none ↦ none
    | some d ↦ respond rs d
  ]

  -- The cache after the response for the first game that it waits for.
  abbrev answered : Response S A → List ℕ → StatsCache S A → StatsCache S A
  answered r rest c = record {
    info = put r.game record { stats = some r.stats; achievements = some r.achievements } c.info;
    games_to_import = rest;
    ready = is_empty rest;
  }

  update_stats-first :
      (r : Response S A) (rest : List ℕ) (c : StatsCache S A)
      → c.games_to_import ≡ r.game ∷ rest
      → update_stats r.game r.stats r.achievements c ≡ some (answered r rest c)
  unfolding update_stats check_remove update_ready_state
  update_stats-first r rest c h = ground (arith, h)

  respond-empties :
      (rs : List (Response S A)) (c : StatsCache S A)
      → c.games_to_import ≡ games rs
      → c.ready ≡ is_empty c.games_to_import
      → (d : StatsCache S A) × (respond rs c ≡ some d) × (d.games_to_import ≡ []) × (d.ready ≡ true)
  respond-empties [] c h ready = (c, refl, h, ready ∙ ap is_empty h)
  respond-empties (r ∷ rs) c h ready =
      let (d, responded, none_left, set) = respond-empties rs (answered r (games rs) c) refl refl in
      (
        d,
        ap
              (λ (o : Option (StatsCache S A)). elim o as (λ _. Option (StatsCache S A)) [
                | none ↦ none
                | some e ↦ respond rs e
              ])
              (update_stats-first r (games rs) c h)
            ∙ responded,
        none_left,
        set,
      )

  -- An import whose games are answered once each in the order asked for is complete, whatever the
  -- cache held before: the event is set, no import is in progress, and any response after it, for
  -- whatever game, raises ValueError.
  pub respond-completes :
      (rs : List (Response S A)) (c : StatsCache S A) (i : ℕ) (s : S) (a : A)
      → (d : StatsCache S A) × (respond rs (start_game_stats_import (games rs) c) ≡ some d)
        × (d.ready ≡ true)
        × ((import_in_progress d).1 ≡ false)
        × (update_stats i s a d ≡ none)
  unfolding start_game_stats_import update_ready_state import_in_progress update_stats check_remove
  respond-completes rs c i s a =
      let (d, responded, none_left, set) =
        respond-empties rs (start_game_stats_import (games rs) c) refl refl in
      (d, responded, set, ground (arith, none_left), ground (arith, none_left))
