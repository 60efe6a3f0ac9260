-- ===== src/Imports/AnyOrder.antt =====
-- An import is complete once each game is answered, in any order.
use galaxy_integration_steam.Prelude.{
  ℕ, ◌+◌, ◌≡◌, ◌∙◌, refl, ap, sym, true, false, not, List, [], ◌∷◌, ◌++◌, Option, none, some, arith,
  if◌then◌else◌, ◌==◌, ==_iff, map,
}
use galaxy_integration_steam.Prelude.Keys.{nat_eq, contains, list_remove}
use galaxy_integration_steam.Prelude.Dict.{put}
use galaxy_integration_steam.Friends.Defs.{is_empty}
use galaxy_integration_steam.Friends.Translations.{count}
use galaxy_integration_steam.Imports.Defs.{
  StatsCache, start_game_stats_import, import_in_progress, update_ready_state, update_stats,
  check_remove,
}
use galaxy_integration_steam.Imports.Jobs.{import_game_stats, add_jobs}
use galaxy_integration_steam.Imports.Completion.{Response, games, respond}
use galaxy_integration_steam.Imports.Prepare.{
  Importer, refresh_game_stats, prepare_achievements_context,
}

contains_of_count : (i : ℕ) (js : List ℕ) (n : ℕ) → count i js ≡ n + 1 → contains i js ≡ true
contains_of_count i [] n h = ground (arith, h)
contains_of_count i (j ∷ js) n h = ground (arith, h, contains_of_count i js n, ==_iff j i)

count-list_remove :
    (i g : ℕ) (js : List ℕ)
    → contains g js ≡ true
    → count i js ≡ (if g == i then 1 else 0) + count i (list_remove g js)
count-list_remove i g [] h = ground (arith, h)
count-list_remove i g (j ∷ js) h =
    ground (arith, h, count-list_remove i g js, ==_iff j i, ==_iff g i, ==_iff j g)

no_games : (js : List ℕ) → ((i : ℕ) → count i js ≡ 0) → js ≡ []
no_games [] h = refl
no_games (j ∷ js) h = ground (arith, h j, ==_iff j j)

module _ {S A : Type 0} where
  -- The first response, for a game that is waited for.
  answered : Response S A → StatsCache S A → StatsCache S A
  answered r c = record {
    info = put r.game record { stats = some r.stats; achievements = some r.achievements } c.info;
    games_to_import = list_remove r.game c.games_to_import;
    ready = is_empty (list_remove r.game c.games_to_import);
  }

  update_stats-answered :
      (r : Response S A) (c : StatsCache S A)
      → contains r.game c.games_to_import ≡ true
      → update_stats r.game r.stats r.achievements c ≡ some (answered r c)
  unfolding update_stats check_remove update_ready_state answered
  update_stats-answered r c h = ground (arith, h)

  respond-any_order :
      (rs : List (Response S A)) (c : StatsCache S A)
      → ((i : ℕ) → count i (games rs) ≡ count i c.games_to_import)
      → c.ready ≡ is_empty c.games_to_import
      → (d : StatsCache S A) × (respond rs c ≡ some d) × (d.games_to_import ≡ []) × (d.ready ≡ true)
  unfolding answered
  respond-any_order [] c h ready =
      let none_left = no_games c.games_to_import (λ i. sym (h i)) in
      (c, refl, none_left, ready ∙ ap is_empty none_left)
  respond-any_order (r ∷ rs) c h ready =
      let found =
        contains_of_count r.game c.games_to_import (count r.game (games rs))
          (ground (arith, h r.game, ==_iff r.game r.game)) in
      let (d, responded, none_left, set) =
        respond-any_order rs (answered r c)
          (λ i. omega (arith, h i, count-list_remove i r.game c.games_to_import found)) refl in
      (
        d,
        ap
              (λ (o : Option (StatsCache S A)). elim o as (λ _. Option (StatsCache S A)) [
                | none ↦ none
                | some e ↦ respond rs e
              ])
              (update_stats-answered r c found)
            ∙ responded,
        none_left,
        set,
      )

  -- With a user who is logged in, and no import in progress, each game is asked for, behind the jobs that
  -- are there; and once Steam has answered for each game, in any order and as often as it is asked for,
  -- the cache is ready and no import is in progress.
  pub prepare_achievements_context-completes :
      (me : ℕ) (p : Importer S A) (game_ids : List ℕ) (rs : List (Response S A))
      → p.steam_id ≡ some me
      → p.stats.games_to_import ≡ []
      → ((i : ℕ) → count i (games rs) ≡ count i game_ids)
      → ((prepare_achievements_context game_ids p).0.client.job_list
          ≡ p.client.job_list ++ map import_game_stats game_ids)
        × (d : StatsCache S A) × (respond rs (prepare_achievements_context game_ids p).0.stats
            ≡ some d)
        × (d.ready ≡ true)
        × ((import_in_progress d).1 ≡ false)
  unfolding prepare_achievements_context refresh_game_stats import_in_progress update_ready_state
      start_game_stats_import add_jobs
  prepare_achievements_context-completes me p game_ids rs known idle h =
      let starts : (prepare_achievements_context game_ids p).0
          ≡ refresh_game_stats game_ids (record p { stats = update_ready_state p.stats }) =
        rw known rw idle refl in
      let q = refresh_game_stats game_ids (record p { stats = update_ready_state p.stats }) in
      let (d, responded, none_left, set) = respond-any_order rs q.stats h refl in
      (
        ap (λ (x : Importer S A). x.client.job_list) starts,
        d,
        ap (λ (x : Importer S A). respond rs x.stats) starts ∙ responded,
        set,
        ap (λ js. not (is_empty js)) none_left,
      )
