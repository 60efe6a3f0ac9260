-- ===== src/Plugin/Offers.antt =====
-- When the Steam client is shut down, and which features the plugin offers.
use galaxy_integration_steam.Prelude.{
  ℕ, ◌+◌, ◌≡◌, refl, ap, ◌∙◌, Bool, true, false, not, ◌&&◌, ◌||◌, List, [], ◌∷◌, Option, none, some,
  arith, if◌then◌else◌, String, ok, filter, any, ltb, eq_iff,
}
use galaxy_integration_steam.Prelude.Keys.{Eq, string_eq, contains, contains-set_add}
use galaxy_integration_steam.Prelude.Dict.{Dict, get, has, keys, HasUniqueKeys}
use galaxy_integration_steam.Local.Defs.{LocalGameStates, LocalGame, get_state_changes}
use galaxy_integration_steam.Local.Folders.{Machine}
use galaxy_integration_steam.Plugin.Defs.{Plugin, launched, update_local_games, or_empty}
use galaxy_integration_steam.Plugin.Client.{
  ignored, shutdown_command, shutdown_platform_client, possible_features, features_in,
  backend_features, union, features,
}

module _ {S : Type 0} ⦃e : Eq S⦄ (F : LocalGameStates S) where
  abbrev pub some_run : List (LocalGame S) → Bool
  some_run = any (λ (g : LocalGame S). F.includes g.local_game_state F.running)

  launched-some_run :
      (now last : ℕ) (l : List (LocalGame S))
      → launched F now l last ≡ (if some_run l then now else last)
  launched-some_run now last [] = refl
  launched-some_run now last (g ∷ l) =
      ground (arith, launched-some_run now last l, launched-some_run now now l)

  -- After an update of the games that reports a running one a request to shut the client down is
  -- ignored for 30 seconds, and then followed; an update that reports none leaves what a request
  -- comes to.
  pub shutdown-update :
      (m : Machine) (now later : ℕ) (new_list : List (LocalGame S)) (p : Plugin S)
      → shutdown_platform_client m later (update_local_games F now new_list p) ≡ (
          if some_run (get_state_changes F (or_empty p.local_games_cache) new_list)
          then (if ltb later (now + 30) then ok ignored else shutdown_command m)
          else shutdown_platform_client m later p)
  unfolding shutdown_platform_client update_local_games
  shutdown-update m now later new_list p =
      let notify_list = get_state_changes F (or_empty p.local_games_cache) new_list in
      ap (λ t. if ltb later (t + 30) then ok ignored else shutdown_command m)
        (launched-some_run now p.last_launch notify_list)
      ∙ by_case (some_run notify_list)
    where
      by_case :
          (b : Bool)
          → (if ltb later ((if b then now else p.last_launch) + 30)
              then ok ignored
              else shutdown_command m)
            ≡ (if b
                then (if ltb later (now + 30) then ok ignored else shutdown_command m)
                else (if ltb later (p.last_launch + 30) then ok ignored else shutdown_command m))
      by_case true = refl
      by_case false = refl

contains-union :
    (f : String) (xs ys : List String) → contains f (union xs ys) ≡ (contains f xs || contains f ys)
contains-union f [] ys = refl
contains-union f (x ∷ xs) ys =
    ground (arith, contains-union f xs ys, contains-set_add x f (union xs ys))

contains-filter :
    (p : String → Bool) (f : String) (xs : List String)
    → contains f (filter p xs) ≡ (p f && contains f xs)
contains-filter p f [] = ground arith
contains-filter p f (x ∷ xs) = ground (arith, contains-filter p f xs, eq_iff x f)

abbrev pub offered : List String → Option String → Bool
offered methods none = false
offered methods (some method) = contains method methods

contains-features_in :
    (f : String) (methods : List String) (table : Dict String String)
    → HasUniqueKeys table
    → contains f (features_in methods table) ≡ offered methods (get f table)
contains-features_in f methods [] u = refl
contains-features_in f methods ((g, method) ∷ table) u =
    ground (arith, contains-features_in f methods table u.1, eq_iff g f, u.0)

contains-keys : {V : Type 0} (f : String) (d : Dict String V) → contains f (keys d) ≡ has f d
contains-keys f [] = refl
contains-keys f ((j, v) ∷ d) = ground (arith, contains-keys f d)

contains-offers :
    (f : String) (super methods : List String) (table : Dict String String)
    → HasUniqueKeys table
    → contains f (
        union
          (filter (λ (g : String). not (contains g (keys table))) super)
          (features_in methods table))
      ≡ (if has f table then offered methods (get f table) else contains f super)
contains-offers f super methods table u =
    let others = filter (λ (g : String). not (contains g (keys table))) super in
    ground (
      arith,
      contains-union f others (features_in methods table),
      contains-filter (λ (g : String). not (contains g (keys table))) f super,
      contains-features_in f methods table u,
      contains-keys f table,
    )

-- The plugin offers a feature of the table exactly if the backend's class defines the method of the
-- table, and any other feature exactly if Galaxy's own plugin class offers it.
pub contains-features :
    (f : String) (super methods : List String)
    → contains f (features super methods) ≡ (
        if has f possible_features
        then offered methods (get f possible_features)
        else contains f super)
unfolding features backend_features
contains-features f super methods =
    contains-offers f super methods possible_features
      (refl, (refl, (refl, (refl, (refl, (refl, (refl, (refl, tt))))))))
