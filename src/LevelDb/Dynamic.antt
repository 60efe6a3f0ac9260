-- ===== src/LevelDb/Dynamic.antt =====
-- src/leveldb_parser.py: the dynamic collections, each a table from the number of a filter group to its
-- options, and the games that match them.
use galaxy_integration_steam.Prelude.{
  ℕ, suc, Bool, true, false, not, ◌&&◌, ◌||◌, List, [], ◌∷◌, ◌++◌, Option, none, some,
  if◌then◌else◌, ◌==◌,
}
use galaxy_integration_steam.Prelude.Keys.{nat_eq, contains}
use galaxy_integration_steam.Prelude.Text.{Text, list_eq}
use galaxy_integration_steam.Prelude.Dict.{Dict, get, put}
use galaxy_integration_steam.Friends.Defs.{is_empty}
use galaxy_integration_steam.LevelDb.Defs.{Loaded, unlike, collection}

abbrev pub Groups : Type 0
Groups = Dict ℕ (List ℕ)

abbrev pub groups_of : Option Groups → Groups
groups_of none = []
groups_of (some g) = g

-- The loop over `enumerate(filterGroups, start=0)`.
abbrev pub put_groups : Text → ℕ → List (List ℕ) → Dict Text Groups → Dict Text Groups
put_groups name n [] d = d
put_groups name n (options ∷ rest) d =
    put_groups name (suc n) rest (put name (put n options (groups_of (get name d))) d)

abbrev pub put_collection :
    Option Text → Option (List (List ℕ)) → Dict Text Groups → Dict Text Groups
put_collection (some name) (some groups) d = put_groups name 0 groups d
put_collection _ _ d = d

abbrev pub dynamic_from : List Loaded → Dict Text Groups → Dict Text Groups
dynamic_from [] d = d
dynamic_from (unlike ∷ ls) d = dynamic_from ls d
dynamic_from (collection c ∷ ls) d = dynamic_from ls (put_collection c.name c.filter_groups d)

unfoldable pub parse_dynamic_collections : List Loaded → Dict Text Groups
parse_dynamic_collections ls = dynamic_from ls []

-- The body of the loop for a group with options: `none` goes on, with the collection not empty.
abbrev stops_at : ℕ → List ℕ → Bool
stops_at n options = n == 0 || n == 1 || (n == 2 && contains 3 options) || n == 3

abbrev pub processed_from : Bool → Groups → Bool
processed_from empty [] = not empty
processed_from empty ((n, options) ∷ groups) =
    let skipped = processed_from empty groups in
    let filled = processed_from (empty && not (n == 2 || n == 4)) groups in
    if is_empty options then skipped else if stops_at n options then false else filled

unfoldable pub dynamic_collection_can_be_processed : Groups → Bool
dynamic_collection_can_be_processed = processed_from true

-- TAGS_MAPPING, without its entry for None; a category that it does not have is a KeyError.
abbrev pub tags_mapping : Dict ℕ ℕ
tags_mapping =
    (28, 1) ∷ (18, 2) ∷ (29, 4) ∷ (30, 5) ∷ (22, 6) ∷ (2, 7) ∷ (1, 8) ∷ (36, 8) ∷ (9, 9) ∷ []

abbrev prepend : Option ℕ → Option (List ℕ) → Option (List ℕ)
prepend (some t) (some ts) = some (t ∷ ts)
prepend _ _ = none

unfoldable pub translate_player_tags : List ℕ → Option (List ℕ)
translate_player_tags [] = some []
translate_player_tags (i ∷ is) = prepend (get i tags_mapping) (translate_player_tags is)

unfoldable pub dynamic_tags_match : List ℕ → List ℕ → Bool
dynamic_tags_match [] game_tags = true
dynamic_tags_match (t ∷ ts) game_tags =
    let rest = dynamic_tags_match ts game_tags in if contains t game_tags then rest else false

unfoldable pub blacklisted_in : Text → Groups → List Text
blacklisted_in name [] = []
blacklisted_in name ((n, options) ∷ groups) =
    let rest = blacklisted_in name groups in
    if not (is_empty options) && n == 1 then name ∷ rest else rest

unfoldable pub get_blacklisted_tags : Dict Text Groups → List Text
unfolding blacklisted_in
get_blacklisted_tags [] = []
get_blacklisted_tags ((name, groups) ∷ d) = blacklisted_in name groups ++ get_blacklisted_tags d

-- `game['tags']` and the ids of `game['categories']`.
pub record Game : Type 0 where
  pub tags : List ℕ
  pub categories : List ℕ

-- Whether a collection that can be processed takes the game; `none` is an exception, a KeyError.
abbrev pub player_tags_match : List ℕ → Option (List ℕ) → Option Bool
unfolding dynamic_tags_match
player_tags_match tags none = none
player_tags_match tags (some translated) = some (dynamic_tags_match tags translated)

unfoldable pub players_match : Option (List ℕ) → List ℕ → Option Bool
unfolding player_tags_match translate_player_tags
players_match none categories = none
players_match (some []) categories = some true
players_match (some (t ∷ ts)) categories =
    player_tags_match (t ∷ ts) (translate_player_tags categories)

unfoldable pub categories_match : Option (List ℕ) → Option (List ℕ) → Game → Option Bool
unfolding players_match dynamic_tags_match
categories_match none players game = none
categories_match (some tags) players game =
    let further = players_match players game.categories in
    if dynamic_tags_match tags game.tags then further else some false

unfoldable pub takes_game : Game → Groups → Option Bool
unfolding categories_match dynamic_collection_can_be_processed
takes_game game groups =
    if dynamic_collection_can_be_processed groups
    then categories_match (get 4 groups) (get 2 groups) game
    else some false

abbrev pub add_if_taken : Text → Option Bool → Option (List Text) → Option (List Text)
add_if_taken name none rest = none
add_if_taken name (some taken) none = none
add_if_taken name (some true) (some names) = some (name ∷ names)
add_if_taken name (some false) (some names) = some names

unfoldable pub tags_for : Game → Dict Text Groups → Option (List Text)
unfolding takes_game
tags_for game [] = some []
tags_for game ((name, groups) ∷ d) = add_if_taken name (takes_game game groups) (tags_for game d)

-- `except Exception`: no collection at all.
abbrev pub or_nothing : Option (List Text) → List Text
or_nothing none = []
or_nothing (some names) = names

unfoldable pub get_dynamic_tags_for_game : Game → Dict Text Groups → List Text
unfolding tags_for
get_dynamic_tags_for_game game d = or_nothing (tags_for game d)
