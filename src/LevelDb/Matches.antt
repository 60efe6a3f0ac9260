-- ===== src/LevelDb/Matches.antt =====
-- Which dynamic collections are taken into account, and which games they take.
use galaxy_integration_steam.Prelude.{
  ℕ, ◌≡◌, refl, ap, ◌∙◌, Bool, true, false, not, ◌&&◌, ◌||◌, List, [], ◌∷◌, ◌++◌, some, arith,
  if◌then◌else◌, ◌==◌, any, All, ◌↔◌,
}
use galaxy_integration_steam.Prelude.Keys.{◌=?◌, nat_eq, contains}
use galaxy_integration_steam.Prelude.Text.{Text, list_eq, list_beq_iff}
use galaxy_integration_steam.Prelude.Dict.{Dict, get, has, HasUniqueKeys}
use galaxy_integration_steam.Friends.Defs.{is_empty}
use galaxy_integration_steam.LevelDb.Dynamic.{
  Groups, Game, processed_from, dynamic_collection_can_be_processed, blacklisted_in,
  get_blacklisted_tags, takes_game, players_match, translate_player_tags, tags_for, or_nothing,
  get_dynamic_tags_for_game, categories_match, dynamic_tags_match,
}

-- A group with options whose number the test takes.
abbrev pub is_filled : (ℕ → List ℕ → Bool) → ℕ × List ℕ → Bool
is_filled p (n, options) = not (is_empty options) && p n options

-- The groups that rule a collection out: the numbers 0, 1 and 3, and 2 with the tag of virtual reality.
abbrev pub is_unsupported : ℕ × List ℕ → Bool
is_unsupported = is_filled (λ n options. n == 0 || n == 1 || n == 3 || n == 2 && contains 3 options)

abbrev pub is_supported : ℕ × List ℕ → Bool
is_supported = is_filled (λ n options. n == 2 || n == 4)

processed_from-any :
    (empty : Bool) (groups : Groups)
    → processed_from empty groups
      ≡ (not (any is_unsupported groups) && (not empty || any is_supported groups))
processed_from-any true [] = refl
processed_from-any false [] = refl
processed_from-any empty ((n, []) ∷ groups) = processed_from-any empty groups
processed_from-any empty ((n, o ∷ os) ∷ groups) =
    ground (arith, processed_from-any (empty && not (n == 2 || n == 4)) groups)

-- A dynamic collection is taken into account exactly if none of its filled groups is unsupported and
-- some group of players or of categories is filled.
pub dynamic_collection_can_be_processed-any :
    (groups : Groups)
    → dynamic_collection_can_be_processed groups
      ≡ (not (any is_unsupported groups) && any is_supported groups)
unfolding dynamic_collection_can_be_processed
dynamic_collection_can_be_processed-any groups = processed_from-any true groups

-- The tags match exactly if each tag of the collection is one of the game.
dynamic_tags_match_iff :
    (ts tags : List ℕ) → (dynamic_tags_match ts tags ≡ true) ↔ All (λ t. contains t tags ≡ true) ts
unfolding dynamic_tags_match
dynamic_tags_match_iff [] tags = (λ _. tt, λ _. refl)
dynamic_tags_match_iff (t ∷ ts) tags =
    let (to, from) = dynamic_tags_match_iff ts tags in
    (λ h. (ground (arith, h), to (ground (arith, h))), λ h. ground (arith, h.0, from h.1))

contains-append :
    (n : Text) (xs ys : List Text)
    → contains n (xs ++ ys) ≡ (if contains n xs then true else contains n ys)
contains-append n [] ys = refl
contains-append n (x ∷ xs) ys = ground (arith, contains-append n xs ys)

-- A group of the play state.
abbrev is_play : ℕ × List ℕ → Bool
is_play = is_filled (λ n options. n == 1)

contains-blacklisted_in :
    (n name : Text) (groups : Groups)
    → contains n (blacklisted_in name groups) ≡ ((name =? n) && any is_play groups)
unfolding blacklisted_in
contains-blacklisted_in n name [] = ground arith
contains-blacklisted_in n name ((i, []) ∷ groups) = contains-blacklisted_in n name groups
contains-blacklisted_in n name ((i, o ∷ os) ∷ groups) =
    ground (arith, contains-blacklisted_in n name groups)

play_unsupported : (groups : Groups) → any is_play groups ≡ true → any is_unsupported groups ≡ true
play_unsupported [] h = h
play_unsupported ((i, []) ∷ groups) h = play_unsupported groups h
play_unsupported ((i, o ∷ os) ∷ groups) h = ground (arith, play_unsupported groups, h)

takes_game_of_play :
    (game : Game) (groups : Groups)
    → any is_play groups ≡ true
    → takes_game game groups ≡ some false
unfolding takes_game
takes_game_of_play game groups h =
    ap (λ b. if b then categories_match (get 4 groups) (get 2 groups) game else some false)
      (dynamic_collection_can_be_processed-any groups
        ∙ ap (λ b. not b && any is_supported groups) (play_unsupported groups h))

-- No name comes from elsewhere than the collections.
contains-tags_for-has :
    (game : Game) (n : Text) (d : Dict Text Groups)
    → has n d ≡ false
    → contains n (or_nothing (tags_for game d)) ≡ false
unfolding tags_for
contains-tags_for-has game n [] h = refl
contains-tags_for-has game n ((name, groups) ∷ d) h =
    ground (arith, contains-tags_for-has game n d, h)

contains-get_blacklisted_tags-has :
    (n : Text) (d : Dict Text Groups)
    → has n d ≡ false
    → contains n (get_blacklisted_tags d) ≡ false
unfolding get_blacklisted_tags
contains-get_blacklisted_tags-has n [] h = refl
contains-get_blacklisted_tags-has n ((name, groups) ∷ d) h = ground (
  arith,
  contains-append n (blacklisted_in name groups) (get_blacklisted_tags d),
  contains-blacklisted_in n name groups,
  contains-get_blacklisted_tags-has n d,
  h,
)

-- A collection that is blacklisted for its play state is never among the collections of a game.
pub blacklisted-never_taken :
    (game : Game) (n : Text) (d : Dict Text Groups)
    → HasUniqueKeys d
    → contains n (get_blacklisted_tags d) ≡ true
    → contains n (get_dynamic_tags_for_game game d) ≡ false
unfolding get_dynamic_tags_for_game get_blacklisted_tags tags_for
blacklisted-never_taken game n [] u h = refl
blacklisted-never_taken game n ((name, groups) ∷ d) u h = ground (
  arith,
  contains-append n (blacklisted_in name groups) (get_blacklisted_tags d),
  contains-blacklisted_in n name groups,
  contains-get_blacklisted_tags-has n d,
  contains-tags_for-has game n d,
  takes_game_of_play game groups,
  blacklisted-never_taken game n d u.1,
  u.0,
  h,
  list_beq_iff name n,
)

takes_game-eq :
    (game : Game) (groups : Groups) (cats players translated : List ℕ)
    → get 4 groups ≡ some cats
    → get 2 groups ≡ some players
    → translate_player_tags game.categories ≡ some translated
    → takes_game game groups
      ≡ some (
          dynamic_collection_can_be_processed groups
          && dynamic_tags_match cats game.tags
          && dynamic_tags_match players translated)
unfolding takes_game categories_match players_match
takes_game-eq game groups cats players translated c p t = rw c (rw p (by_players players))
  where
    by_players :
        (ps : List ℕ)
        → (if dynamic_collection_can_be_processed groups
            then categories_match (some cats) (some ps) game
            else some false)
          ≡ some (
              dynamic_collection_can_be_processed groups
              && dynamic_tags_match cats game.tags
              && dynamic_tags_match ps translated)
    by_players [] = ground arith
    by_players (q ∷ qs) = rw t (ground arith)

-- A dynamic collection takes a game exactly if it can be processed, each of its categories is a tag of the
-- game, and each of its tags of players is the translation of a category of the game; where the
-- collection has both groups and each category of the game has a translation.
pub takes_game_iff :
    (game : Game) (groups : Groups) (cats players translated : List ℕ)
    → get 4 groups ≡ some cats
    → get 2 groups ≡ some players
    → translate_player_tags game.categories ≡ some translated
    → (takes_game game groups ≡ some true) ↔ (
        (dynamic_collection_can_be_processed groups ≡ true)
        × All (λ t. contains t game.tags ≡ true) cats
        × All (λ t. contains t translated ≡ true) players)
takes_game_iff game groups cats players translated c p t =
    let value = takes_game-eq game groups cats players translated c p t in
    let (c_to, c_from) = dynamic_tags_match_iff cats game.tags in
    let (p_to, p_from) = dynamic_tags_match_iff players translated in
    (
      λ h. (
        ground (arith, value, h),
        c_to (ground (arith, value, h)),
        p_to (ground (arith, value, h)),
      ),
      λ h. ground (arith, value, h.0, c_from h.1, p_from h.2),
    )
