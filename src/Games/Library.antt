-- ===== src/Games/Library.antt =====
-- What `SteamNetworkBackend` of src/backend_steam_network.py makes of the games cache for Galaxy, with
-- the Witcher 3 editions of src/steam_network/w3_hack.py.
use galaxy_integration_steam.Prelude.{
  ℕ, ◌≡◌, ◌∙◌, ap, sym, refl, Bool, true, false, ◌&&◌, ◌||◌, List, [], ◌∷◌, ◌++◌, arith, Option,
  none, some, if◌then◌else◌, ◌==◌, filter,
}
use galaxy_integration_steam.Prelude.Keys.{nat_eq, contains}
use galaxy_integration_steam.Games.Defs.{
  App, GamesCache, witcher_3_dlcs_app_ids, get_owned_games, get_shared_games,
}

-- WITCHER_3_GOTY_APP_ID
abbrev pub witcher_3_goty_app_id : ℕ
witcher_3_goty_app_id = 499450

unfoldable pub resolves_to_goty : List ℕ → Bool
resolves_to_goty owned_dlcs =
    contains 355880 owned_dlcs || (contains 378648 owned_dlcs && contains 378649 owned_dlcs)

pub record Library : Type 0 where
  pub steam_id : Option ℕ
  pub games : GamesCache
  pub owned_games_parsed : Bool
  pub modified : Bool

-- A game as Galaxy gets it: its id.
abbrev pub ids : List App → List ℕ
ids [] = []
ids (a ∷ as') = a.appid ∷ ids as'

abbrev pub dlcs_of : List ℕ → List ℕ
dlcs_of is = filter (λ i. contains i witcher_3_dlcs_app_ids) is

-- get_owned_games; `none` is `AuthenticationRequired`.
unfoldable pub owned_games : Library → Library × Option (List ℕ)
owned_games l = elim l.steam_id [
  | none ↦ (l, none)
  | some i ↦
      let (games', apps) = get_owned_games (record l.games { add_game_lever = true }) in
      let known = ids apps in
      (
        record l { games = games'; owned_games_parsed = true; modified = true },
        some (
            if resolves_to_goty (dlcs_of known)
            then known ++ witcher_3_goty_app_id ∷ []
            else known),
      )
]

-- get_subscriptions: whether the family sharing is active.
unfoldable pub has_shared_games : Library → Bool
has_shared_games l = elim (get_shared_games l.games).1 [ [] ↦ false | _ ∷ _ ↦ true ]

contains-dlcs_of :
    (i : ℕ) (is : List ℕ)
    → contains i witcher_3_dlcs_app_ids ≡ true
    → contains i (dlcs_of is) ≡ contains i is
contains-dlcs_of i [] h = refl
contains-dlcs_of i (j ∷ is) h = ground (arith, h, contains-dlcs_of i is h)

contains-append :
    (i : ℕ) (xs ys : List ℕ) → contains i (xs ++ ys) ≡ (contains i xs || contains i ys)
contains-append i [] ys = refl
contains-append i (x ∷ xs) ys = ground (arith, contains-append i xs ys)

-- What the generator of owned games yields.
abbrev pub yielded_ids : Library → List ℕ
yielded_ids l = ids (get_owned_games (record l.games { add_game_lever = true })).1

abbrev shown_ids : List ℕ → List ℕ
shown_ids known =
    if resolves_to_goty (dlcs_of known) then known ++ witcher_3_goty_app_id ∷ [] else known

owned_games-shown_ids :
    (l : Library) (i : ℕ)
    → l.steam_id ≡ some i
    → (owned_games l).1 ≡ some (shown_ids (yielded_ids l))
unfolding owned_games
owned_games-shown_ids l i known = rw known refl

contains-shown_ids :
    (k : ℕ) (known : List ℕ)
    → contains k (shown_ids known) ≡ (
        contains k known
        || (k == witcher_3_goty_app_id
            && (contains 355880 known || (contains 378648 known && contains 378649 known))))
unfolding resolves_to_goty
contains-shown_ids k known = ground (
  arith,
  contains-append k known (witcher_3_goty_app_id ∷ []),
  contains-dlcs_of 355880 known refl,
  contains-dlcs_of 378648 known refl,
  contains-dlcs_of 378649 known refl,
)

some-injective : (xs ys : List ℕ) → some xs ≡ some ys → xs ≡ ys
some-injective xs ys p = ground (arith, p)

-- A user who is logged in is shown a game exactly if the cache yields it, and the edition of the year
-- also where it yields the expansion pass or both of its parts.
pub contains-owned_games :
    (l : Library) (i k : ℕ) (shown : List ℕ)
    → l.steam_id ≡ some i
    → (owned_games l).1 ≡ some shown
    → contains k shown ≡ (
        contains k (yielded_ids l)
        || (k == witcher_3_goty_app_id
            && (contains 355880 (yielded_ids l)
                || (contains 378648 (yielded_ids l) && contains 378649 (yielded_ids l)))))
contains-owned_games l i k shown known h =
    ap (contains k)
      (some-injective shown (shown_ids (yielded_ids l)) (sym h ∙ owned_games-shown_ids l i known))
    ∙ contains-shown_ids k (yielded_ids l)
