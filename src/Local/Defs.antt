-- ===== src/Local/Defs.antt =====
-- src/client.py: what the registry says of the apps, the list of local games, and the changes between
-- two lists. An app id is a text; a dictionary's keys that are iterated as a set come in its order.
use galaxy_integration_steam.Prelude.{
  ℕ, ◌+◌, ◌≡◌, Bool, true, false, not, ◌&&◌, List, [], ◌∷◌, ◌++◌, Option, none, some, leb,
  if◌then◌else◌, filter, map,
}
use galaxy_integration_steam.Prelude.Keys.{Eq, ◌=?◌, nat_eq}
use galaxy_integration_steam.Prelude.Text.{Text, codes, list_eq}
use galaxy_integration_steam.Prelude.Dict.{Dict, get, has, put, keys}
use galaxy_integration_steam.UserInfo.Decimal.{str}

-- `LocalGameState`, an `enum.Flag` of Galaxy's API: two flags, none of them, and the operators `|`
-- and `in`, of which the laws say what Python's documentation does.
pub record LocalGameStates (S : Type 0) : Type 0 where
  pub none_ : S
  pub running : S
  pub installed : S
  pub union : S → S → S
  pub includes : S → S → Bool

pub record IsFlags {S : Type 0} (F : LocalGameStates S) : Type 0 where
  pub none_running : F.includes F.none_ F.running ≡ false
  pub none_installed : F.includes F.none_ F.installed ≡ false
  pub running_running : (s : S) → F.includes (F.union s F.running) F.running ≡ true
  pub running_installed :
      (s : S) → F.includes (F.union s F.running) F.installed ≡ F.includes s F.installed
  pub installed_running :
      (s : S) → F.includes (F.union s F.installed) F.running ≡ F.includes s F.running
  pub installed_installed : (s : S) → F.includes (F.union s F.installed) F.installed ≡ true

pub record LocalGame (S : Type 0) : Type 0 where
  pub game_id : Text
  pub local_game_state : S

-- What the registry holds under a name: a text, on Windows also a number. What else there may be
-- (bytes, a list of texts, and on a Mac a dictionary) never prints as 1.
pub data RegistryValue : Type 0 where
  number : ℕ → RegistryValue
  text : Text → RegistryValue
  unlike : RegistryValue

-- `str(v) == "1"`
abbrev pub prints_one : RegistryValue → Bool
prints_one (number n) = str n =? codes "1"
prints_one (text t) = t =? codes "1"
prints_one unlike = false

-- `str.lower` on ASCII. No other character has a lower case with a letter of the two names in it.
abbrev pub lower_code : ℕ → ℕ
lower_code c = if leb 65 c && leb c 90 then c + 32 else c

abbrev pub lower : Text → Text
lower = map lower_code

-- `k.lower() == name and str(v) == "1"`
unfoldable pub is_on : Text → Text → RegistryValue → Bool
is_on name k v = (lower k =? name) && prints_one v

module _ {S : Type 0} (F : LocalGameStates S) where
  unfoldable pub entry_state : S → Text → RegistryValue → S
  entry_state s k v =
      let started = if is_on (codes "running") k v then F.union s F.running else s in
      if is_on (codes "installed") k v then F.union started F.installed else started

  abbrev pub game_state : S → Dict Text RegistryValue → S
  game_state s [] = s
  game_state s ((k, v) ∷ game_data) = game_state (entry_state s k v) game_data

  abbrev pub app_states_from : Dict Text (Dict Text RegistryValue) → Dict Text S → Dict Text S
  app_states_from [] app_states = app_states
  app_states_from ((game, game_data) ∷ apps) app_states =
      app_states_from apps (put game (game_state F.none_ game_data) app_states)

  unfoldable pub get_app_states_from_registry : Dict Text (Dict Text RegistryValue) → Dict Text S
  get_app_states_from_registry apps = app_states_from apps []

-- The loop of `local_games_list`, over the ids of the manifests.
abbrev pub local_games : {S : Type 0} → Dict Text S → List Text → List (LocalGame S)
local_games app_states [] = []
local_games app_states (app_id ∷ apps_ids) =
    let rest = local_games app_states apps_ids in
    elim (get app_id app_states) [
      | none ↦ rest
      | some s ↦ (record { game_id = app_id; local_game_state = s }) ∷ rest
    ]

module _ {S : Type 0} where
  -- One write into a dictionary for each game.
  abbrev pub put_all : List (LocalGame S) → Dict Text S → Dict Text S
  put_all [] d = d
  put_all (g ∷ l) d = put_all l (put g.game_id g.local_game_state d)

  -- `{x.game_id: x.local_game_state for x in l}`
  abbrev pub state_dict : List (LocalGame S) → Dict Text S
  state_dict l = put_all l []

module _ {S : Type 0} (none_ : S) (old new : Dict Text S) where
  unfoldable pub removed_games : List Text → List (LocalGame S)
  removed_games [] = []
  removed_games (i ∷ is) =
      let rest = removed_games is in
      if has i new then rest else (record { game_id = i; local_game_state = none_ }) ∷ rest

module _ {S : Type 0} (old new : Dict Text S) where
  unfoldable pub added_games : List (LocalGame S) → List (LocalGame S)
  added_games = filter (λ (g : LocalGame S). has g.game_id new && not (has g.game_id old))

module _ {S : Type 0} ⦃e : Eq S⦄ (old new : Dict Text S) where
  -- The change of a game that both dictionaries have.
  abbrev pub change : Text → Option S → Option S → List (LocalGame S)
  change i (some w) (some v) =
      if v =? w then [] else (record { game_id = i; local_game_state = v }) ∷ []
  change i _ _ = []

  unfoldable pub changed_games : List Text → List (LocalGame S)
  changed_games [] = []
  changed_games (i ∷ is) = change i (get i old) (get i new) ++ changed_games is

unfoldable pub get_state_changes :
    {S : Type 0} ⦃e : Eq S⦄
    → LocalGameStates S
    → List (LocalGame S)
    → List (LocalGame S)
    → List (LocalGame S)
get_state_changes F old_list new_list =
    let old = state_dict old_list in
    let new = state_dict new_list in
    removed_games F.none_ old new (keys old)
    ++ added_games old new new_list
    ++ changed_games old new (keys new)
