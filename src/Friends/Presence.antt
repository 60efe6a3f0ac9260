-- ===== src/Friends/Presence.antt =====
-- src/steam_network/presence.py: what Galaxy is shown of a friend. A text is searched and replaced by
-- regular expressions, which are a parameter: whether a parameter or a token is found in a status, and
-- the status with its occurrences replaced.
use galaxy_integration_steam.Prelude.{
  ℕ, zero, suc, Bool, true, false, ◌||◌, List, [], ◌∷◌, Option, none, some, if◌then◌else◌, ◌==◌,
  map,
}
use galaxy_integration_steam.Prelude.Keys.{nat_eq, contains}
use galaxy_integration_steam.Prelude.Text.{Text, codes, list_eq}
use galaxy_integration_steam.Prelude.Dict.{Dict, get}
use galaxy_integration_steam.Friends.Defs.{is_empty}

pub record Token : Type 0 where
  pub name : Text
  pub value : Text

-- What `re` gives; `none` is an exception, of a pattern or of a text that is put in.
pub record Patterns : Type 0 where
  pub has_param : Text → Text → Bool
  pub sub_param : Text → Text → Text → Option Text
  pub has_token : Text → Text → Option Bool
  pub sub_token : Text → Text → Text → Option Text

-- `status.replace("{", " ").replace("}", " ")`
abbrev pub blank_brace : ℕ → ℕ
blank_brace c = if c == 123 || c == 125 then 32 else c

abbrev pub blank_braces : Text → Text
blank_braces = map blank_brace

module _ (re : Patterns) where
  -- The loop over the parameters, on a status and whether something was replaced in it.
  unfoldable pub replace_params : Dict Text Text → Text → Bool → Option (Text × Bool)
  replace_params [] status replaced = some (status, replaced)
  replace_params ((param, value) ∷ params) status replaced =
      let unchanged = replace_params params status replaced in
      let changed = replace_params params in
      if re.has_param param status
      then elim (re.sub_param param value status) [ none ↦ none | some s ↦ changed s true ]
      else unchanged

  -- The loop over the tokens, up to the first that is found.
  unfoldable pub replace_token : List Token → Text → Bool → Option (Text × Bool)
  replace_token [] status replaced = some (status, replaced)
  replace_token (t ∷ ts) status replaced =
      let later = replace_token ts status replaced in
      elim (re.has_token t.name status) [
        | none ↦ none
        | some true ↦ elim (re.sub_token t.name t.value status) [
          | none ↦ none
          | some s ↦ some (s, true)
        ]
        | some false ↦ later
      ]

  -- One round.
  unfoldable pub replace_all : Dict Text Text → List Token → Text → Option (Text × Bool)
  unfolding replace_params replace_token
  replace_all params tokens status = elim (replace_params params status false) [
    | none ↦ none
    | some (s, replaced) ↦ elim (replace_token tokens s replaced) [
      | none ↦ none
      | some (s', replaced') ↦ some (blank_braces s', replaced')
    ]
  ]

  -- The `while`, for as many rounds as `max_depth` leaves.
  unfoldable pub translate_rounds : ℕ → Dict Text Text → List Token → Text → Option Text
  unfolding replace_all
  translate_rounds zero params tokens status = none
  translate_rounds (suc depth) params tokens status =
      let again = translate_rounds depth params tokens in
      elim (replace_all params tokens status) [
        | none ↦ none
        | some (s, true) ↦ again s
        | some (s, false) ↦ some s
      ]

  -- `_translate_presence`
  unfoldable pub translate_presence : Dict Text Text → List Token → Text → Option Text
  unfolding translate_rounds
  translate_presence params tokens status = translate_rounds 10 params tokens status

-- `re.findall("%.*%", status)`: two marks on one line. The flag holds after a mark on the line.
abbrev pub has_params_from : Bool → Text → Bool
has_params_from seen [] = false
has_params_from seen (c ∷ t) =
    let same = has_params_from seen t in
    let marked = has_params_from true t in
    let fresh = has_params_from false t in
    if c == 37 then (if seen then true else marked) else if c == 10 then fresh else same

abbrev pub has_params : Text → Bool
has_params = has_params_from false

abbrev pub hash : ℕ
hash = 35

-- The status without translations: shown only if it needs none.
abbrev pub untranslated : Text → Option Text
untranslated status = if contains hash status || has_params status then none else some status

-- The cache has None for a game whose translations have been asked for.
unfoldable pub by_tokens :
    Patterns → Dict Text Text → Text → Option (Option (List Token)) → Option Text
unfolding translate_presence
by_tokens re params status none = untranslated status
by_tokens re params status (some none) = untranslated status
by_tokens re params status (some (some tokens)) = translate_presence re params tokens status

-- With no game `int(None)` raises, which leaves no status.
unfoldable pub resolved :
    Patterns → Dict ℕ (Option (List Token)) → Dict Text Text → Option ℕ → Text → Option Text
unfolding by_tokens
resolved re cache params none status = none
resolved re cache params (some game) status = by_tokens re params status (get game cache)

-- `rich_presence.get("steam_display")`, or `get("status")` where that is not there or empty.
abbrev pub or_status : Dict Text Text → Option Text → Option Text
or_status params (some (c ∷ s)) = some (c ∷ s)
or_status params _ = get (codes "status") params

abbrev pub raw_status : Dict Text Text → Option Text
raw_status params = or_status params (get (codes "steam_display") params)

unfoldable pub status_of :
    Patterns → Dict ℕ (Option (List Token)) → Dict Text Text → Option ℕ → Option Text → Option Text
unfolding resolved
status_of re cache params game (some (c ∷ s)) = resolved re cache params game (c ∷ s)
status_of re cache params game o = o

pub data PresenceState : Type 0 where
  unknown online offline away : PresenceState

-- Of `EPersonaState`: Offline is 0, Online 1, Busy 2, Away 3 and Snooze 4.
unfoldable pub presence_state : Option ℕ → PresenceState
presence_state none = unknown
presence_state (some s) =
    if s == 1 || s == 4
    then online
    else if s == 0
    then offline
    else if s == 3 || s == 2
    then away
    else unknown

abbrev pub played : Option ℕ → Option ℕ
played none = none
played (some g) = if g == 0 then none else some g

abbrev pub title : Option Text → Option Text
title none = none
title (some t) = if is_empty t then none else some t

pub record UserPresence : Type 0 where
  pub state : PresenceState
  pub game_id : Option ℕ
  pub game_title : Option Text
  pub in_game_status : Option Text

-- The fields of `ProtoUserInfo` that are read, with the dictionary of the rich presence.
pub record Shown : Type 0 where
  pub state : Option ℕ
  pub game_id : Option ℕ
  pub game_name : Option Text
  pub rich_presence : Option (Dict Text Text)

unfoldable pub in_game_status_of :
    Patterns → Dict ℕ (Option (List Token)) → Option ℕ → Option (Dict Text Text) → Option Text
unfolding status_of
in_game_status_of re cache game none = none
in_game_status_of re cache game (some params) = status_of re cache params game (raw_status params)

unfoldable pub presence_from_user_info :
    Patterns → Dict ℕ (Option (List Token)) → Shown → UserPresence
unfolding presence_state in_game_status_of
presence_from_user_info re cache u = record {
  state = presence_state u.state;
  game_id = played u.game_id;
  game_title = title u.game_name;
  in_game_status = in_game_status_of re cache (played u.game_id) u.rich_presence;
}
