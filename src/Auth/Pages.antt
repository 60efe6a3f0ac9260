-- ===== src/Auth/Pages.antt =====
-- `DisplayUriHelper` of src/steam_network/enums.py, `next_step_response_simple` of
-- src/steam_network/utils.py, and the texts that the pages send back.
use galaxy_integration_steam.Prelude.{
  ℕ, String, Bool, true, false, ◌&&◌, [], ◌∷◌, Option, ◌==◌, ltb, leb, if◌then◌else◌, filter, take,
  any,
}
use galaxy_integration_steam.Prelude.Keys.{nat_eq, string_eq}
use galaxy_integration_steam.Prelude.Text.{Text, codes}
use galaxy_integration_steam.Prelude.Dict.{Dict, has, put}

pub data DisplayUriHelper : Type 0 where
  login two_factor_mail two_factor_mobile two_factor_confirm : DisplayUriHelper

unfoldable pub to_view_string : DisplayUriHelper → String
to_view_string login = "login"
to_view_string two_factor_mail = "steamguard"
to_view_string two_factor_mobile = "steamauthenticator"
to_view_string two_factor_confirm = "steamauthenticator_confirm"

unfoldable pub end_uri : DisplayUriHelper → String
end_uri login = "login_finished"
end_uri two_factor_mail = "two_factor_mail_finished"
end_uri two_factor_mobile = "two_factor_mobile_finished"
end_uri two_factor_confirm = "two_factor_confirm_finished"

-- `for key, value in kwargs.items(): if key not in args: args[key] = value`
abbrev pub add_missing : Dict String Text → Dict String Text → Dict String Text
add_missing [] args = args
add_missing ((k, v) ∷ kwargs) args = add_missing kwargs (if has k args then args else put k v args)

-- The arguments of the page that `GetStartUri` encodes.
unfoldable pub start_args : DisplayUriHelper → Bool → Dict String Text → Dict String Text
start_args d errored kwargs =
    let viewed = put "view" (codes (to_view_string d)) [] in
    add_missing kwargs (if errored then put "errored" (codes "true") viewed else viewed)

-- What the backend hands to Galaxy: a page with its arguments, or the login.
pub data Answer : Type 0 where
  next_step : DisplayUriHelper → Dict String Text → Answer
  authentication : (steam_id : Option ℕ) (persona_name : Option Text) → Answer

unfoldable pub next_step_response_simple : DisplayUriHelper → Bool → Dict String Text → Answer
next_step_response_simple d errored kwargs = next_step d (start_args d errored kwargs)

abbrev starts_with : Text → Text → Bool
starts_with [] t = true
starts_with (c ∷ p) [] = false
starts_with (c ∷ p) (d ∷ t) = let rest = starts_with p t in if c == d then rest else false

-- `p in t`
unfoldable pub occurs : Text → Text → Bool
occurs p [] = starts_with p []
occurs p (c ∷ t) = let rest = occurs p t in if starts_with p (c ∷ t) then true else rest

unfoldable pub sanitize_string : Text → Text
sanitize_string t = take 64 (filter (λ c. ltb c 128) t)

-- `str.isspace`
abbrev is_space : ℕ → Bool
is_space c =
    any (λ (r : ℕ × ℕ). leb r.0 c && leb c r.1)
      ((9, 13)
        ∷ (28, 32)
        ∷ (133, 133)
        ∷ (160, 160)
        ∷ (5760, 5760)
        ∷ (8192, 8202)
        ∷ (8232, 8233)
        ∷ (8239, 8239)
        ∷ (8287, 8287)
        ∷ (12288, 12288)
        ∷ [])

abbrev strip_left : Text → Text
strip_left [] = []
strip_left (c ∷ t) = let rest = strip_left t in if is_space c then rest else c ∷ t

abbrev strip_right : Text → Text
strip_right [] = []
strip_right (c ∷ t) = elim (strip_right t) [
  | [] ↦ if is_space c then [] else c ∷ []
  | d ∷ u ↦ c ∷ d ∷ u
]

unfoldable pub strip : Text → Text
strip t = strip_right (strip_left t)
