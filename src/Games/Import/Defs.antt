-- ===== src/Games/Import/Defs.antt =====
-- The handlers. What protobuf and vdf parse is given as values; the names of vdf keys that are
-- missing are `none`.
use galaxy_integration_steam.Prelude.{
  ℕ, ◌+◌, Bool, true, false, ◌&&◌, not, List, [], ◌∷◌, ◌++◌, map, Option, none, some, String, ◌==◌,
  ltb, if◌then◌else◌, any, filter, length,
}
use galaxy_integration_steam.Prelude.Keys.{◌=?◌, nat_eq, string_eq, contains, set_add}
use galaxy_integration_steam.Wire.Packet.{account_id_mask}
use galaxy_integration_steam.Games.Defs.{
  GamesCache, SteamLicense, update_packages, update_license_apps, update_app_title,
  start_packages_import, reset_storing_map, get_resolved_packages,
}

-- CMsgClientLicenseList.License, the fields that are read
pub record LicenseMessage : Type 0 where
  pub package_id : ℕ
  pub flags : ℕ
  pub owner_id : ℕ
  pub access_token : ℕ

-- `license.package_id in licenses_to_check` compares a number with named tuples, which are never
-- equal to one.
abbrev pub number_is_license : ℕ → SteamLicense → Bool
number_is_license n s = false

-- One round of the loop over the licenses, on the list so far; `none` is the `TypeError` of
-- `None - _ACCOUNT_ID_MASK`. That `owner_id` is the confirmed id less the mask is tested with the
-- mask on the other side.
unfoldable pub check_license :
    Option ℕ → LicenseMessage → List SteamLicense → Option (List SteamLicense)
check_license confirmed l acc =
    if l.flags == 520 then some acc else if l.package_id == 0 then some acc else elim confirmed [
      | none ↦ none
      | some own ↦
          if l.owner_id + account_id_mask == own
          then some (
              acc
              ++ record { id_ = l.package_id; access_token = l.access_token; shared = false } ∷ [])
          else if any (number_is_license l.package_id) acc
          then some acc
          else some (
              acc
              ++ record { id_ = l.package_id; access_token = l.access_token; shared = true } ∷ [])
    ]

unfoldable pub check_licenses :
    Option ℕ → List LicenseMessage → List SteamLicense → Option (List SteamLicense)
check_licenses confirmed [] acc = some acc
check_licenses confirmed (l ∷ ls) acc = elim (check_license confirmed l acc) [
  | none ↦ none
  | some acc' ↦ check_licenses confirmed ls acc'
]

-- _process_license_list, up to the call of the handler
unfoldable pub process_license_list : Option ℕ → List LicenseMessage → Option (List SteamLicense)
process_license_list confirmed ls = check_licenses confirmed ls []

-- set([...])
abbrev pub to_set : List ℕ → List ℕ
to_set [] = []
to_set (x ∷ xs) = set_add x (to_set xs)

abbrev pub subset : List ℕ → List ℕ → Bool
subset [] ys = true
subset (x ∷ xs) ys = let rest = subset xs ys in if contains x ys then rest else false

abbrev pub ids : List SteamLicense → List ℕ
ids ss = map (λ s. s.id_) ss

abbrev pub cached_ids : GamesCache → List ℕ
cached_ids c = map (λ l. l.package_id) c.licenses

-- package_ids != self._games_cache.get_package_ids()
abbrev pub same_packages : GamesCache → List SteamLicense → Bool
same_packages c ss = subset (ids ss) (cached_ids c) && subset (cached_ids c) (ids ss)

abbrev pub big_library : ℕ
big_library = 12000

abbrev pub not_resolved : GamesCache → List SteamLicense → List SteamLicense
not_resolved c ss = filter (λ s. not (contains s.id_ (get_resolved_packages c))) ss

-- _license_import_handler: the new cache, and the licenses whose packages are asked for.
unfoldable pub license_import_handler :
    List SteamLicense → GamesCache → GamesCache × List SteamLicense
license_import_handler ss c =
    if ltb (length (to_set (ids ss))) big_library && not (same_packages c ss)
    then (start_packages_import ss (reset_storing_map c), ss)
    else (start_packages_import (not_resolved c ss) c, not_resolved c ss)

-- A package of the answer: its id, and its app ids where the vdf has the package.
pub record PackageInfo : Type 0 where
  pub packageid : ℕ
  pub appids : Option (List ℕ)

-- An app of the answer: `common` is its type in lower case and its name, where both are there;
-- `extended` is that section, if there, with its `dlcforappid`.
pub record AppInfo : Type 0 where
  pub appid : ℕ
  pub common : Option (String × String)
  pub extended : Option (Option ℕ)

-- The apps of a package go to the cache one by one.
unfoldable pub add_apps : ℕ → List ℕ → GamesCache → Option GamesCache
add_apps p [] c = some c
add_apps p (a ∷ as') c = elim (update_license_apps p a c) [
  | none ↦ none
  | some d ↦ add_apps p as' d
]

-- One package of `product_info_handler`: the cache, and the apps to ask for.
unfoldable pub handle_package : PackageInfo → GamesCache → Option (GamesCache × List ℕ)
handle_package info c = elim (update_packages c) [
  | none ↦ none
  | some d ↦ elim info.appids [
    | none ↦ some (d, [])
    | some as' ↦ elim (add_apps info.packageid as' d) [ none ↦ none | some e ↦ some (e, as') ]
  ]
]

-- `_app_info_handler` with a title: it is passed on unless the title or the type is empty.
unfoldable pub app_info_handler : ℕ → String → String → Option ℕ → GamesCache → Option GamesCache
app_info_handler appid title type_ parent c =
    if not (title =? "") && not (type_ =? "")
    then update_app_title appid title type_ parent c
    else some c

-- One app of `product_info_handler`. A `KeyError` on the way stores it as unknown.
unfoldable pub handle_app : AppInfo → GamesCache → Option GamesCache
unfolding app_info_handler
handle_app info c = elim info.common [
  | none ↦ app_info_handler info.appid "unknown" "unknown" none c
  | some (type_, title) ↦ elim info.extended [
    | none ↦ app_info_handler info.appid title type_ none c
    | some parent ↦
        if type_ =? "dlc"
        then elim parent [
          | none ↦ app_info_handler info.appid "unknown" "unknown" none c
          | some p ↦ app_info_handler info.appid title type_ (some p) c
        ]
        else app_info_handler info.appid title type_ none c
  ]
]

unfoldable pub handle_packages : List PackageInfo → GamesCache → Option (GamesCache × List ℕ)
handle_packages [] c = some (c, [])
handle_packages (i ∷ is) c = elim (handle_package i c) [
  | none ↦ none
  | some (d, as') ↦ elim (handle_packages is d) [ none ↦ none | some (e, bs) ↦ some (e, as' ++ bs) ]
]

unfoldable pub handle_apps : List AppInfo → GamesCache → Option GamesCache
handle_apps [] c = some c
handle_apps (i ∷ is) c = elim (handle_app i c) [ none ↦ none | some d ↦ handle_apps is d ]

-- _process_product_info_response: the cache, and the apps that are asked for next.
unfoldable pub product_info :
    List PackageInfo → List AppInfo → GamesCache → Option (GamesCache × List ℕ)
unfolding handle_packages handle_apps
product_info ps as' c = elim (handle_packages ps c) [
  | none ↦ none
  | some (d, wanted) ↦ elim (handle_apps as' d) [ none ↦ none | some e ↦ some (e, wanted) ]
]
