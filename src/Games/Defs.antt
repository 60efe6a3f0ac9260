-- ===== src/Games/Defs.antt =====
-- `GamesCache` of src/steam_network/games_cache.py. Package ids and app ids are kept by the cache as
-- decimal text; the model keeps the number, and where the code compares such a text with a number
-- the two are told apart by `IdText`. The cache is not changed by other tasks while a generator
-- runs over it.
use galaxy_integration_steam.Prelude.{
  ℕ, Bool, true, false, not, ◌&&◌, List, [], ◌∷◌, ◌++◌, map, Option, none, some, String, ◌==◌,
  if◌then◌else◌, filter, any,
}
use galaxy_integration_steam.Prelude.Keys.{◌=?◌, nat_eq, string_eq, contains, set_add}
use galaxy_integration_steam.Prelude.Dict.{Dict, get, has, put}
use galaxy_integration_steam.Prelude.Int.{ℤ, pos, ◌+ℤ◌, ◌-ℤ◌}

pub record App : Type 0 where
  pub appid : ℕ
  pub title : String
  pub type_ : String
  pub parent : Option ℕ

pub record License : Type 0 where
  pub package_id : ℕ
  pub shared : Bool
  pub app_ids : List ℕ

-- `SteamLicense` of protobuf_client.py, with the fields of the message that the cache reads.
pub record SteamLicense : Type 0 where
  pub id_ : ℕ
  pub access_token : ℕ
  pub shared : Bool

-- The cache with its `LicensesCache` and `ParsingStatus`; `ready` is the event.
pub record GamesCache : Type 0 where
  pub licenses : List License
  pub apps : Dict ℕ App
  pub sent_apps : List App
  pub apps_added : List App
  pub add_game_lever : Bool
  pub packages_to_parse : Option ℤ
  pub apps_to_parse : Option ℤ
  pub ready : Bool

-- A number, or its decimal text: in Python the two are never equal.
pub data IdText : Type 0 where
  number : ℕ → IdText
  text : ℕ → IdText

abbrev pub same_id : IdText → IdText → Bool
same_id (number a) (number b) = a == b
same_id (text a) (text b) = a == b
same_id _ _ = false

abbrev pub id_in : IdText → List IdText → Bool
id_in a ids = any (same_id a) ids

unfoldable pub same_parent : Option ℕ → Option ℕ → Bool
same_parent none none = true
same_parent (some a) (some b) = a == b
same_parent _ _ = false

-- `==` of the dataclass.
unfoldable pub same_app : App → App → Bool
same_app a b =
    a.appid == b.appid && a.title =? b.title && a.type_ =? b.type_ && same_parent a.parent b.parent

-- _update_ready_state
abbrev pub is_zero : Option ℤ → Bool
is_zero (some (pos n)) = n == 0
is_zero _ = false

unfoldable pub update_ready_state : GamesCache → GamesCache
update_ready_state c =
    if is_zero c.packages_to_parse && is_zero c.apps_to_parse
    then (if c.ready then c else record c { ready = true })
    else record c { ready = false }

-- The storing map is dropped; what was counted and sent stays.
unfoldable pub reset_storing_map : GamesCache → GamesCache
reset_storing_map c = record c { licenses = []; apps = [] }

unfoldable pub get_package_ids : GamesCache → List IdText
get_package_ids c = map (λ l. text l.package_id) c.licenses

-- The licenses that `start_packages_import` adds, given the ids that are known: each is compared by
-- its number.
unfoldable pub fresh_licenses : List IdText → List SteamLicense → List License
fresh_licenses known [] = []
fresh_licenses known (s ∷ ss) =
    let rest = fresh_licenses known ss in
    if id_in (number s.id_) known
    then rest
    else record { package_id = s.id_; shared = s.shared; app_ids = [] } ∷ rest

abbrev pub count {ℓ} : {A : Type ℓ} → List A → ℤ
count [] = pos 0
count (x ∷ xs) = count xs +ℤ pos 1

unfoldable pub start_packages_import : List SteamLicense → GamesCache → GamesCache
unfolding get_package_ids
start_packages_import steam_licenses c =
    let added = fresh_licenses (get_package_ids c) steam_licenses in
    update_ready_state (record c {
      licenses = c.licenses ++ added;
      packages_to_parse = some (count added);
      apps_to_parse = some (pos 0);
    })

-- consume_added_games
unfoldable pub consume_added_games : GamesCache → GamesCache × List App
consume_added_games c = (
  record c { sent_apps = c.sent_apps ++ c.apps_added; apps_added = [] },
  filter (λ a. a.type_ =? "game") c.apps_added,
)

-- get_resolved_packages
unfoldable pub is_resolved : GamesCache → License → Bool
is_resolved c l = elim l.app_ids [
  | [] ↦ false
  | x ∷ xs ↦ not (any (λ a. not (has a c.apps)) (x ∷ xs))
]

unfoldable pub get_resolved_packages : GamesCache → List ℕ
get_resolved_packages c = map (λ l. l.package_id) (filter (is_resolved c) c.licenses)

-- `x -= 1` and `x += 1` on a counter; on `None` Python raises `TypeError`.
abbrev pub shift : (ℤ → ℤ) → Option ℤ → Option ℤ
shift f none = none
shift f (some z) = some (f z)

-- update_packages; `none` is the `TypeError`, which leaves the cache as it was.
unfoldable pub update_packages : GamesCache → Option GamesCache
update_packages c = elim c.packages_to_parse [
  | none ↦ none
  | some z ↦ some (update_ready_state (record c { packages_to_parse = some (z -ℤ pos 1) }))
]

-- license.app_ids.add(appid), for every license of the package
unfoldable pub add_app : ℕ → ℕ → License → License
add_app package_id appid l =
    if l.package_id == package_id then record l { app_ids = set_add appid l.app_ids } else l

-- update_license_apps
unfoldable pub update_license_apps : ℕ → ℕ → GamesCache → Option GamesCache
update_license_apps package_id appid c = elim c.apps_to_parse [
  | none ↦ none
  | some z ↦ some (record c {
    apps_to_parse = some (z +ℤ pos 1);
    licenses = map (add_app package_id appid) c.licenses;
  })
]

-- One step down for each license that holds the app.
unfoldable pub count_down : ℕ → List License → Option ℤ → Option ℤ
count_down appid [] z = z
count_down appid (l ∷ ls) z =
    count_down appid ls (if contains appid l.app_ids then shift (λ n. n -ℤ pos 1) z else z)

-- A counter that is `None` is only an error where a license holds the app.
unfoldable pub held : ℕ → List License → Bool
held appid ls = any (λ l. contains appid l.app_ids) ls

-- update_app_title
unfoldable pub update_app_title : ℕ → String → String → Option ℕ → GamesCache → Option GamesCache
update_app_title appid title type_ parent c =
    let new_app : App = record { appid = appid; title = title; type_ = type_; parent = parent } in
    let next : GamesCache = update_ready_state (record c {
      apps_to_parse = count_down appid c.licenses c.apps_to_parse;
      apps = put appid new_app c.apps;
      apps_added =
          if c.add_game_lever && not (any (same_app new_app) c.sent_apps)
          then c.apps_added ++ new_app ∷ []
          else c.apps_added;
    }) in
    elim c.apps_to_parse [
      | none ↦ if held appid c.licenses then none else some next
      | some _ ↦ some next
    ]

-- The ids of src/steam_network/w3_hack.py.
abbrev pub witcher_3_dlcs_app_ids : List ℕ
witcher_3_dlcs_app_ids = 355880 ∷ 378648 ∷ 378649 ∷ []

-- What __consume_resolved_apps yields of one app id, and whether it notes the app as sent.
unfoldable pub yields : GamesCache → String → ℕ → Option (App × Bool)
yields c apptype appid = elim (get appid c.apps) [
  | none ↦ none
  | some app ↦
      if app.type_ =? apptype
      then some (app, true)
      else if apptype =? "game" && app.type_ =? "dlc" && contains appid witcher_3_dlcs_app_ids
      then some (app, false)
      else none
]

unfoldable pub yielded : GamesCache → String → List ℕ → List (App × Bool)
unfolding yields
yielded c apptype [] = []
yielded c apptype (a ∷ as') =
    let rest = yielded c apptype as' in
    elim (yields c apptype a) [ none ↦ rest | some y ↦ y ∷ rest ]

unfoldable pub consumed : GamesCache → Bool → String → List License → List (App × Bool)
consumed c shared apptype [] = []
consumed c shared apptype (l ∷ ls) =
    let rest = consumed c shared apptype ls in
    if (if l.shared then shared else not shared) then yielded c apptype l.app_ids ++ rest else rest

abbrev pub sent_of : List (App × Bool) → List App
sent_of [] = []
sent_of ((a, s) ∷ r) = let rest = sent_of r in if s then a ∷ rest else rest

-- __consume_resolved_apps, run to its end
unfoldable pub consume_resolved_apps : Bool → String → GamesCache → GamesCache × List App
consume_resolved_apps shared apptype c =
    let ys = consumed c shared apptype c.licenses in
    (record c { sent_apps = c.sent_apps ++ sent_of ys }, map (λ y. y.0) ys)

unfoldable pub get_owned_games : GamesCache → GamesCache × List App
get_owned_games = consume_resolved_apps false "game"

unfoldable pub get_dlcs : GamesCache → GamesCache × List App
get_dlcs = consume_resolved_apps false "dlc"

unfoldable pub get_shared_games : GamesCache → GamesCache × List App
get_shared_games = consume_resolved_apps true "game"
