-- ===== src/LevelDb/Defs.antt =====
-- src/leveldb_parser.py: what is kept of the entries of the log, and the tags that the collections
-- give to games. The fields of a collection have the types that the Steam client writes.
use galaxy_integration_steam.Prelude.{
  ℕ, Bool, true, false, not, ◌||◌, List, [], ◌∷◌, ◌++◌, Option, none, some, ltb, if◌then◌else◌,
  ◌==◌, Result, ok, err, ◌>>=◌, or_raise,
}
use galaxy_integration_steam.Prelude.Keys.{nat_eq}
use galaxy_integration_steam.Prelude.Text.{Text, codes, list_eq}
use galaxy_integration_steam.Prelude.Dict.{Dict, get, has, put, values}
use galaxy_integration_steam.UserInfo.Decimal.{str}
use galaxy_integration_steam.Friends.Defs.{is_empty}

-- An entry of the log, where it is a dictionary with these keys.
pub record Entry : Type 0 where
  pub key : Option Text
  pub timestamp : Option ℕ
  pub value : Option Text
  pub is_deleted : Option Bool

-- `_collection_is_deleted`
abbrev pub collection_is_deleted : Option Bool → Bool
collection_is_deleted none = false
collection_is_deleted (some b) = b

-- The loop over `collections_list` that keeps the latest entry of each key.
abbrev pub timestamp_of : Option Entry → ℕ
timestamp_of none = 0
timestamp_of (some e) = elim e.timestamp [ none ↦ 0 | some t ↦ t ]

abbrev pub keep : Option Text → Option ℕ → Entry → Dict Text Entry → Dict Text Entry
keep (some k) (some t) e pretenders =
    if not (has k pretenders)
    then put k e pretenders
    else if ltb (timestamp_of (get k pretenders)) t
    then put k e pretenders
    else pretenders
keep _ _ e pretenders = pretenders

abbrev pub pretenders_from : List Entry → Dict Text Entry → Dict Text Entry
pretenders_from [] pretenders = pretenders
pretenders_from (e ∷ es) pretenders = pretenders_from es (keep e.key e.timestamp e pretenders)

unfoldable pub fresh_collections : List Entry → List Entry
fresh_collections es = values (pretenders_from es [])

-- A game of a collection: a number, or a text.
pub data GameId : Type 0 where
  number : ℕ → GameId
  text : Text → GameId

abbrev pub str_game : GameId → Text
str_game (number n) = str n
str_game (text t) = t

-- `filter_groups` are the `rgOptions` of the groups in `filterSpec`.
pub record Collection : Type 0 where
  pub id : Option Text
  pub name : Option Text
  pub added : Option (List GameId)
  pub filter_groups : Option (List (List ℕ))

-- What `json.loads` makes of an entry's value: another value is passed over.
pub data Loaded : Type 0 where
  unlike : Loaded
  collection : Collection → Loaded

pub data LoadError : Type 0 where
  key_error value_error : LoadError

-- `json.loads` of the fresh entries that have a value and are not deleted.
abbrev pub load_value :
    {J : Type 0}
    → (Text → Option J)
    → Bool
    → Option Text
    → Result LoadError (List J)
    → Result LoadError (List J)
load_value loads false (some v) rest = do j ← or_raise (loads v) value_error; js ← rest; ok (j ∷ js)
load_value loads _ _ rest = rest

unfoldable pub load_collections :
    {J : Type 0} → (Text → Option J) → List Entry → Result LoadError (List J)
load_collections loads [] = ok []
load_collections loads (e ∷ es) =
    load_value loads (collection_is_deleted e.is_deleted) e.value (load_collections loads es)

-- `a in b` of texts.
abbrev pub is_prefix : Text → Text → Bool
is_prefix [] t = true
is_prefix (c ∷ cs) [] = false
is_prefix (c ∷ cs) (d ∷ ds) = let rest = is_prefix cs ds in if c == d then rest else false

abbrev pub is_within : Text → Text → Bool
is_within s [] = is_empty s
is_within s (c ∷ t) = is_prefix s (c ∷ t) || is_within s t

-- `('favorite' 'hidden')` is one text.
abbrev pub own_names : Text
own_names = codes "favoritehidden"

abbrev pub collection_name : Option Text → Text → Result LoadError Text
collection_name none name = err key_error
collection_name (some i) name = ok (if is_within i own_names then i else name)

abbrev pub tags_of : Option (List Text) → List Text
tags_of none = []
tags_of (some l) = l

abbrev pub add_tag : Text → Text → Dict Text (List Text) → Dict Text (List Text)
add_tag game tag d = put game (tags_of (get game d) ++ (tag ∷ [])) d

abbrev pub add_tags : List GameId → Text → Dict Text (List Text) → Dict Text (List Text)
add_tags [] tag d = d
add_tags (g ∷ gs) tag d = add_tags gs tag (add_tag (str_game g) tag d)

-- A collection without a name, or with no game, is passed over.
abbrev pub static_tags :
    Option Text
    → Option (List GameId)
    → Option Text
    → Dict Text (List Text)
    → Result LoadError (Dict Text (List Text))
static_tags (some name) (some (g ∷ gs)) i d = do
  tag ← collection_name i name
  ok (add_tags (g ∷ gs) tag d)
static_tags _ _ i d = ok d

abbrev pub loaded_static_tags :
    Loaded → Dict Text (List Text) → Result LoadError (Dict Text (List Text))
loaded_static_tags unlike d = ok d
loaded_static_tags (collection c) d = static_tags c.name c.added c.id d

abbrev pub static_from :
    List Loaded → Dict Text (List Text) → Result LoadError (Dict Text (List Text))
static_from [] d = ok d
static_from (l ∷ ls) d = do d' ← loaded_static_tags l d; static_from ls d'

unfoldable pub get_static_collections_tags : List Loaded → Result LoadError (Dict Text (List Text))
get_static_collections_tags ls = static_from ls []
