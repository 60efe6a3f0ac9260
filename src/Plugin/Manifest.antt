-- ===== src/Plugin/Manifest.antt =====
-- `prepare_local_size_context` and `get_local_size` of src/plugin.py, with `StateFlags` of src/client.py.
use galaxy_integration_steam.Prelude.{
  ℕ, ◌+◌, ◌-◌, ◌*◌, ◌/◌, ◌%◌, Bool, true, false, not, ◌&&◌, ◌||◌, List, [], ◌∷◌, Option, none, some,
  if◌then◌else◌, ltb, leb, ◌==◌, Result, ok, err, ◌>>=◌, or_raise,
}
use galaxy_integration_steam.Prelude.Int.{ℤ, pos, negsuc}
use galaxy_integration_steam.Prelude.Keys.{nat_eq}
use galaxy_integration_steam.Prelude.Text.{Text, codes, list_eq}
use galaxy_integration_steam.Prelude.Dict.{Dict, get, put}
use galaxy_integration_steam.UserInfo.Decimal.{is_digit}
use galaxy_integration_steam.Friends.Defs.{is_empty}
use galaxy_integration_steam.Local.Folders.{
  Vdf, text, node, Machine, ClientError, type_error, value_error, item, get_library_folders,
  get_app_manifests, app_id_from_manifest_path,
}

-- `int(s)` of Python on ASCII: blanks around, a sign, and `_` between digits.
abbrev pub is_space : ℕ → Bool
is_space c = leb 9 c && leb c 13 || leb 28 c && leb c 32

abbrev pub strip_start : Text → Text
strip_start [] = []
strip_start (c ∷ cs) = let rest = strip_start cs in if is_space c then rest else c ∷ cs

abbrev pub strip_end : Text → Text
strip_end [] = []
strip_end (c ∷ cs) = let rest = strip_end cs in if is_space c && is_empty rest then [] else c ∷ rest

-- `after_digit` holds where the number may end and a `_` may come.
abbrev pub digits : Bool → ℕ → Text → Option ℕ
digits after_digit acc [] = if after_digit then some acc else none
digits after_digit acc (c ∷ cs) =
    let further = digits false acc cs in
    let more = digits true (acc * 10 + (c - 48)) cs in
    if is_digit c then more else if c == 95 && after_digit then further else none

abbrev positive : Option ℕ → Option ℤ
positive none = none
positive (some n) = some (pos n)

abbrev negative : Option ℕ → Option ℤ
negative none = none
negative (some n) = some (if n == 0 then pos 0 else negsuc (n - 1))

abbrev pub signed : Text → Option ℤ
signed [] = none
signed (c ∷ cs) =
    if c == 45
    then negative (digits false 0 cs)
    else if c == 43
    then positive (digits false 0 cs)
    else positive (digits false 0 (c ∷ cs))

unfoldable pub int_of : Text → Option ℤ
int_of s = signed (strip_end (strip_start s))

-- The members of `StateFlags` are the bits 0 to 12 and 16 to 23; another bit is a ValueError. A
-- negative number is the complement of its own complement.
unfoldable pub are_state_flags : ℕ → Bool
are_state_flags n = ltb n 16777216 && n / 8192 % 8 == 0

-- `StateFlags.FullyInstalled in flags`
abbrev pub is_fully_installed : ℕ → Bool
is_fully_installed n = n / 4 % 2 == 1

unfoldable pub fully_installed : ℤ → Result ClientError Bool
unfolding are_state_flags
fully_installed (pos n) = if are_state_flags n then ok (is_fully_installed n) else err value_error
fully_installed (negsuc n) =
    if are_state_flags n then ok (not (is_fully_installed n)) else err value_error

-- `int(d[k])`; `int` of a dictionary is a TypeError.
unfoldable pub as_int : Vdf → Result ClientError ℤ
unfolding int_of
as_int (text t) = or_raise (int_of t) value_error
as_int (node e) = err type_error

-- The size, from the dictionary "AppState" of a manifest.
unfoldable pub state_size : Vdf → Result ClientError ℤ
unfolding fully_installed as_int
state_size app_state = do
  s ← item (codes "StateFlags") app_state
  flags ← as_int s
  full ← fully_installed flags
  v ← item (if full then codes "SizeOnDisk" else codes "BytesDownloaded") app_state
  as_int v

abbrev pub none_if_raised : Result ClientError ℤ → Option ℤ
none_if_raised (ok n) = some n
none_if_raised (err e) = none

unfoldable pub manifest_size : Machine → Text → Result ClientError ℤ
unfolding state_size
manifest_size m path = do
  manifest ← m.load_vdf path
  app_state ← item (codes "AppState") manifest
  state_size app_state

abbrev pub size_at : Machine → Option Text → Option ℤ
size_at m none = some (pos 0)
size_at m (some path) = none_if_raised (manifest_size m path)

-- `get_local_size`: 0 for a game without a manifest, `none` for whatever is wrong with one.
unfoldable pub get_local_size : Machine → Text → Dict Text Text → Option ℤ
get_local_size m game_id context = size_at m (get game_id context)

abbrev manifest_context : Machine → List Text → Dict Text Text → Dict Text Text
unfolding app_id_from_manifest_path
manifest_context m [] d = d
manifest_context m (path ∷ paths) d =
    manifest_context m paths (put (app_id_from_manifest_path m path) path d)

-- `prepare_local_size_context`; `none` where the fuel of the library folders is out.
unfoldable pub prepare_local_size_context : Machine → Option (Result ClientError (Dict Text Text))
unfolding get_library_folders get_app_manifests manifest_context
prepare_local_size_context m = elim (get_library_folders m) [
  | none ↦ none
  | some (err e) ↦ some (err e)
  | some (ok folders) ↦ some (ok (manifest_context m (get_app_manifests m folders) []))
]
