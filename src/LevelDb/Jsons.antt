-- ===== src/LevelDb/Jsons.antt =====
-- src/leveldb_parser.py: `_retrieve_jsons` and `parse_leveldb`. `raw_decode` is the JSON decoder's: a
-- value, and where it ends.
use galaxy_integration_steam.Prelude.{
  ℕ, zero, suc, ◌+◌, Bool, true, false, ◌&&◌, List, [], ◌∷◌, Option, none, some, ltb, leb,
  if◌then◌else◌, length, drop, Result, ok, err, ◌>>=◌, or_raise,
}
use galaxy_integration_steam.Prelude.Text.{Text, codes}
use galaxy_integration_steam.LevelDb.Defs.{
  Entry, Loaded, LoadError, fresh_collections, load_collections,
}
use galaxy_integration_steam.LevelDb.Log.{
  find, Encoding, utf_8, utf_16, Stop, out_of_fuel, raised, Section,
  find_last_meta_miniprofile_pair,
}

-- A position at which the loop of `_retrieve_jsons` stops: past the end, if that is not 0.
abbrev pub is_past : ℕ → ℕ → Bool
is_past stop p = ltb 0 stop && leb stop p

abbrev pub next_position : ℕ → Option (Entry × ℕ) → ℕ
next_position p none = suc p
next_position p (some (e, n)) = p + n

abbrev pub decoded : Option (Entry × ℕ) → List Entry → List Entry
decoded none es = es
decoded (some (e, n)) es = e ∷ es

abbrev pub or_length : Option ℕ → Text → ℕ
or_length none log = length log
or_length (some n) log = n

abbrev pub is_utf_8 : Encoding → Bool
is_utf_8 utf_8 = true
is_utf_8 utf_16 = false

module _ (raw_decode : Text → Option (Entry × ℕ)) where
  unfoldable pub jsons_from : Text → ℕ → ℕ → ℕ → Option (List Entry)
  unfolding find
  jsons_from log stop zero parse = none
  jsons_from log stop (suc fuel) parse = elim (find (codes "{") log parse) [
    | none ↦ some []
    | some p ↦
        let d = raw_decode (drop p log) in
        let rest = jsons_from log stop fuel (next_position p d) in
        if is_past stop p
        then some []
        else elim rest [ none ↦ none | some es ↦ some (decoded d es) ]
  ]

  -- `_retrieve_jsons`. The start is a position, so it is not -1.
  unfoldable pub retrieve_jsons : Text → ℕ → Option ℕ → Option (List Entry)
  unfolding jsons_from
  retrieve_jsons log start end_ =
      let stop = or_length end_ log in
      let fuel = suc (suc (length log)) in
      if ltb stop start then jsons_from log start fuel stop else jsons_from log stop fuel start

  unfoldable pub entries_in : Text → Section → Result Stop (List Entry)
  unfolding retrieve_jsons
  entries_in log s = or_raise (retrieve_jsons log s.start s.stop) out_of_fuel

  -- The log is read a second time, in the other encoding.
  unfoldable pub read_again : ℕ → Option Text → Result Stop (List Entry)
  unfolding find_last_meta_miniprofile_pair entries_in
  read_again i log_utf_16 = do
    log ← or_raise log_utf_16 raised
    s ← find_last_meta_miniprofile_pair i log
    entries_in log s

  -- The `try` of `parse_leveldb`. A log that cannot be read, or is not there, raises.
  unfoldable pub read_entries : ℕ → Option Text → Option Text → Result Stop (List Entry)
  unfolding find_last_meta_miniprofile_pair entries_in read_again
  read_entries i log_utf_8 log_utf_16 = do
    log ← or_raise log_utf_8 raised
    s ← find_last_meta_miniprofile_pair i log
    if is_utf_8 s.encoding then entries_in log s else read_again i log_utf_16

-- LevelDbParser: `_collections` and `_lvl_db_available`.
pub record Parser : Type 0 where
  pub collections : List Loaded
  pub lvl_db_available : Option Bool

abbrev pub set_collections : Parser → Result LoadError (List Loaded) → Result LoadError Parser
set_collections p (err e) = err e
set_collections p (ok []) = ok p
set_collections p (ok (l ∷ ls)) = ok (record p { collections = l ∷ ls })

-- `parse_leveldb` after its `try`: `none` is the fuel; an exception of `json.loads` leaves the parser as
-- it then is.
unfoldable pub finish :
    (Text → Option Loaded)
    → Parser
    → Result Stop (List Entry)
    → Option (Parser × Result LoadError Parser)
unfolding load_collections fresh_collections
finish loads p (err out_of_fuel) = none
finish loads p (err raised) = let q = record p { lvl_db_available = some false } in some (q, ok q)
finish loads p (ok es) =
    let q = record p { lvl_db_available = some true } in
    some (q, set_collections q (load_collections loads (fresh_collections es)))

unfoldable pub parse_leveldb :
    (Text → Option (Entry × ℕ))
    → (Text → Option Loaded)
    → ℕ
    → Option Text
    → Option Text
    → Parser
    → Option (Parser × Result LoadError Parser)
unfolding read_entries finish
parse_leveldb raw_decode loads i log_utf_8 log_utf_16 p =
    finish loads p (read_entries raw_decode i log_utf_8 log_utf_16)
