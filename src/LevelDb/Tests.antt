-- ===== src/LevelDb/Tests.antt =====
-- The database of the client on small inputs.
use galaxy_integration_steam.Prelude.{
  filter, ℕ, ◌≤◌, ◌≡◌, refl, true, List, [], ◌∷◌, ◌++◌, Option, none, some, arith, All, any, Result,
  ok, if◌then◌else◌, not, ◌&&◌,
}
use galaxy_integration_steam.Prelude.Keys.{nat_eq}
use galaxy_integration_steam.Prelude.Text.{Text, codes, list_eq}
use galaxy_integration_steam.Prelude.Dict.{Dict}
use galaxy_integration_steam.UserInfo.Decimal.{str}
use galaxy_integration_steam.LevelDb.Defs.{
  Entry, timestamp_of, fresh_collections, number, text, Loaded, unlike, collection, LoadError,
  is_prefix, get_static_collections_tags,
}
use galaxy_integration_steam.LevelDb.Kept.{HasKey, is_listed}
use galaxy_integration_steam.LevelDb.Fresh.{IsLatest, fresh_collections-IsLatest}
use galaxy_integration_steam.LevelDb.Static.{
  tags_in, lacks_id, Gives, get_static_collections_tags-Gives,
}
use galaxy_integration_steam.LevelDb.Dynamic.{
  Groups, Game, parse_dynamic_collections, dynamic_collection_can_be_processed,
}
use galaxy_integration_steam.LevelDb.Matches.{
  is_unsupported, is_supported, dynamic_collection_can_be_processed-any,
}
use galaxy_integration_steam.LevelDb.Log.{find_meta_pairs, find_meta_pairs_from}
use galaxy_integration_steam.LevelDb.Meta.{occurrences, find_meta_pairs-occurrences}
use galaxy_integration_steam.LevelDb.Jsons.{or_length, retrieve_jsons, Parser, parse_leveldb}
use galaxy_integration_steam.LevelDb.Decode.{
  Advances, IsFrom, first_of, last_of, retrieve_jsons-IsFrom,
}
use galaxy_integration_steam.LevelDb.Total.{parse_leveldb-total}

abbrev entry : ℕ → Entry
entry t = record {
  key = some (codes "k");
  timestamp = some t;
  value = some (codes "v");
  is_deleted = none;
}

abbrev entries : List Entry
entries = entry 3 ∷ entry 7 ∷ entry 5 ∷ []

latest_run : fresh_collections entries ≡ entry 7 ∷ []
unfolding fresh_collections
latest_run = refl

abbrev IsInWeek : Entry → Type 0
IsInWeek e = timestamp_of (some e) ≤ 7

fresh_collections-IsLatest_example :
    IsLatest (codes "k") entries (filter (is_listed (codes "k")) (fresh_collections entries))
    × All HasKey (fresh_collections entries)
    × All IsInWeek (fresh_collections entries)
fresh_collections-IsLatest_example =
    fresh_collections-IsLatest entries (codes "k") IsInWeek
      (omega arith, (omega arith, (omega arith, tt)))

abbrev loaded : List Loaded
loaded =
    collection record {
      id = some (codes "favorite");
      name = some (codes "FAVORITES");
      added = some (number 570 ∷ text (codes "440") ∷ []);
      filter_groups = none;
    }
    ∷ unlike
    ∷ collection record {
      id = some (codes "uc-1");
      name = some (codes "Puzzles");
      added = some (number 570 ∷ []);
      filter_groups = some (([]) ∷ (1 ∷ []) ∷ ([]) ∷ ([]) ∷ (9 ∷ []) ∷ []);
    }
    ∷ []

tags_run :
    get_static_collections_tags loaded
    ≡ ok (
        (codes "570", codes "favorite" ∷ codes "Puzzles" ∷ [])
        ∷ (codes "440", codes "favorite" ∷ [])
        ∷ [])
unfolding get_static_collections_tags str
tags_run = refl

-- The id of a user's own collection may be a part of the two names.
part_run :
    get_static_collections_tags (
      collection record {
        id = some (codes "rite");
        name = some (codes "Mine");
        added = some (number 1 ∷ []);
        filter_groups = none;
      }
      ∷ [])
    ≡ ok ((codes "1", codes "rite" ∷ []) ∷ [])
unfolding get_static_collections_tags str
part_run = refl

get_static_collections_tags-Gives_example :
    Gives
      (codes "570")
      (tags_in (codes "570") loaded)
      (lacks_id loaded)
      (get_static_collections_tags loaded)
get_static_collections_tags-Gives_example = get_static_collections_tags-Gives (codes "570") loaded

dynamic_run :
    parse_dynamic_collections loaded
    ≡ (codes "Puzzles", (0, []) ∷ (1, 1 ∷ []) ∷ (2, []) ∷ (3, []) ∷ (4, 9 ∷ []) ∷ []) ∷ []
unfolding parse_dynamic_collections
dynamic_run = refl

-- Categories 9 and 11, and players alone (7).
abbrev groups : Groups
groups = (0, []) ∷ (1, []) ∷ (2, 7 ∷ []) ∷ (3, []) ∷ (4, 9 ∷ 11 ∷ []) ∷ []

abbrev played : Groups
played = (1, 1 ∷ []) ∷ (2, []) ∷ (4, 9 ∷ []) ∷ []

abbrev a_game : Game
a_game = record { tags = 11 ∷ 9 ∷ []; categories = 2 ∷ 22 ∷ [] }

dynamic_collection_can_be_processed-any_example :
    dynamic_collection_can_be_processed groups
    ≡ (not (any is_unsupported groups) && any is_supported groups)
dynamic_collection_can_be_processed-any_example = dynamic_collection_can_be_processed-any groups

abbrev both : Dict Text Groups
both = (codes "Puzzles", groups) ∷ (codes "Played", played) ∷ []

find_meta_pairs-occurrences_example :
    find_meta_pairs (codes "aba") (codes "ababa")
    ≡ some (occurrences 97 (codes "ba") (codes "ababa") 0)
find_meta_pairs-occurrences_example = find_meta_pairs-occurrences 97 (codes "ba") (codes "ababa")

occurrences_run : occurrences 97 (codes "ba") (codes "ababa") 0 ≡ 0 ∷ 2 ∷ []
occurrences_run = refl

-- A decoder of "{}" alone.
abbrev decode : Text → Option (Entry × ℕ)
decode t = if is_prefix (codes "{}") t then some (entry 1, 2) else none

decode-Advances : Advances decode
decode-Advances t e n h = ground (arith, h)

retrieve_jsons-IsFrom_example :
    (es : List Entry) × (retrieve_jsons decode (codes "{}{x{}") 1 none ≡ some es)
    × All
        (IsFrom decode
          (codes "{}{x{}")
          (first_of 1 (or_length none (codes "{}{x{}")))
          (last_of 1 (or_length none (codes "{}{x{}"))))
        es
retrieve_jsons-IsFrom_example = retrieve_jsons-IsFrom decode (codes "{}{x{}") 1 none decode-Advances

-- One section of the user 7, and one entry in it.
abbrev log : Text
log = codes "META:https://steamloopback.host showcases-version " ++ (1 ∷ 85 ∷ 55 ∷ codes "{}")

abbrev loads : Text → Option Loaded
loads t = some unlike

abbrev fresh : Parser
fresh = record { collections = []; lvl_db_available = none }

parse_run :
    parse_leveldb decode loads 7 (some log) none fresh
    ≡ some (
      record { collections = []; lvl_db_available = some true },
      ok record { collections = unlike ∷ []; lvl_db_available = some true },
    )
unfolding parse_leveldb find_meta_pairs_from str
parse_run = refl

parse_leveldb-total_example :
    (r : Parser × Result LoadError Parser) × (parse_leveldb decode loads 7 (some log) none fresh
      ≡ some r)
parse_leveldb-total_example =
    parse_leveldb-total decode decode-Advances loads 7 (some log) none fresh
