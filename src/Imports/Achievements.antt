-- ===== src/Imports/Achievements.antt =====
-- The achievements of a game: `_process_user_stats_response` of
-- src/steam_network/protocol/protobuf_client.py, `_stats_handler` of src/steam_network/protocol_client.py,
-- and what src/backend_steam_network.py makes of the cache. `strip` is Python's.
use galaxy_integration_steam.Prelude.{
  ℕ, suc, ◌+◌, ◌*◌, List, [], ◌∷◌, ◌++◌, Option, none, some, ltb, if◌then◌else◌, Result, ok, err,
  ◌>>=◌, or_raise,
}
use galaxy_integration_steam.Prelude.Int.{ℤ, sub_ℕ}
use galaxy_integration_steam.Prelude.Keys.{nat_eq}
use galaxy_integration_steam.Prelude.Text.{Text, codes, list_eq}
use galaxy_integration_steam.Prelude.Dict.{Dict, get}
use galaxy_integration_steam.UserInfo.Decimal.{str}
use galaxy_integration_steam.Friends.Defs.{is_empty}
use galaxy_integration_steam.Imports.Defs.{GameStats, StatsCache, update_stats}

-- What `vdf.binary_loads` gives: numbers, texts, and dictionaries.
mutual
  pub data Schema : Type 0 where
    number : ℕ → Schema
    text : Text → Schema
    node : Fields → Schema

  pub data Fields : Type 0 where
    nil : Fields
    field : Text → Schema → Fields → Fields

abbrev pub fields : Fields → Dict Text Schema
fields nil = []
fields (field k v d) = (k, v) ∷ fields d

pub data SchemaError : Type 0 where
  key_error type_error value_error : SchemaError

-- `d[k]`; a number or a text has no such item.
abbrev pub item : Text → Schema → Result SchemaError Schema
item k (node d) = or_raise (get k (fields d)) key_error
item k _ = err type_error

-- `name['english']`, or the name itself where it is no dictionary.
abbrev pub english : Schema → Result SchemaError Schema
english (node d) = or_raise (get (codes "english") (fields d)) key_error
english name = ok name

unfoldable pub get_achievement_name : Schema → ℕ → Result SchemaError Schema
get_achievement_name block bit_no = do
  bits ← item (codes "bits") block
  bit ← item (str bit_no) bits
  display ← item (codes "display") bit
  name ← item (codes "name") display
  english name

pub record Unlocked : Type 0 where
  pub id : ℤ
  pub unlock_time : ℕ
  pub name : Schema

pub record Block : Type 0 where
  pub achievement_id : ℕ
  pub unlock_time : List ℕ

abbrev pub unlock : ℕ → ℕ → ℕ → Schema → Unlocked
unlock block i t name = record { id = sub_ℕ (32 * block + i) 32; unlock_time = t; name = name }

-- A KeyError of the schema passes the bit over, another error ends the handler.
abbrev pub add_bit :
    ℕ
    → ℕ
    → ℕ
    → Result SchemaError Schema
    → Result SchemaError (List Unlocked)
    → Result SchemaError (List Unlocked)
add_bit block i t (ok name) rest = do us ← rest; ok (unlock block i t name ∷ us)
add_bit block i t (err key_error) rest = rest
add_bit block i t (err e) rest = err e

-- The loop over `enumerate(achievement_block.unlock_time)`.
unfoldable pub unlocked_bits : ℕ → Schema → ℕ → List ℕ → Result SchemaError (List Unlocked)
unfolding get_achievement_name
unlocked_bits block schema i [] = ok []
unlocked_bits block schema i (t ∷ ts) =
    let rest = unlocked_bits block schema (suc i) ts in
    if ltb 0 t then add_bit block i t (get_achievement_name schema i) rest else rest

-- `schema[game_id]['stats'][block_id]`
unfoldable pub block_schema : Text → Schema → ℕ → Result SchemaError Schema
block_schema game_id schema block = do
  game ← item game_id schema
  stats ← item (codes "stats") game
  item (str block) stats

unfoldable pub bits_of : Block → Result SchemaError Schema → Result SchemaError (List Unlocked)
unfolding unlocked_bits
bits_of b (ok schema) = unlocked_bits b.achievement_id schema 0 b.unlock_time
bits_of b (err key_error) = ok []
bits_of b (err e) = err e

unfoldable pub unlocked_blocks : Text → Schema → List Block → Result SchemaError (List Unlocked)
unfolding bits_of block_schema
unlocked_blocks game_id schema [] = ok []
unlocked_blocks game_id schema (b ∷ bs) = do
  us ← bits_of b (block_schema game_id schema b.achievement_id)
  vs ← unlocked_blocks game_id schema bs
  ok (us ++ vs)

-- `_stats_handler`: the ValueError is the cache's, for a game that it does not wait for.
unfoldable pub stats_handler :
    {S : Type 0}
    → ℕ
    → S
    → List Block
    → Schema
    → StatsCache S (List Unlocked)
    → Result SchemaError (StatsCache S (List Unlocked))
unfolding unlocked_blocks update_stats
stats_handler game_id stats blocks schema c = do
  us ← unlocked_blocks (str game_id) schema blocks
  or_raise (update_stats game_id stats us c) value_error

-- `get_unlocked_achievements` of the backend.
pub record Achievement : Type 0 where
  pub unlock_time : ℕ
  pub achievement_name : Text

module _ (strip : Text → Text) where
  -- The blanks around a name go, unless there is nothing else in it.
  unfoldable pub shown_name : Text → Text
  shown_name name = if is_empty (strip name) then name else strip name

  -- `strip` of what is no text is an AttributeError, an error of the type.
  unfoldable pub named : ℕ → Schema → Result SchemaError Achievement
  unfolding shown_name
  named t (text name) = ok (record { unlock_time = t; achievement_name = shown_name name })
  named t _ = err type_error

  unfoldable pub achievements : List Unlocked → Result SchemaError (List Achievement)
  unfolding named
  achievements [] = ok []
  achievements (u ∷ us) = do a ← named u.unlock_time u.name; rest ← achievements us; ok (a ∷ rest)

  unfoldable pub stored_achievements :
      {S : Type 0} → Option (GameStats S (List Unlocked)) → Result SchemaError (List Achievement)
  unfolding achievements
  stored_achievements none = ok []
  stored_achievements (some g) = elim g.achievements [ none ↦ ok [] | some us ↦ achievements us ]

  unfoldable pub get_unlocked_achievements :
      {S : Type 0} → ℕ → StatsCache S (List Unlocked) → Result SchemaError (List Achievement)
  unfolding stored_achievements
  get_unlocked_achievements game_id c = stored_achievements (get game_id c.info)
