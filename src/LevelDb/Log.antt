-- ===== src/LevelDb/Log.antt =====
-- src/leveldb_parser.py: the entries of the user, found in the text of the log. `raw_decode` is the JSON
-- decoder's: a value, and where it ends.
use galaxy_integration_steam.Prelude.{
  ℕ, zero, suc, ◌+◌, ◌*◌, Bool, true, false, List, [], ◌∷◌, Option, none, some, ltb, if◌then◌else◌,
  length, drop, Result, ok, err, ◌>>=◌,
}
use galaxy_integration_steam.Prelude.Keys.{nat_eq}
use galaxy_integration_steam.Prelude.Text.{Text, codes}
use galaxy_integration_steam.UserInfo.Decimal.{str}
use galaxy_integration_steam.UserInfo.Defs.{is_some}
use galaxy_integration_steam.Friends.Defs.{is_empty}
use galaxy_integration_steam.LevelDb.Defs.{is_prefix}

-- `t.find(s, start)`; `none` is -1. The position counts from the start of the whole text.
abbrev pub find_from : Text → Text → ℕ → Option ℕ
find_from s [] i = if is_empty s then some i else none
find_from s (c ∷ t) i =
    let later = find_from s t (suc i) in if is_prefix s (c ∷ t) then some i else later

unfoldable pub find : Text → Text → ℕ → Option ℕ
find s t start = if ltb (length t) start then none else find_from s (drop start t) start

-- `_find_meta_pairs`: the loop over `find`, from after the last position found.
unfoldable pub find_meta_pairs_from : Text → Text → ℕ → ℕ → Option (List ℕ)
unfolding find
find_meta_pairs_from meta log zero current_pos = none
find_meta_pairs_from meta log (suc fuel) current_pos = elim (find meta log current_pos) [
  | none ↦ some []
  | some p ↦ elim (find_meta_pairs_from meta log fuel (suc p)) [
    | none ↦ none
    | some found ↦ some (p ∷ found)
  ]
]

-- Each round finds a later position of the log.
unfoldable pub find_meta_pairs : Text → Text → Option (List ℕ)
find_meta_pairs meta log = find_meta_pairs_from meta log (suc (suc (length log))) 0

-- `bytes.decode('utf-16-le', errors='ignore')` of bytes below 128: a byte that is left over goes.
abbrev pub utf_16_le : List ℕ → Text
utf_16_le (a ∷ b ∷ bytes) = (a + 256 * b) ∷ utf_16_le bytes
utf_16_le _ = []

pub data Encoding : Type 0 where
  utf_8 utf_16 : Encoding

abbrev pub meta_header : Text
meta_header = codes "META:https://steamloopback.host"

abbrev pub miniprofile_bytes : ℕ → Text
miniprofile_bytes miniprofile_id = 1 ∷ 85 ∷ str miniprofile_id

-- `_prepare_meta_miniprofile_pair`, in its three uses.
abbrev pub pair_utf_8 : ℕ → Text × Text
pair_utf_8 i = (meta_header, miniprofile_bytes i)

abbrev pub pair_utf_16 : Bool → ℕ → Text × Text
pair_utf_16 true i = (utf_16_le meta_header, utf_16_le (miniprofile_bytes i))
pair_utf_16 false i = (utf_16_le (0 ∷ meta_header), utf_16_le (miniprofile_bytes i))

-- Where the reading stops: the fuel of a loop is out, or something is raised.
pub data Stop : Type 0 where
  out_of_fuel raised : Stop

-- The headers with the text of the user, from the first encoding that has any.
abbrev pub or_next :
    Text → Option (List ℕ) → Result Stop (List ℕ × Text) → Result Stop (List ℕ × Text)
or_next user none next = err out_of_fuel
or_next user (some []) next = next
or_next user (some (p ∷ ps)) next = ok (p ∷ ps, user)

abbrev pub last_pair : Text → Option (List ℕ) → Result Stop (List ℕ × Text)
last_pair user none = err out_of_fuel
last_pair user (some found) = ok (found, user)

unfoldable pub found_meta_entries : ℕ → Text → Result Stop (List ℕ × Text)
unfolding find_meta_pairs str
found_meta_entries i log =
    let (m1, u1) = pair_utf_8 i in
    let (m2, u2) = pair_utf_16 false i in
    let (m3, u3) = pair_utf_16 true i in
    or_next u1 (find_meta_pairs m1 log)
      (or_next u2 (find_meta_pairs m2 log) (last_pair u3 (find_meta_pairs m3 log)))

-- Each header with the next one, the last first.
abbrev pub last_first : List ℕ → List (ℕ × Option ℕ) → List (ℕ × Option ℕ)
last_first [] acc = acc
last_first (p ∷ []) acc = (p, none) ∷ acc
last_first (p ∷ q ∷ ps) acc = last_first (q ∷ ps) ((p, some q) ∷ acc)

-- The start and the end of the user's entries; an end of -1 is `none`.
pub record Section : Type 0 where
  pub start : ℕ
  pub stop : Option ℕ
  pub encoding : Encoding

abbrev spaced : Text → Text
spaced [] = []
spaced (c ∷ []) = c ∷ []
spaced (c ∷ d ∷ t) = c ∷ 0 ∷ spaced (d ∷ t)

-- What a header that is not a dummy says of the encoding: `none` is a dummy.
abbrev pub seen_encoding : Text → ℕ → Encoding → Option Encoding
unfolding find
seen_encoding log p encoding =
    if is_some (find (codes "showcases-version") log p)
    then some encoding
    else if is_some (find (spaced (codes "showcases-version")) log p)
    then some utf_16
    else none

abbrev pub section_at : ℕ → Option ℕ → ℕ → Encoding → Section
section_at p none user_id e = record { start = p; stop = none; encoding = e }
section_at p (some next) user_id e = record { start = next; stop = some user_id; encoding = e }

-- The loop over the headers; the encoding is kept from one round to the next.
unfoldable pub user_section : Text → Text → List (ℕ × Option ℕ) → Encoding → Result Stop Section
unfolding find seen_encoding
user_section log user [] encoding = err raised
user_section log user ((p, next) ∷ entries) encoding = elim (seen_encoding log p encoding) [
  | none ↦ user_section log user entries encoding
  | some e ↦ elim (find user log p) [
    | none ↦ user_section log user entries e
    | some user_id ↦ ok (section_at p next user_id e)
  ]
]

-- `_find_last_meta_miniprofile_pair`; that it returns None is raised where the result is taken apart.
unfoldable pub find_last_meta_miniprofile_pair : ℕ → Text → Result Stop Section
unfolding found_meta_entries user_section
find_last_meta_miniprofile_pair i log = do
  (found, user) ← found_meta_entries i log
  user_section log user (last_first found []) utf_8
