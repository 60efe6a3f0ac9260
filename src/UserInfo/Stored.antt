-- ===== src/UserInfo/Stored.antt =====
-- `to_dict` and `from_dict`: the credentials that Galaxy stores between runs.
use galaxy_integration_steam.Prelude.{ℕ, ◌≡◌, true, arith, Option, none, some, if◌then◌else◌, All}
use galaxy_integration_steam.Prelude.Text.{Text}
use galaxy_integration_steam.UserInfo.Base64.{encode, decode, decode-encode, IsByte}
use galaxy_integration_steam.UserInfo.Decimal.{str, int, int-str, str-bytes}
use galaxy_integration_steam.UserInfo.Defs.{UserInfo, is_initialized, truthy, is_some}

-- The keys of the stored dictionary, each with its text where the key is there.
pub record Credentials : Type 0 where
  pub steam_id : Option Text
  pub refresh_token : Option Text
  pub account_username : Option Text
  pub persona_name : Option Text

abbrev pub no_credentials : Credentials
no_credentials = record {
  steam_id = none;
  refresh_token = none;
  account_username = none;
  persona_name = none;
}

abbrev pub encoded : Option Text → Option Text
encoded none = none
encoded (some t) = some (encode t)

abbrev pub encoded_id : Option ℕ → Option Text
encoded_id none = none
encoded_id (some n) = some (encode (str n))

unfoldable pub to_dict : UserInfo → Credentials
to_dict u =
    if is_initialized u
    then record {
      steam_id = encoded_id u.steam_id;
      refresh_token = encoded u.refresh_token;
      account_username = encoded u.account_username;
      persona_name = encoded u.persona_name;
    }
    else no_credentials

-- A key that is there is decoded and written, without the setter; `none` is the `ValueError` of a
-- text that does not decode.
unfoldable pub read_text : Option Text → Option Text → Option (Option Text)
read_text none old = some old
read_text (some t) old = elim (decode t) [ none ↦ none | some s ↦ some (some s) ]

unfoldable pub read_id : Option Text → Option ℕ → Option (Option ℕ)
read_id none old = some old
read_id (some t) old = elim (decode t) [
  | none ↦ none
  | some s ↦ elim (int s) [ none ↦ none | some n ↦ some (some n) ]
]

-- from_dict, its four reads in order
unfoldable pub from_dict : Credentials → UserInfo → Option UserInfo
from_dict d u = elim (read_id d.steam_id u.steam_id) [
  | none ↦ none
  | some i ↦ elim (read_text d.account_username u.account_username) [
    | none ↦ none
    | some a ↦ elim (read_text d.persona_name u.persona_name) [
      | none ↦ none
      | some p ↦ elim (read_text d.refresh_token u.refresh_token) [
        | none ↦ none
        | some r ↦
            some
              (record u { steam_id = i; account_username = a; persona_name = p; refresh_token = r })
      ]
    ]
  ]
]

abbrev pub BytesOf : Option Text → Type 0
BytesOf none = Unit
BytesOf (some t) = All IsByte t

-- The texts of the cache are bytes.
pub record IsText (u : UserInfo) : Type 0 where
  pub username_bytes : BytesOf u.account_username
  pub persona_bytes : BytesOf u.persona_name
  pub token_bytes : BytesOf u.refresh_token

read_text-encoded :
    (o old : Option Text) → BytesOf o → truthy o ≡ true → read_text (encoded o) old ≡ some o
unfolding read_text
read_text-encoded none old b h = cc
read_text-encoded (some t) old b h = rw (decode-encode t b, read_text)

read_id-encoded : (o old : Option ℕ) → is_some o ≡ true → read_id (encoded_id o) old ≡ some o
unfolding read_id
read_id-encoded none old h = cc
read_id-encoded (some n) old h =
    rw (decode-encode (str n) (str-bytes n), read_id) (rw (int-str n, read_id))

pub is_initialized-parts :
    (u : UserInfo)
    → is_initialized u ≡ true
    → (is_some u.steam_id ≡ true)
      × (truthy u.account_username ≡ true)
      × (truthy u.persona_name ≡ true)
      × (truthy u.refresh_token ≡ true)
unfolding is_initialized
is_initialized-parts u h = ground arith

-- What an initialized cache stores, a cache of a later run reads back: the same id, username, persona
-- name and refresh token, whatever it held before; its other fields stay.
pub from_dict-to_dict :
    (u v : UserInfo)
    → IsText u
    → is_initialized u ≡ true
    → from_dict (to_dict u) v
      ≡ some (record v {
        steam_id = u.steam_id;
        account_username = u.account_username;
        persona_name = u.persona_name;
        refresh_token = u.refresh_token;
      })
unfolding from_dict to_dict
from_dict-to_dict u v texts ready =
    let (i, a, p, r) = is_initialized-parts u ready in
    ground (
      arith,
      read_id-encoded u.steam_id v.steam_id i,
      read_text-encoded u.account_username v.account_username texts.username_bytes a,
      read_text-encoded u.persona_name v.persona_name texts.persona_bytes p,
      read_text-encoded u.refresh_token v.refresh_token texts.token_bytes r,
    )
