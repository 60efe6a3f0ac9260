-- ===== src/Caches/Servers.antt =====
-- `WebSocketCachePersistence` of src/steam_network/websocket_cache_persistence.py: the server that a cell
-- last connected to. The JSON text is a parameter, J, as are its decoder and encoder; what is decoded is
-- null, or an entry for each key. A cell is a number for `write` and a text for `read`. Times are in
-- seconds.
use galaxy_integration_steam.Prelude.{
  ℕ, ◌+◌, ◌*◌, ◌≡◌, ◌↔◌, ap, Bool, true, false, Option, none, some, arith, if◌then◌else◌, ltb,
  Result, ok, err, map,
}
use galaxy_integration_steam.Prelude.Keys.{Eq, ◌=?◌, nat_eq}
use galaxy_integration_steam.Prelude.Text.{Text, list_eq}
use galaxy_integration_steam.Prelude.Dict.{Dict, get, put}
use galaxy_integration_steam.UserInfo.Decimal.{str}

pub data Key : Type 0 where
  text : Text → Key
  number : ℕ → Key

abbrev key_beq : Key → Key → Bool
key_beq (text s) (text t) = s =? t
key_beq (number i) (number j) = i =? j
key_beq (text s) (number j) = false
key_beq (number i) (text t) = false

abbrev or_text : Text → Key → Text
or_text t (text s) = s
or_text t (number i) = t

pub key_beq_iff : (a b : Key) → (key_beq a b ≡ true) ↔ (a ≡ b)
key_beq_iff (text s) (text t) =
    (λ h. ap text ((list_eq.beq_iff s t).0 h), λ p. (list_eq.beq_iff s t).1 (ap (or_text s) p))
key_beq_iff (number i) (number j) = ground (arith, nat_eq.beq_iff i j)
key_beq_iff (text s) (number j) = ground arith
key_beq_iff (number i) (text t) = ground arith

instance abbrev pub key_eq : Eq Key
key_eq = record { beq = key_beq; beq_iff = key_beq_iff }

-- An entry of a cell, whose fields may be missing.
pub record Entry : Type 0 where
  pub server : Option Text
  pub timeout : Option ℕ

pub data CacheError : Type 0 where
  type_error json_error : CacheError

-- The JSON encoder, and the decoder: `none` is a `JSONDecodeError`, and then there is null.
pub record Codec (J : Type 0) : Type 0 where
  pub dumps : Dict Key Entry → J
  pub loads : J → Option (Option (Dict Text Entry))

-- The persistent cache: the text under 'websocket_cache', whether 'servers_cache' is in it, and the flag
-- `modified` of its state.
pub record Persistent (J : Type 0) : Type 0 where
  pub websocket_cache : Option J
  pub has_servers_cache : Bool
  pub modified : Bool

-- CACHE_ENTRY_TIMEOUT_DAYS * SECONDS_IN_A_DAY
abbrev pub thirty_days : ℕ
thirty_days = 30 * 86400

-- `_validate_cache` of an entry that is there, and the server.
abbrev pub valid_server : ℕ → Option Text → Option ℕ → Option Text
valid_server now none timeout = none
valid_server now (some server) none = none
valid_server now (some server) (some timeout) = if ltb timeout now then none else some server

abbrev pub server_of : ℕ → Option Entry → Option Text
server_of now none = none
server_of now (some e) = valid_server now e.server e.timeout

module _ {J : Type 0} (codec : Codec J) where
  -- `_deserialize_cache`
  unfoldable pub deserialize_cache : Option J → Option (Option (Dict Text Entry))
  deserialize_cache none = some none
  deserialize_cache (some j) = codec.loads j

  abbrev pub read_cell : ℕ → ℕ → Option (Option (Dict Text Entry)) → Option Text
  read_cell cell now none = none
  read_cell cell now (some none) = none
  read_cell cell now (some (some cache)) = server_of now (get (str cell) cache)

  -- `read`, which answers None for whatever is raised.
  unfoldable pub read : ℕ → ℕ → Persistent J → Option Text
  unfolding deserialize_cache
  read cell now p = read_cell cell now (deserialize_cache p.websocket_cache)

  -- The keys that are decoded are texts.
  abbrev pub by_text : Dict Text Entry → Dict Key Entry
  by_text = map (λ (p : Text × Entry). (text p.0, p.1))

  abbrev pub stored : ℕ → Text → ℕ → Dict Text Entry → Dict Key Entry
  stored cell server now cache =
      put (number cell) (record { server = some server; timeout = some (now + thirty_days) })
        (by_text cache)

  -- null has no items to set.
  unfoldable pub write_cache :
      ℕ
      → Text
      → ℕ
      → Persistent J
      → Option (Option (Dict Text Entry))
      → Persistent J × Result CacheError (Unit {0})
  write_cache cell server now p none = (p, err json_error)
  write_cache cell server now p (some none) = (p, err type_error)
  write_cache cell server now p (some (some cache)) = (
    record p {
      websocket_cache = some (codec.dumps (stored cell server now cache));
      modified = true;
    },
    ok tt,
  )

  -- `write`, with `_clean_up_servers_cache`
  unfoldable pub write : ℕ → Text → ℕ → Persistent J → Persistent J × Result CacheError (Unit {0})
  unfolding write_cache deserialize_cache
  write cell server now p =
      write_cache cell server now (record p { has_servers_cache = false })
        (deserialize_cache p.websocket_cache)
