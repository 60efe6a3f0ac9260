-- ===== src/Caches/Written.antt =====
-- What is written for a cell is read again.
use galaxy_integration_steam.Prelude.{
  ℕ, ◌+◌, ◌≤◌, ◌≡◌, ◌∙◌, refl, ap, sym, false, [], ◌∷◌, Option, none, some, arith, if◌then◌else◌,
  Result, ok, map,
}
use galaxy_integration_steam.Prelude.Keys.{nat_eq}
use galaxy_integration_steam.Prelude.Text.{Text, list_eq}
use galaxy_integration_steam.Prelude.Dict.{Dict, get, put, get-put}
use galaxy_integration_steam.UserInfo.Decimal.{str}
use galaxy_integration_steam.Caches.Servers.{
  Key, text, number, key_eq, Entry, CacheError, Codec, Persistent, thirty_days, deserialize_cache,
  read_cell, server_of, read, stored, write_cache, write,
}

-- The name of a key in JSON.
abbrev pub name_of : Key → Text
name_of (text s) = s
name_of (number i) = str i

-- The dictionary that JSON gives back: a number has become a text, and of two items with one name the
-- later counts.
abbrev pub merge : Dict Key Entry → Dict Text Entry → Dict Text Entry
merge [] r = r
merge ((k, e) ∷ d) r = merge d (put (name_of k) e r)

-- What `json.loads(json.dumps(d))` gives.
abbrev pub IsInverse : {J : Type 0} → Codec J → Type 0
IsInverse codec = (d : Dict Key Entry) → codec.loads (codec.dumps d) ≡ some (some (merge d []))

-- A number is a new key among the texts, and comes last.
get-merge :
    (cell : ℕ) (e : Entry) (d r : Dict Text Entry)
    → get (str cell) (merge (put (number cell) e (map (λ (p : Text × Entry). (text p.0, p.1)) d)) r)
      ≡ some e
get-merge cell e [] r =
    get-put (str cell) (str cell) e r
    ∙ ap (λ b. if b then some e else get (str cell) r)
        ((list_eq.beq_iff (str cell) (str cell)).1 refl)
get-merge cell e ((t, v) ∷ d) r = get-merge cell e d (put t v r)

module _ {J : Type 0} (codec : Codec J) where
  read-write_cache :
      (inverse : IsInverse codec) (cell : ℕ) (server : Text) (now later : ℕ) (p q : Persistent J)
      → (o : Option (Option (Dict Text Entry))) → write_cache codec cell server now p o ≡ (q, ok tt)
      → later ≤ now + thirty_days
      → read codec cell later q ≡ some server
  unfolding write_cache read deserialize_cache
  read-write_cache inverse cell server now later p q none h early = ground (arith, h)
  read-write_cache inverse cell server now later p q (some none) h early = ground (arith, h)
  read-write_cache inverse cell server now later p q (some (some cache)) h early =
      ap (read codec cell later)
        (sym (ap (λ (x : Persistent J × Result CacheError (Unit {0})). x.0) h))
      ∙ ap (read_cell codec cell later) (inverse (stored codec cell server now cache))
      ∙ ap (server_of later) (get-merge cell _ cache [])
      ∙ ground (arith, early)

  -- A server that has been stored for a cell is read again for thirty days, whatever was stored before,
  -- the same cell included. JSON is relied on: what is encoded is decoded, with the names of the keys
  -- for keys, of which the last counts.
  pub read-write :
      (inverse : IsInverse codec) (cell : ℕ) (server : Text) (now later : ℕ) (p q : Persistent J)
      → write codec cell server now p ≡ (q, ok tt)
      → later ≤ now + thirty_days
      → read codec cell later q ≡ some server
  unfolding write
  read-write inverse cell server now later p q h early =
      read-write_cache inverse cell server now later (record p { has_servers_cache = false }) q
        (deserialize_cache codec p.websocket_cache) h early
