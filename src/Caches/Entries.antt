-- ===== src/Caches/Entries.antt =====
-- src/cache.py, and `as_dict` and `from_dict` of src/achievements_cache.py. The fields of an achievement
-- are Galaxy's: `asdict` and the constructor from a dictionary are parameters. D is the type of such a
-- dictionary, A of achievements.
use galaxy_integration_steam.Prelude.{
  ℕ, List, [], ◌∷◌, Option, none, some, if◌then◌else◌, Result, ok, err, ◌>>=◌, map,
}
use galaxy_integration_steam.Prelude.Keys.{Eq, ◌=?◌, nat_eq}
use galaxy_integration_steam.Prelude.Text.{Text, list_eq}
use galaxy_integration_steam.Prelude.Dict.{Dict, get, put}

-- `CacheEntry`
pub record CacheEntry (V F : Type 0) : Type 0 where
  pub value : V
  pub fingerprint : F

abbrev pub value_of : {V F : Type 0} ⦃f : Eq F⦄ → F → Option (CacheEntry V F) → Option V
value_of fingerprint none = none
value_of fingerprint (some entry) =
    if entry.fingerprint =? fingerprint then some entry.value else none

module _ {K V F : Type 0} ⦃e : Eq K⦄ where
  -- `Cache.get`
  unfoldable pub get_value : ⦃f : Eq F⦄ → K → F → Dict K (CacheEntry V F) → Option V
  get_value key fingerprint c = value_of fingerprint (get key c)

  -- `Cache.update`
  unfoldable pub update_value : K → V → F → Dict K (CacheEntry V F) → Dict K (CacheEntry V F)
  update_value key value fingerprint c =
      put key (record { value = value; fingerprint = fingerprint }) c

-- `Fingerprint`
pub record Fingerprint : Type 0 where
  pub time_played : ℕ
  pub last_played_time : Option ℕ

-- What is stored for a game; an item may be missing.
pub record Stored (D : Type 0) : Type 0 where
  pub achievements : Option (List D)
  pub fingerprint : Option D

-- `none` is an exception of a constructor.
pub record Classes (A D : Type 0) : Type 0 where
  pub asdict : A → D
  pub achievement : D → Option A
  pub fingerprint_asdict : Fingerprint → D
  pub read_fingerprint : D → Option Fingerprint

pub data StoreError : Type 0 where
  value_error : StoreError

abbrev pub Cache : Type 0 → Type 0
Cache A = Dict Text (CacheEntry (List A) Fingerprint)

module _ {A D : Type 0} (classes : Classes A D) where
  abbrev pub as_stored : CacheEntry (List A) Fingerprint → Stored D
  as_stored entry = record {
    achievements = some (map classes.asdict entry.value);
    fingerprint = some (classes.fingerprint_asdict entry.fingerprint);
  }

  -- `as_dict`, whose keys are new
  unfoldable pub as_dict : Cache A → Dict Text (Stored D) → Dict Text (Stored D)
  as_dict [] d = d
  as_dict ((key, entry) ∷ c) d = as_dict c (put key (as_stored entry) d)

  abbrev pub or_raise : {B : Type 0} → Option B → Result StoreError B
  or_raise none = err value_error
  or_raise (some b) = ok b

  abbrev pub read_achievements : List D → Result StoreError (List A)
  read_achievements [] = ok []
  read_achievements (d ∷ ds) = do
    a ← or_raise (classes.achievement d)
    rest ← read_achievements ds
    ok (a ∷ rest)

  unfoldable pub read_stored : Stored D → Result StoreError (CacheEntry (List A) Fingerprint)
  read_stored s = do
    items ← or_raise s.achievements
    achievements ← read_achievements items
    item ← or_raise s.fingerprint
    fingerprint ← or_raise (classes.read_fingerprint item)
    ok (record { value = achievements; fingerprint = fingerprint })

  -- `from_dict`, with the cache so far
  unfoldable pub from_dict : Dict Text (Stored D) → Cache A → Result StoreError (Cache A)
  unfolding read_stored update_value
  from_dict [] c = ok c
  from_dict ((key, s) ∷ d) c = do
    entry ← read_stored s
    from_dict d (update_value key entry.value entry.fingerprint c)
