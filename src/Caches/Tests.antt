-- ===== src/Caches/Tests.antt =====
-- Runs of the small caches.
use galaxy_integration_steam.Prelude.{
  ◌≡◌, refl, ℕ, true, false, List, [], ◌∷◌, Option, none, some, ok, err,
}
use galaxy_integration_steam.Prelude.Text.{Text, codes}
use galaxy_integration_steam.Prelude.Dict.{Dict}
use galaxy_integration_steam.UserInfo.Decimal.{str}
use galaxy_integration_steam.Caches.Servers.{Entry, type_error, Codec, Persistent, read, write}
use galaxy_integration_steam.Caches.Written.{merge}
use galaxy_integration_steam.Caches.Entries.{
  Fingerprint, Classes, Cache, as_dict, from_dict, value_error,
}
use galaxy_integration_steam.Prelude.Keys.{nat_eq}
use galaxy_integration_steam.Prelude.Text.{list_eq}
use galaxy_integration_steam.UserInfo.Base64.{encode, decode, digit, value}
use galaxy_integration_steam.Caches.Machine.{MachineCache, start}

-- The text is what is decoded.
abbrev plain : Codec (Option (Dict Text Entry))
plain = record { dumps = λ d. some (merge d []); loads = λ j. some j }

abbrev no_cache : Persistent (Option (Dict Text Entry))
no_cache = record { websocket_cache = none; has_servers_cache = true; modified = false }

-- An entry that has expired.
abbrev old_cache : Persistent (Option (Dict Text Entry))
old_cache = record no_cache {
  websocket_cache =
      some (some ((codes "7", record { server = some (codes "old"); timeout = some 5 }) ∷ []));
}

-- With no cache yet nothing can be written.
nothing_stored : (write plain 7 (codes "new") 100 no_cache).1 ≡ err type_error
unfolding write
nothing_stored = refl

expired : read plain 7 100 old_cache ≡ none
unfolding read str
expired = refl

written :
    write plain 7 (codes "new") 100 old_cache
    ≡ ((write plain 7 (codes "new") 100 old_cache).0, ok tt)
unfolding write
written = refl

-- An achievement is a number; a dictionary is a list of numbers.
abbrev lists : Classes ℕ (List ℕ)
lists = record {
  asdict = λ a. a ∷ [];
  achievement = λ d. elim d [ [] ↦ none | a ∷ _ ↦ some a ];
  fingerprint_asdict = λ fp. fp.time_played ∷ [];
  read_fingerprint = λ d. elim d [
    | [] ↦ none
    | t ∷ _ ↦ some (record { time_played = t; last_played_time = none })
  ];
}

abbrev played_twice : Fingerprint
played_twice = record { time_played = 90; last_played_time = none }

abbrev one_game : Cache ℕ
one_game = (codes "570", record { value = 4 ∷ 5 ∷ []; fingerprint = played_twice }) ∷ []

cache_kept : from_dict lists (as_dict lists one_game []) [] ≡ ok one_game
unfolding from_dict as_dict
cache_kept = refl

item_missing :
    from_dict lists ((codes "570", record { achievements = none; fingerprint = some [] }) ∷ []) []
    ≡ err value_error
unfolding from_dict
item_missing = refl

abbrev no_id : MachineCache
no_id = record { machine_id = none; modified = false }

first_start : (start (1 ∷ 2 ∷ 250 ∷ 7 ∷ []) no_id).1 ≡ some (1 ∷ 2 ∷ 250 ∷ 7 ∷ [])
unfolding start encode decode digit value
first_start = refl
