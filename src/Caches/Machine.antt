-- ===== src/Caches/Machine.antt =====
-- `LocalMachineCache` of src/steam_network/local_machine_cache.py, and what `__init__` of `ProtocolClient`
-- in src/steam_network/protocol_client.py does with it. The random bytes of a new id are an input.
use galaxy_integration_steam.Prelude.{
  ℕ, ◌≡◌, ◌∙◌, refl, ap, Bool, true, List, [], ◌∷◌, Option, none, some, arith, All,
}
use galaxy_integration_steam.Prelude.Text.{Text}
use galaxy_integration_steam.UserInfo.Base64.{encode, decode, decode-encode, IsByte}

-- What is kept under 'machine_id', and the flag `modified` of the state of the cache.
pub record MachineCache : Type 0 where
  pub machine_id : Option Text
  pub modified : Bool

abbrev pub or_empty : Option Text → Text
or_empty none = []
or_empty (some t) = t

-- The property; `none` is an error of `b64decode`.
unfoldable pub get_machine_id : MachineCache → Option (List ℕ)
get_machine_id c = decode (or_empty c.machine_id)

-- The setter
unfoldable pub set_machine_id : List ℕ → MachineCache → MachineCache
set_machine_id id c = record c { machine_id = some (encode id); modified = true }

-- The bytes are read again after they have been set.
unfoldable pub ensure_machine_id :
    List ℕ → Option (List ℕ) → MachineCache → MachineCache × Option (List ℕ)
unfolding get_machine_id set_machine_id
ensure_machine_id token none c = (c, none)
ensure_machine_id token (some []) c =
    (set_machine_id token c, get_machine_id (set_machine_id token c))
ensure_machine_id token (some (b ∷ bs)) c = (c, get_machine_id c)

unfoldable pub start : List ℕ → MachineCache → MachineCache × Option (List ℕ)
unfolding ensure_machine_id
start token c = ensure_machine_id token (get_machine_id c) c

pub get_machine_id-set_machine_id :
    (id : List ℕ) (c : MachineCache)
    → All IsByte id
    → get_machine_id (set_machine_id id c) ≡ some id
unfolding get_machine_id set_machine_id
get_machine_id-set_machine_id id c h = decode-encode id h

-- Once a start has an id that is not empty, the next start has the same one, with whatever random bytes.
pub start-start :
    (token token' : List ℕ) (c : MachineCache) (b : ℕ) (bs : List ℕ)
    → (start token c).1 ≡ some (b ∷ bs)
    → (start token' (start token c).0).1 ≡ some (b ∷ bs)
unfolding start ensure_machine_id
start-start token token' c b bs h = next (get_machine_id c) refl h
  where
    again :
        (d : MachineCache)
        → get_machine_id d ≡ some (b ∷ bs)
        → (ensure_machine_id token' (get_machine_id d) d).1 ≡ some (b ∷ bs)
    again d p = ap (λ o. (ensure_machine_id token' o d).1) p ∙ p

    next :
        (o : Option (List ℕ))
        → get_machine_id c ≡ o
        → (ensure_machine_id token o c).1 ≡ some (b ∷ bs)
        → (ensure_machine_id token'
            (get_machine_id (ensure_machine_id token o c).0)
            (ensure_machine_id token o c).0).1
          ≡ some (b ∷ bs)
    next none p h = ground (arith, h)
    next (some []) p h = again (set_machine_id token c) h
    next (some (x ∷ xs)) p h = again c h
