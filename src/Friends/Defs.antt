-- ===== src/Friends/Defs.antt =====
-- `ProtoUserInfo` of src/steam_network/protocol/steam_types.py, and `FriendsCache` of
-- src/steam_network/friends_cache.py with its base class `ProtoCache` of cache_proto.py.
use galaxy_integration_steam.Prelude.{
  ℕ, Bool, true, false, not, ◌&&◌, ◌||◌, List, [], ◌∷◌, ◌++◌, Option, none, some, if◌then◌else◌,
  filter,
}
use galaxy_integration_steam.Prelude.Keys.{Eq, nat_eq, contains}
use galaxy_integration_steam.Prelude.Text.{Text, list_eq}
use galaxy_integration_steam.Prelude.Dict.{Dict, get, has, put, pop, keys}
use galaxy_integration_steam.UserInfo.Defs.{differ, is_some}

-- `rich_presence` is the dictionary's pairs, each a key and a value.
pub record ProtoUserInfo : Type 0 where
  pub name : Option Text
  pub avatar_hash : Option Text
  pub state : Option ℕ
  pub game_id : Option ℕ
  pub game_name : Option Text
  pub rich_presence : Option (List (List Text))

abbrev pub no_info : ProtoUserInfo
no_info = record {
  name = none;
  avatar_hash = none;
  state = none;
  game_id = none;
  game_name = none;
  rich_presence = none;
}

-- One field: a value that is there replaces another, and whether it did.
abbrev pub update_field {ℓ} : {A : Type ℓ} → Option A → Option A → Option A
update_field old none = old
update_field old (some v) = some v

abbrev pub field_changes {ℓ} : {A : Type ℓ} ⦃e : Eq A⦄ → Option A → Option A → Bool
field_changes old none = false
field_changes old (some v) = differ old (some v)

-- ProtoUserInfo.update
unfoldable pub update_info : ProtoUserInfo → ProtoUserInfo → ProtoUserInfo
update_info u v = record {
  name = update_field u.name v.name;
  avatar_hash = update_field u.avatar_hash v.avatar_hash;
  state = update_field u.state v.state;
  game_id = update_field u.game_id v.game_id;
  game_name = update_field u.game_name v.game_name;
  rich_presence = update_field u.rich_presence v.rich_presence;
}

unfoldable pub info_changes : ProtoUserInfo → ProtoUserInfo → Bool
info_changes u v =
    field_changes u.name v.name
    || field_changes u.avatar_hash v.avatar_hash
    || field_changes u.state v.state
    || field_changes u.game_id v.game_id
    || field_changes u.game_name v.game_name
    || field_changes u.rich_presence v.rich_presence

pub record AvailableInfo : Type 0 where
  pub personal_info : Bool
  pub state : Bool

pub record FriendsCache : Type 0 where
  pub pending : Dict ℕ AvailableInfo
  pub info : Dict ℕ ProtoUserInfo
  pub ready : Bool
  pub nicknames : Dict Text Text
  pub nicknames_parsed : Bool

-- What the handlers of the cache are called with.
pub data Event : Type 0 where
  added : ℕ → ProtoUserInfo → Event
  removed : ℕ → Event
  updated : ℕ → ProtoUserInfo → Event

abbrev pub is_empty {ℓ} : {A : Type ℓ} → List A → Bool
is_empty [] = true
is_empty (_ ∷ _) = false

-- ProtoCache._update_ready_state
unfoldable pub update_ready_state : FriendsCache → FriendsCache
update_ready_state c = record c { ready = is_empty c.pending }

unfoldable pub add_friend : ℕ → FriendsCache → FriendsCache
add_friend i c = if has i c.info then c else record c {
  pending = put i record { personal_info = false; state = false } c.pending;
  info = put i no_info c.info;
}

unfoldable pub remove_friend : ℕ → FriendsCache → FriendsCache × List Event
remove_friend i c = (
  record c { pending = pop i c.pending; info = pop i c.info },
  if has i c.info && not (has i c.pending) then removed i ∷ [] else [],
)

abbrev pub add_all : List ℕ → FriendsCache → FriendsCache
add_all [] c = c
add_all (i ∷ is) c = add_all is (add_friend i c)

abbrev pub remove_all : List ℕ → FriendsCache → FriendsCache × List Event
remove_all [] c = (c, [])
remove_all (i ∷ is) c =
    let (c', es) = remove_friend i c in let (d, fs) = remove_all is c' in (d, es ++ fs)

-- `_reset`: the sets of ids as lists.
unfoldable pub reset_friends : List ℕ → FriendsCache → FriendsCache × List Event
reset_friends new c =
    let current = keys c.info in
    let (kept, es) = remove_all (filter (λ i. not (contains i new)) current) c in
    (add_all (filter (λ i. not (contains i current)) new) kept, es)

-- ProtoCache.add, remove and reset
unfoldable pub add : ℕ → FriendsCache → FriendsCache
add i c = update_ready_state (add_friend i c)

unfoldable pub remove : ℕ → FriendsCache → FriendsCache × List Event
remove i c = let (c', es) = remove_friend i c in (update_ready_state c', es)

unfoldable pub reset : List ℕ → FriendsCache → FriendsCache × List Event
reset new c = let (c', es) = reset_friends new c in (update_ready_state c', es)

abbrev pub note : ProtoUserInfo → AvailableInfo → AvailableInfo
note v a = record {
  personal_info = a.personal_info || is_some v.name;
  state = a.state || is_some v.state;
}

-- The end of `update` for a friend who is waited for, from what is then known of the friend.
unfoldable pub update_pending :
    ℕ → ProtoUserInfo → AvailableInfo → FriendsCache → FriendsCache × List Event
update_pending i new a c =
    if a.personal_info && a.state
    then (
      update_ready_state (record c { info = put i new c.info; pending = pop i c.pending }),
      added i new ∷ [],
    )
    else (record c { info = put i new c.info; pending = put i a c.pending }, [])

-- FriendsCache.update
unfoldable pub update : ℕ → ProtoUserInfo → FriendsCache → FriendsCache × List Event
update i v c = elim (get i c.info) [
  | none ↦ (c, [])
  | some u ↦ elim (get i c.pending) [
    | none ↦ (
      record c { info = put i (update_info u v) c.info },
      if info_changes u v then updated i (update_info u v) ∷ [] else [],
    )
    | some a ↦ update_pending i (update_info u v) (note v a) c
  ]
]

unfoldable pub update_nicknames : Dict Text Text → FriendsCache → FriendsCache
update_nicknames n c = record c { nicknames = n; nicknames_parsed = true }
