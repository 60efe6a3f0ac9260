-- ===== src/Friends/Listed.antt =====
-- Galaxy gets every friend, once and in the order of the cache.

use galaxy_integration_steam.Prelude.{
  ℕ, ◌≡◌, ◌∙◌, refl, ap, sym, true, false, [], ◌∷◌, ◌++◌, Option, none, some, arith, ok, ◌>>=◌, map,
  All, append_assoc, append-nil, Bool-cases, inl, inr,
}
use galaxy_integration_steam.Prelude.Keys.{◌=?◌, nat_eq}
use galaxy_integration_steam.Prelude.Text.{Text, codes, list_eq}
use galaxy_integration_steam.Prelude.Dict.{
  Dict, get, has, keys, HasUniqueKeys, put-fresh, has-append_one,
}
use galaxy_integration_steam.UserInfo.Decimal.{str, int, int-str}
use galaxy_integration_steam.UserInfo.Defs.{is_some}
use galaxy_integration_steam.Friends.Defs.{ProtoUserInfo, FriendsCache}
use galaxy_integration_steam.Friends.Listing.{
  get_friends_info, hex, avatar_url_from_avatar_hash, GalaxyUser, galaxy_user_info, add_nickname,
  galaxy_users, get_friends,
}

str-injective : (i j : ℕ) → str i ≡ str j → i ≡ j
str-injective i j h = ground (arith, int-str i, int-str j, ap int h)

str-differ : (i j : ℕ) → (i =? j) ≡ false → (str i =? str j) ≡ false
str-differ i j h = elim (Bool-cases (str i =? str j)) [
  | inl same ↦ absurd (
      ground (
        arith,
        h,
        (nat_eq.beq_iff i j).1 (str-injective i j ((list_eq.beq_iff (str i) (str j)).0 same)),
      ))
  | inr differ ↦ differ
]

pub str-equal : (i j : ℕ) → (str i =? str j) ≡ (i =? j)
str-equal i j = elim (Bool-cases (i =? j)) [
  | inl same ↦ (list_eq.beq_iff (str i) (str j)).1 (ap str ((nat_eq.beq_iff i j).0 same)) ∙ sym same
  | inr differ ↦ str-differ i j differ ∙ sym differ
]

abbrev pub Infos : Type 0
Infos = Dict ℕ ProtoUserInfo

-- The keys are texts.
abbrev by_text : Infos → Dict Text ProtoUserInfo
by_text = map (λ (p : ℕ × ProtoUserInfo). (str p.0, p.1))

abbrev IsPartOf : Infos → Infos → Type 0
IsPartOf info = All (λ (p : ℕ × ProtoUserInfo). get p.0 info ≡ some p.1)

abbrev IsFreshIn : Dict Text ProtoUserInfo → Infos → Type 0
IsFreshIn r = All (λ (p : ℕ × ProtoUserInfo). has (str p.0) r ≡ false)

IsPartOf-cons :
    (k : ℕ) (v : ProtoUserInfo) (info d : Infos)
    → IsPartOf info d
    → has k d ≡ false
    → IsPartOf ((k, v) ∷ info) d
IsPartOf-cons k v info [] h p = tt
IsPartOf-cons k v info ((j, w) ∷ d) (h, hs) p = (
  ground (arith, h, p, nat_eq.beq_iff k j, nat_eq.beq_iff j k),
  IsPartOf-cons k v info d hs (ground (arith, p)),
)

unique-IsPartOf : (d : Infos) → HasUniqueKeys d → IsPartOf d d
unique-IsPartOf [] h = tt
unique-IsPartOf ((k, v) ∷ d) (h, hs) =
    (ground (arith, nat_eq.beq_iff k k), IsPartOf-cons k v d d (unique-IsPartOf d hs) h)

nothing-IsFresh : (d : Infos) → IsFreshIn [] d
nothing-IsFresh [] = tt
nothing-IsFresh (p ∷ d) = (refl, nothing-IsFresh d)

IsFreshIn-append_one :
    (k : ℕ) (v : ProtoUserInfo) (r : Dict Text ProtoUserInfo) (d : Infos)
    → IsFreshIn r d
    → has k d ≡ false
    → IsFreshIn (r ++ (str k, v) ∷ []) d
IsFreshIn-append_one k v r [] h p = tt
IsFreshIn-append_one k v r ((j, w) ∷ d) (h, hs) p = (
  has-append_one (str j) (str k) v r h
      (str-differ k j (ground (arith, p, nat_eq.beq_iff k j, nat_eq.beq_iff j k))),
  IsFreshIn-append_one k v r d hs (ground (arith, p)),
)

infos-eq :
    (c : FriendsCache) (d : Infos) (r : Dict Text ProtoUserInfo)
    → IsPartOf c.info d
    → HasUniqueKeys d
    → IsFreshIn r d
    → get_friends_info c (map str (keys d)) r ≡ ok (r ++ by_text d)
unfolding get_friends_info
infos-eq c [] r part unique fresh = ap ok (sym (append-nil r))
infos-eq c ((k, v) ∷ d) r (found, part) (new, unique) (fresh, freshes) =
    rw (int-str k, get_friends_info) rw found rw (put-fresh (str k) v r fresh)
      (infos-eq c d (r ++ (str k, v) ∷ []) part unique (IsFreshIn-append_one k v r d freshes new)
        ∙ ap ok (append_assoc r ((str k, v) ∷ []) (by_text d)))

-- A friend with a name and an avatar.
abbrev pub IsKnown : ℕ × ProtoUserInfo → Type 0
IsKnown (i, info) = (is_some info.name ≡ true) × (is_some info.avatar_hash ≡ true)

abbrev pub or_empty : Option Text → Text
or_empty none = []
or_empty (some t) = t

abbrev pub named : Option Text → Text → Text
named none name = name
named (some nickname) name = name ++ codes " (" ++ nickname ++ codes ")"

-- The user that a friend is for Galaxy.
abbrev pub shown : Dict Text Text → ℕ × ProtoUserInfo → GalaxyUser
shown nicknames (i, info) = record {
  user_id = str i;
  user_name = some (named (get (str i) nicknames) (or_empty info.name));
  avatar_url = avatar_url_from_avatar_hash (hex (or_empty info.avatar_hash));
  profile_url = codes "https://steamcommunity.com/profiles/" ++ str i;
}

user-eq :
    (i : ℕ) (nickname name avatar_hash : Option Text)
    → is_some name ≡ true
    → is_some avatar_hash ≡ true
    → (galaxy_user_info (str i) name avatar_hash >>= λ user.
        add_nickname nickname user user.user_name)
      ≡ ok (record {
        user_id = str i;
        user_name = some (named nickname (or_empty name));
        avatar_url = avatar_url_from_avatar_hash (hex (or_empty avatar_hash));
        profile_url = codes "https://steamcommunity.com/profiles/" ++ str i;
      })
unfolding galaxy_user_info add_nickname
user-eq i nickname none h p q = ground (arith, p)
user-eq i nickname (some name) none p q = ground (arith, q)
user-eq i none (some name) (some h) p q = refl
user-eq i (some nickname) (some name) (some h) p q = refl

users-eq :
    (nicknames : Dict Text Text) (d : Infos)
    → All IsKnown d
    → galaxy_users nicknames (by_text d) ≡ ok (map (shown nicknames) d)
unfolding galaxy_users
users-eq nicknames [] h = refl
users-eq nicknames ((i, info) ∷ d) ((p, q), hs) = ground (
  arith,
  user-eq i (get (str i) nicknames) info.name info.avatar_hash p q,
  users-eq nicknames d hs,
)

-- Once the user is known, and each friend's name and avatar, Galaxy gets each friend of the cache once,
-- in the order of the cache: its id, its name with the nickname in brackets where there is one, and the
-- addresses of its avatar and profile. The cache is a dictionary, whose keys are different.
pub get_friends-shown :
    (me : ℕ) (c : FriendsCache)
    → HasUniqueKeys c.info
    → All IsKnown c.info
    → get_friends (some me) c ≡ ok (map (shown c.nicknames) c.info)
unfolding get_friends
get_friends-shown me c unique known =
    rw (infos-eq c c.info [] (unique-IsPartOf c.info unique) unique (nothing-IsFresh c.info))
      (users-eq c.nicknames c.info known)
