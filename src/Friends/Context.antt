-- ===== src/Friends/Context.antt =====
-- The presence of a user: `prepare_user_presence_context` and `get_user_presence` of
-- src/backend_steam_network.py.
use galaxy_integration_steam.Prelude.{
  ℕ, ◌≡◌, ◌∙◌, refl, ap, Bool, true, false, List, [], ◌∷◌, Option, none, some, arith, if◌then◌else◌,
  ◌==◌, Result, ok, err, ◌>>=◌, map, Bool-cases, inl, inr,
}
use galaxy_integration_steam.Prelude.Keys.{nat_eq, contains}
use galaxy_integration_steam.Prelude.Text.{Text, list_eq}
use galaxy_integration_steam.Prelude.Dict.{Dict, get, get-put}
use galaxy_integration_steam.UserInfo.Decimal.{str, int-str}
use galaxy_integration_steam.Friends.Defs.{ProtoUserInfo, FriendsCache}
use galaxy_integration_steam.Friends.Presence.{
  Token, Patterns, Shown, UserPresence, presence_from_user_info,
}
use galaxy_integration_steam.Friends.Listing.{
  ListingError, unknown_user, put_info, get_friends_info,
}
use galaxy_integration_steam.Friends.Listed.{str-equal}

-- The dictionary of the pairs.
abbrev pub params_of : List (List Text) → Dict Text Text
params_of [] = []
params_of ((key ∷ value ∷ _) ∷ ps) = (key, value) ∷ params_of ps
params_of (_ ∷ ps) = params_of ps

abbrev pub rich_presence_of : Option (List (List Text)) → Option (Dict Text Text)
rich_presence_of none = none
rich_presence_of (some pairs) = some (params_of pairs)

abbrev pub shown_info : ProtoUserInfo → Shown
shown_info info = record {
  state = info.state;
  game_id = info.game_id;
  game_name = info.game_name;
  rich_presence = rich_presence_of info.rich_presence;
}

unfoldable pub prepare_user_presence_context :
    FriendsCache → List Text → Result ListingError (Dict Text ProtoUserInfo)
prepare_user_presence_context c user_ids = get_friends_info c user_ids []

module _ (re : Patterns) (translations : Dict ℕ (Option (List Token))) where
  abbrev pub presence_of : Option ProtoUserInfo → Result ListingError UserPresence
  presence_of none = err unknown_user
  presence_of (some info) = ok (presence_from_user_info re translations (shown_info info))

  unfoldable pub get_user_presence :
      Text → Dict Text ProtoUserInfo → Result ListingError UserPresence
  get_user_presence user_id context = presence_of (get user_id context)

abbrev or_else : {A : Type 0} → Option A → Option A → Option A
or_else none b = b
or_else (some a) b = some a

get-put_info :
    (i j : ℕ) (o : Option ProtoUserInfo) (d : Dict Text ProtoUserInfo)
    → get (str i) (put_info (str j) o d)
      ≡ (if j == i then or_else o (get (str i) d) else get (str i) d)
get-put_info i j none d = ground arith
get-put_info i j (some info) d =
    get-put (str j) (str i) info d
    ∙ ap (λ b. if b then some info else get (str i) d) (str-equal j i)

or_else-twice : {A : Type 0} (o q : Option A) → or_else o (or_else o q) ≡ or_else o q
or_else-twice none q = refl
or_else-twice (some a) q = refl

-- What is looked up for an id.
abbrev looked_up : FriendsCache → ℕ → Bool → Option ProtoUserInfo → Option ProtoUserInfo
looked_up c i asked old = if asked then or_else (get i c.info) old else old

looked_up-cons :
    (c : FriendsCache) (i j : ℕ) (is : List ℕ) (old : Option ProtoUserInfo)
    → looked_up c i (contains i is) (if j == i then or_else (get j c.info) old else old)
      ≡ looked_up c i (contains i (j ∷ is)) old
looked_up-cons c i j is old = elim (Bool-cases (j == i)) [
  | inl same ↦ ground (
    arith,
    same,
    ap (λ k. get k c.info) ((nat_eq.beq_iff j i).0 same),
    or_else-twice (get i c.info) old,
  )
  | inr differ ↦ ground (arith, differ)
]

infos_at :
    (c : FriendsCache) (i : ℕ) (is : List ℕ) (d : Dict Text ProtoUserInfo)
    → (d' : Dict Text ProtoUserInfo) × (get_friends_info c (map str is) d ≡ ok d')
      × (get (str i) d' ≡ looked_up c i (contains i is) (get (str i) d))
unfolding get_friends_info
infos_at c i [] d = (d, refl, refl)
infos_at c i (j ∷ is) d =
    let (d', done, found) = infos_at c i is (put_info (str j) (get j c.info) d) in
    (
      d',
      rw (int-str j, get_friends_info) done,
      found
          ∙ ap (looked_up c i (contains i is)) (get-put_info i j (get j c.info) d)
          ∙ looked_up-cons c i j is (get (str i) d),
    )

-- With the context that is prepared for some users, the presence of one of them is made of what the
-- cache has of the user. Who is not a friend, or was not asked for, is an unknown user.
pub get_user_presence-prepared :
    (re : Patterns) (translations : Dict ℕ (Option (List Token))) (c : FriendsCache) (is : List ℕ)
    (i : ℕ)
    → (prepare_user_presence_context c (map str is) >>= get_user_presence re translations (str i))
      ≡ presence_of re translations (if contains i is then get i c.info else none)
unfolding prepare_user_presence_context get_user_presence
get_user_presence-prepared re translations c is i =
    let (d', done, found) = infos_at c i is [] in
    ap (λ r. r >>= get_user_presence re translations (str i)) done
    ∙ ap (presence_of re translations) (found ∙ asked (contains i is) (get i c.info))
  where
    asked :
        (b : Bool) (o : Option ProtoUserInfo)
        → (if b then or_else o none else none) ≡ (if b then o else none)
    asked true none = refl
    asked true (some v) = refl
    asked false o = refl
