-- ===== src/Friends/Relations.antt =====
-- Whom the cache holds after a message about relationships.
use galaxy_integration_steam.Prelude.{
  ℕ, ◌≡◌, ◌∙◌, ap, sym, refl, Bool, true, false, List, [], ◌∷◌, ◌++◌, arith, Option, none, some,
  if◌then◌else◌, ◌==◌, ok, append_assoc, append-nil,
}
use galaxy_integration_steam.Prelude.Keys.{nat_eq, contains}
use galaxy_integration_steam.Prelude.Dict.{Dict, get, has}
use galaxy_integration_steam.Friends.Defs.{
  FriendsCache, add, remove, remove_friend, update_ready_state,
}
use galaxy_integration_steam.Friends.Tracking.{has-reset, has-add_friend, has-pop, same_test}
use galaxy_integration_steam.Friends.Messages.{
  set_persona_state, get_friends_statuses, get_user_infos, friend, no_relationship, relate,
  relationship_handler, after_relate,
}

-- The ids of the friends in a list of relationships.
abbrev pub friends_of : Dict ℕ ℕ → List ℕ
friends_of [] = []
friends_of ((i, r) ∷ d) = let rest = friends_of d in if r == friend then i ∷ rest else rest

-- Somebody is listed who is no friend any more.
abbrev pub drops : Dict ℕ ℕ → Bool
drops [] = false
drops ((i, r) ∷ d) = let rest = drops d in if r == no_relationship then true else rest

relate-whole :
    (d : Dict ℕ ℕ) (initial : List ℕ) (c : FriendsCache)
    → drops d ≡ false
    → relate false d initial [] c ≡ (c, [], ok (initial ++ friends_of d, []))
unfolding relate
relate-whole [] initial c h = ap (λ l. (c, [], ok (l, []))) (sym (append-nil initial))
relate-whole ((i, r) ∷ d) initial c h = ground (
  arith,
  h,
  relate-whole d (initial ++ i ∷ []) c,
  relate-whole d initial c,
  append_assoc initial (i ∷ []) (friends_of d),
)

-- A whole list in which nobody is marked as no friend: the cache then holds exactly the friends of the
-- list, and asks for the infos of exactly these.
pub has-relationship_handler :
    (d : Dict ℕ ℕ) (k : ℕ) (c : FriendsCache)
    → drops d ≡ false
    → (has k (relationship_handler false d c).0.info ≡ contains k (friends_of d))
      × ((relationship_handler false d c).2
          ≡ ok (set_persona_state ∷ get_friends_statuses ∷ get_user_infos (friends_of d) ∷ []))
unfolding relationship_handler after_relate
has-relationship_handler d k c h =
    let whole = relate-whole d [] c h in
    (
      ap (λ o. has k (after_relate false o).0.info) whole ∙ has-reset (friends_of d) k c,
      ap (λ o. (after_relate false o).2) whole,
    )

-- What a change of relationships says of one user.
abbrev pub afterwards : Option ℕ → Bool → Bool
afterwards none before = before
afterwards (some r) before =
    if r == friend then true else if r == no_relationship then false else before

abbrev pub IsUnique : Dict ℕ ℕ → Type 0
IsUnique [] = Unit
IsUnique ((i, r) ∷ d) = (has i d ≡ false) × IsUnique d

-- A change of relationships, which names each user once: a user marked as friend is in the cache, a user marked as none is not,
-- and of all others the cache says what it said before.
pub has-relate :
    (d : Dict ℕ ℕ) (k : ℕ) (initial new : List ℕ) (c : FriendsCache)
    → IsUnique d
    → has k (relate true d initial new c).0.info ≡ afterwards (get k d) (has k c.info)
unfolding relate add remove update_ready_state remove_friend
has-relate [] k initial new c u = refl
has-relate ((i, r) ∷ d) k initial new c u = ground (
  arith,
  has-relate d k initial (new ++ i ∷ []) (add i c) u.1,
  has-relate d k initial new (remove i c).0 u.1,
  has-relate d k initial new c u.1,
  has-add_friend i k c,
  has-pop i k c.info,
  same_test (λ j. has j d) i k,
  u.0,
)
