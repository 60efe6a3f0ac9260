-- ===== src/Friends/Messages.antt =====
-- `_process_client_friend_list` of src/steam_network/protocol/protobuf_client.py, and
-- `_relationship_handler` of src/steam_network/protocol_client.py.
use galaxy_integration_steam.Prelude.{
  ℕ, Bool, true, false, List, [], ◌∷◌, ◌++◌, if◌then◌else◌, ◌==◌, leb, Result, ok, err,
}
use galaxy_integration_steam.Prelude.Keys.{nat_eq}
use galaxy_integration_steam.Prelude.Dict.{Dict, put}
use galaxy_integration_steam.Wire.SteamId
use galaxy_integration_steam.Friends.Defs.{FriendsCache, Event, add, remove, reset}

pub data FriendsError : Type 0 where
  value_error assertion_error struct_error : FriendsError

-- EAccountType.Individual, EFriendRelationship.None_ and EFriendRelationship.Friend
abbrev pub individual : ℕ
individual = 1

abbrev pub no_relationship : ℕ
no_relationship = 0

abbrev pub friend : ℕ
friend = 3

-- The entries of a message, an id and a relationship each, as the dictionary that the handler gets.
-- `EFriendRelationship(n)` raises on a number above 7.
unfoldable pub friend_list : List (ℕ × ℕ) → Dict ℕ ℕ → Result FriendsError (Dict ℕ ℕ)
friend_list [] d = ok d
friend_list ((i, r) ∷ es) d =
    let next = friend_list es (put i r d) in
    let rest = friend_list es d in
    elim (SteamId.parse i) [
      | err e ↦ err struct_error
      | ok details ↦
          if details.type_ == individual then (if leb r 7 then next else err value_error) else rest
    ]

-- What the handler sends to Steam.
pub data Message : Type 0 where
  set_persona_state : Message
  get_friends_statuses : Message
  get_user_infos : List ℕ → Message

abbrev pub Outcome : Type 0
Outcome = FriendsCache × List Event × Result FriendsError (List ℕ × List ℕ)

-- The loop over the relationships, with the lists `initial_friends` and `new_friends`.
unfoldable pub relate : Bool → Dict ℕ ℕ → List ℕ → List ℕ → FriendsCache → Outcome
relate incremental [] initial new c = (c, [], ok (initial, new))
relate incremental ((i, r) ∷ d) initial new c =
    let added = relate incremental d initial (new ++ i ∷ []) (add i c) in
    let listed = relate incremental d (initial ++ i ∷ []) new c in
    let (c', es, res) = relate incremental d initial new (remove i c).0 in
    let skipped = relate incremental d initial new c in
    if r == friend
    then (if incremental then added else listed)
    else if r == no_relationship
    then (if incremental then (c', (remove i c).1 ++ es, res) else (c, [], err assertion_error))
    else skipped

-- The requests for new friends, if there are any.
abbrev pub new_requests : List ℕ → List Message
new_requests [] = []
new_requests (i ∷ is) = get_friends_statuses ∷ get_user_infos (i ∷ is) ∷ []

abbrev pub Handled : Type 0
Handled = FriendsCache × List Event × Result FriendsError (List Message)

-- The part of the handler behind the loop.
unfoldable pub after_relate : Bool → Outcome → Handled
after_relate incremental (c, es, err e) = (c, es, err e)
after_relate true (c, es, ok (initial, new)) = (c, es, ok (new_requests new))
after_relate false (c, es, ok (initial, new)) =
    let (c', fs) = reset initial c in
    (
      c',
      es ++ fs,
      ok (set_persona_state ∷ get_friends_statuses ∷ get_user_infos initial ∷ new_requests new),
    )

unfoldable pub relationship_handler : Bool → Dict ℕ ℕ → FriendsCache → Handled
relationship_handler incremental d c = after_relate incremental (relate incremental d [] [] c)
