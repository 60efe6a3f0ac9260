-- ===== src/Friends/Tracking.antt =====
-- Which friends the cache holds, and which of them it still waits for.
use galaxy_integration_steam.Prelude.{
  ℕ, ◌≡◌, refl, ap, Bool, true, false, not, ◌&&◌, ◌||◌, List, [], ◌∷◌, arith, if◌then◌else◌, filter,
  if_intro, elim_intro, ◌==◌, ==_iff,
}
use galaxy_integration_steam.Prelude.Keys.{nat_eq, contains}
use galaxy_integration_steam.Prelude.Text.{Text}
use galaxy_integration_steam.Prelude.Dict.{Dict, get, has, put, pop, keys, get-put, get-pop}
use galaxy_integration_steam.UserInfo.Defs.{is_some}
use galaxy_integration_steam.Friends.Defs.{
  ProtoUserInfo, FriendsCache, AvailableInfo, Event, is_empty, update_ready_state, add_friend,
  remove_friend, add_all, remove_all, reset_friends, add, remove, reset, note, update,
  update_pending, update_nicknames, update_info, no_info,
}

module _ {V : Type 0} where
  has-put :
      (k j : ℕ) (v : V) (d : Dict ℕ V) → has j (put k v d) ≡ (if k == j then true else has j d)
  has-put k j v d = ground (arith, get-put k j v d)

  pub has-pop : (k j : ℕ) (d : Dict ℕ V) → has j (pop k d) ≡ (if k == j then false else has j d)
  has-pop k j d = ground (arith, get-pop k j d)

  has-is_empty : (k : ℕ) (d : Dict ℕ V) → is_empty d ≡ true → has k d ≡ false
  has-is_empty k [] h = refl
  has-is_empty k (x ∷ d) h = ground (arith, h)

  contains-keys : (k : ℕ) (d : Dict ℕ V) → contains k (keys d) ≡ has k d
  contains-keys k [] = refl
  contains-keys k ((j, v) ∷ d) = ground (arith, contains-keys k d)

pub same_test : (f : ℕ → Bool) (x k : ℕ) → (x == k) ≡ true → f x ≡ f k
same_test f x k h = ap f ((==_iff x k).0 h)

contains-filter :
    (k : ℕ) (p : ℕ → Bool) (xs : List ℕ) → contains k (filter p xs) ≡ (contains k xs && p k)
contains-filter k p [] = refl
contains-filter k p (x ∷ xs) = ground (arith, contains-filter k p xs, same_test p x k)

pub has-add_friend :
    (i k : ℕ) (c : FriendsCache)
    → has k (add_friend i c).info ≡ (if i == k then true else has k c.info)
unfolding add_friend
has-add_friend i k c = ground (arith, has-put i k no_info c.info, same_test (λ j. has j c.info) i k)

has-add_all :
    (is : List ℕ) (k : ℕ) (c : FriendsCache)
    → has k (add_all is c).info ≡ (contains k is || has k c.info)
has-add_all [] k c = refl
has-add_all (i ∷ is) k c = ground (arith, has-add_all is k (add_friend i c), has-add_friend i k c)

has-remove_all :
    (is : List ℕ) (k : ℕ) (c : FriendsCache)
    → has k (remove_all is c).0.info ≡ (not (contains k is) && has k c.info)
unfolding remove_friend
has-remove_all [] k c = refl
has-remove_all (i ∷ is) k c =
    ground (arith, has-remove_all is k (remove_friend i c).0, has-pop i k c.info)

-- After the first list of friends the cache holds these and nobody else, whoever it held before.
pub has-reset :
    (new : List ℕ) (k : ℕ) (c : FriendsCache) → has k (reset new c).0.info ≡ contains k new
unfolding reset reset_friends update_ready_state
has-reset new k c =
    let current = keys c.info in
    let gone = filter (λ i. not (contains i new)) current in
    ground (
      arith,
      has-add_all (filter (λ i. not (contains i current)) new) k (remove_all gone c).0,
      has-remove_all gone k c,
      contains-filter k (λ i. not (contains i current)) new,
      contains-filter k (λ i. not (contains i new)) current,
      contains-keys k c.info,
    )

-- A friend who is waited for is in the cache.
abbrev pub Tracks : FriendsCache → Type 0
Tracks c = (k : ℕ) → has k c.pending ≡ true → has k c.info ≡ true

-- And the cache is ready only if it waits for nobody.
pub record IsTracked (c : FriendsCache) : Type 0 where
  pub tracks : Tracks c
  pub settled : c.ready ≡ true → is_empty c.pending ≡ true

add_friend-Tracks : (i : ℕ) (c : FriendsCache) → Tracks c → Tracks (add_friend i c)
unfolding add_friend
add_friend-Tracks i c h k p = ground (
  arith,
  h k,
  p,
  has-put i k no_info c.info,
  has-put i k record { personal_info = false; state = false } c.pending,
)

remove_friend-Tracks : (i : ℕ) (c : FriendsCache) → Tracks c → Tracks (remove_friend i c).0
unfolding remove_friend
remove_friend-Tracks i c h k p = ground (arith, h k, p, has-pop i k c.info, has-pop i k c.pending)

add_all-Tracks : (is : List ℕ) (c : FriendsCache) → Tracks c → Tracks (add_all is c)
add_all-Tracks [] c h = h
add_all-Tracks (i ∷ is) c h = add_all-Tracks is (add_friend i c) (add_friend-Tracks i c h)

remove_all-Tracks : (is : List ℕ) (c : FriendsCache) → Tracks c → Tracks (remove_all is c).0
remove_all-Tracks [] c h = h
remove_all-Tracks (i ∷ is) c h =
    remove_all-Tracks is (remove_friend i c).0 (remove_friend-Tracks i c h)

update_ready_state-IsTracked : (c : FriendsCache) → Tracks c → IsTracked (update_ready_state c)
unfolding update_ready_state
update_ready_state-IsTracked c h = record { tracks = h; settled = λ p. p }

-- What is done to the cache.
pub data Change : Type 0 where
  adding removing : ℕ → Change
  resetting : List ℕ → Change
  updating : ℕ → ProtoUserInfo → Change
  naming : Dict Text Text → Change

abbrev pub change : Change → FriendsCache → FriendsCache
change (adding i) c = add i c
change (removing i) c = (remove i c).0
change (resetting new) c = (reset new c).0
change (updating i v) c = (update i v c).0
change (naming n) c = update_nicknames n c

reset_friends-Tracks : (new : List ℕ) (c : FriendsCache) → Tracks c → Tracks (reset_friends new c).0
unfolding reset_friends
reset_friends-Tracks new c h =
    let current = keys c.info in
    let gone = filter (λ i. not (contains i new)) current in
    add_all-Tracks (filter (λ i. not (contains i current)) new) (remove_all gone c).0
      (remove_all-Tracks gone c h)

update_pending-IsTracked :
    (i : ℕ) (new : ProtoUserInfo) (a : AvailableInfo) (c : FriendsCache)
    → IsTracked c
    → has i c.pending ≡ true
    → IsTracked (update_pending i new a c).0
unfolding update_pending update_ready_state
update_pending-IsTracked i new a c h waits =
    if_intro (λ (r : FriendsCache × List Event). IsTracked r.0) (a.personal_info && a.state)
      (λ _. record {
        tracks =
            λ k p. ground (arith, h.tracks k, p, has-put i k new c.info, has-pop i k c.pending);
        settled = λ p. p;
      })
      (λ _. record {
        tracks =
            λ k p. ground (arith, h.tracks k, p, has-put i k new c.info, has-put i k a c.pending);
        settled = λ p. ground (arith, h.settled p, has-is_empty i c.pending, waits);
      })

update-IsTracked :
    (i : ℕ) (v : ProtoUserInfo) (c : FriendsCache) → IsTracked c → IsTracked (update i v c).0
unfolding update
update-IsTracked i v c h =
    elim_intro (λ (r : FriendsCache × List Event). IsTracked r.0) (get i c.info) (λ _. h)
      (λ u known.
        elim_intro (λ (r : FriendsCache × List Event). IsTracked r.0) (get i c.pending)
          (λ _. record {
            tracks = λ k p. ground (arith, h.tracks k p, has-put i k (update_info u v) c.info);
            settled = h.settled;
          })
          (λ a waits.
            update_pending-IsTracked i (update_info u v) (note v a) c h (ground (arith, waits))))

-- Every change of the cache keeps this: a friend who is waited for is in the cache, and the cache is
-- ready only if it waits for nobody.
pub change-IsTracked : (x : Change) (c : FriendsCache) → IsTracked c → IsTracked (change x c)
unfolding add remove reset update_nicknames
change-IsTracked (adding i) c h = update_ready_state-IsTracked _ (add_friend-Tracks i c h.tracks)
change-IsTracked (removing i) c h =
    update_ready_state-IsTracked _ (remove_friend-Tracks i c h.tracks)
change-IsTracked (resetting new) c h =
    update_ready_state-IsTracked _ (reset_friends-Tracks new c h.tracks)
change-IsTracked (updating i v) c h = update-IsTracked i v c h
change-IsTracked (naming n) c h = record { tracks = h.tracks; settled = h.settled }

-- A friend whose name and state an update brings is waited for no longer.
pub update-settles :
    (i : ℕ) (v : ProtoUserInfo) (c : FriendsCache)
    → IsTracked c
    → is_some v.name ≡ true
    → is_some v.state ≡ true
    → has i (update i v c).0.pending ≡ false
unfolding update update_pending update_ready_state
update-settles i v c h name state =
    elim_intro (λ (r : FriendsCache × List Event). has i r.0.pending ≡ false) (get i c.info)
      (λ absent. ground (arith, absent, h.tracks i))
      (λ u known.
        elim_intro (λ (r : FriendsCache × List Event). has i r.0.pending ≡ false) (get i c.pending)
          (λ settled. ground (arith, settled))
          (λ a waits. ground (arith, name, state, has-pop i i c.pending)))
