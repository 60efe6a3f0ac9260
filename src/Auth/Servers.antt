-- ===== src/Auth/Servers.antt =====
-- `WebSocketList` of src/steam_network/websocket_list.py, as `_ensure_connected` walks through it.
-- Hosts and seconds are numbers; the list of servers comes from an HTTP request.
use galaxy_integration_steam.Prelude.{
  ℕ, ◌≡◌, ◌<◌, ◌≤◌, ◌+◌, ap, Bool, true, List, [], ◌∷◌, arith, Option, none, some, if◌then◌else◌,
  ltb, ◌==◌, ==_iff, All, if_intro,
}
use galaxy_integration_steam.Prelude.Keys.{nat_eq}
use galaxy_integration_steam.Prelude.Dict.{Dict, get, put, get-put}

-- BLACKLISTED_CM_EXPIRATION_SEC
abbrev pub expiration : ℕ
expiration = 300

-- `current_time()` when the generator comes to a server, the server's host, and whether it connects.
pub record Visit : Type 0 where
  pub time : ℕ
  pub host : ℕ
  pub connects : Bool

unfoldable pub add_server_to_ignored : ℕ → ℕ → ℕ → Dict ℕ ℕ → Dict ℕ ℕ
add_server_to_ignored now host timeout_sec blacklist = put host (now + timeout_sec) blacklist

abbrev or_zero : Option ℕ → ℕ
or_zero none = 0
or_zero (some t) = t

-- The test of `get`.
unfoldable pub is_offered : ℕ → ℕ → Dict ℕ ℕ → Bool
is_offered now host blacklist = ltb (or_zero (get host blacklist)) now

-- The servers that are tried, up to the first that connects; one that does not is put on the blacklist
-- before the next is taken.
unfoldable pub tried : List Visit → Dict ℕ ℕ → List Visit
tried [] blacklist = []
tried (v ∷ vs) blacklist =
    let omitted = tried vs blacklist in
    let failed = tried vs (add_server_to_ignored v.time v.host expiration blacklist) in
    if is_offered v.time v.host blacklist
    then (if v.connects then v ∷ [] else v ∷ failed)
    else omitted

-- A visit of the host comes after the time.
abbrev IsAfter : ℕ → ℕ → Visit → Type 0
IsAfter h t v = (v.host == h) ≡ true → t < v.time

same_expiry :
    (k h : ℕ) (blacklist : Dict ℕ ℕ)
    → (k == h) ≡ true
    → or_zero (get k blacklist) ≡ or_zero (get h blacklist)
same_expiry k h blacklist p = ap (λ i. or_zero (get i blacklist)) ((==_iff k h).0 p)

tried-IsAfter :
    (vs : List Visit) (blacklist : Dict ℕ ℕ) (h t : ℕ)
    → t ≤ or_zero (get h blacklist)
    → All (IsAfter h t) (tried vs blacklist)
unfolding tried is_offered add_server_to_ignored
tried-IsAfter [] blacklist h t le = tt
tried-IsAfter (v ∷ vs) blacklist h t le =
    let ignored = put v.host (v.time + expiration) blacklist in
    let same = same_expiry v.host h blacklist in
    if_intro (All (IsAfter h t)) (ltb (or_zero (get v.host blacklist)) v.time)
      (λ offered.
        let after : IsAfter h t v = λ p. ground (arith, p, offered, same, le) in
        if_intro (All (IsAfter h t)) v.connects (λ _. (after, tt))
          (λ _. (
            after,
            tried-IsAfter vs ignored h t (
                ground
                  (arith, offered, same, le, get-put v.host h (v.time + expiration) blacklist)),
          )))
      (λ _. tried-IsAfter vs blacklist h t le)

-- A host that refused is tried again only after 300 seconds.
abbrev pub IsSpaced : List Visit → Type 0
IsSpaced [] = Unit
IsSpaced (v ∷ vs) = All (IsAfter v.host (v.time + expiration)) vs × IsSpaced vs

-- However long the servers answer and whatever was on the blacklist: among the servers that are tried,
-- a host that refused comes again only after the 300 seconds for which it was put there.
pub tried-IsSpaced : (vs : List Visit) (blacklist : Dict ℕ ℕ) → IsSpaced (tried vs blacklist)
unfolding tried add_server_to_ignored
tried-IsSpaced [] blacklist = tt
tried-IsSpaced (v ∷ vs) blacklist =
    let ignored = put v.host (v.time + expiration) blacklist in
    if_intro IsSpaced (is_offered v.time v.host blacklist)
      (λ _.
        if_intro IsSpaced v.connects (λ _. (tt, tt))
          (λ _. (
            tried-IsAfter vs ignored v.host (v.time + expiration)
                (ground (arith, get-put v.host v.host (v.time + expiration) blacklist)),
            tried-IsSpaced vs ignored,
          )))
      (λ _. tried-IsSpaced vs blacklist)
