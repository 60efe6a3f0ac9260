-- ===== src/Friends/Translations.antt =====
-- The translations of a game are asked for once.
use galaxy_integration_steam.Prelude.{
  ℕ, ◌+◌, ◌≤◌, ◌≡◌, List, [], ◌∷◌, ◌++◌, Option, none, some, arith, if◌then◌else◌, ◌==◌, ==_iff,
  if_intro, Result,
}
use galaxy_integration_steam.Prelude.Keys.{nat_eq}
use galaxy_integration_steam.Prelude.Text.{Text, codes}
use galaxy_integration_steam.Prelude.Dict.{Dict, has, get-put}
use galaxy_integration_steam.Friends.Messages.{FriendsError}
use galaxy_integration_steam.Friends.Persona.{
  Value, text, bytes, Friend, Client, translations_handler, ask_for, asks, read_rich_presence,
  read_game, ask_for_app, valid_state, user_info_handler, process_client_persona_state, Message,
  persona, translated, handle, handle_all,
}

module _ (i : ℕ) where
  abbrev pub count : List ℕ → ℕ
  count [] = 0
  count (j ∷ js) = (if j == i then 1 else 0) + count js

  count-append : (js ks : List ℕ) → count (js ++ ks) ≡ count js + count ks
  count-append [] ks = omega arith
  count-append (j ∷ js) ks = omega (arith, count-append js ks)

module _ {T : Type 0} (i : ℕ) where
  -- A game without an entry has not been asked for, and one with an entry once at most.
  abbrev pub IsAskedOnce : Client T → Type 0
  IsAskedOnce c = count i c.translations_asked ≤ (if has i c.translations then 1 else 0)

  translations_handler-IsAskedOnce :
      (appid : ℕ) (ts : List T) (c : Client T)
      → IsAskedOnce c
      → IsAskedOnce (translations_handler appid ts c)
  unfolding translations_handler
  translations_handler-IsAskedOnce appid [] c h = ground (
    arith,
    h,
    count-append i c.translations_asked (appid ∷ []),
    get-put appid i none c.translations,
    ==_iff appid i,
  )
  translations_handler-IsAskedOnce appid (t ∷ ts) c h = ground (
    arith,
    h,
    count-append i c.translations_asked (appid ∷ []),
    get-put appid i none c.translations,
    get-put appid i (some t) c.translations,
    ==_iff appid i,
  )

  ask_for-IsAskedOnce :
      (name : Text) (gameid : ℕ) (key value : Text) (c : Client T)
      → IsAskedOnce c
      → IsAskedOnce (ask_for name gameid key value c)
  unfolding ask_for
  ask_for-IsAskedOnce name gameid key value c h =
      if_intro IsAskedOnce (asks name key value)
        (λ _. translations_handler-IsAskedOnce gameid [] c h) (λ _. h)

  read_rich_presence-IsAskedOnce :
      (gameid : ℕ) (es : List (Text × Value)) (d : Dict Text Text) (c : Client T)
      → IsAskedOnce c
      → IsAskedOnce (read_rich_presence gameid es d c).1
  unfolding read_rich_presence
  read_rich_presence-IsAskedOnce gameid [] d c h = h
  read_rich_presence-IsAskedOnce gameid ((key, bytes b) ∷ es) d c h = h
  read_rich_presence-IsAskedOnce gameid ((key, text v) ∷ es) d c h =
      read_rich_presence-IsAskedOnce gameid es _ _ (
        ask_for-IsAskedOnce (codes "steam_display") gameid key v
          (ask_for (codes "status") gameid key v c)
          (ask_for-IsAskedOnce (codes "status") gameid key v c h))

  user_info_handler-IsAskedOnce :
      (f : Friend) (c : Client T) → IsAskedOnce c → IsAskedOnce (user_info_handler f c)
  unfolding user_info_handler read_game
  user_info_handler-IsAskedOnce f c h = played f.gameid
    where
      played : (g : Option ℕ) → IsAskedOnce (read_game g f.rich_presence c).1
      played none = h
      played (some gameid) = read_rich_presence-IsAskedOnce gameid f.rich_presence [] c h

  ask_for_app-IsAskedOnce :
      (confirmed : Option ℕ) (friendid app : ℕ) (c : Client T)
      → IsAskedOnce c
      → IsAskedOnce (ask_for_app confirmed friendid app c)
  ask_for_app-IsAskedOnce none friendid app c h = h
  ask_for_app-IsAskedOnce (some me) friendid app c h = if_intro IsAskedOnce _ (λ _. h) (λ _. h)

  persona-IsAskedOnce :
      (confirmed : Option ℕ) (fs : List Friend) (c : Client T)
      → IsAskedOnce c
      → IsAskedOnce (process_client_persona_state confirmed fs c).0
  unfolding process_client_persona_state
  persona-IsAskedOnce confirmed [] c h = h
  persona-IsAskedOnce confirmed (f ∷ fs) c h =
      let asked = ask_for_app confirmed f.friendid f.game_played_app_id c in
      let once = ask_for_app-IsAskedOnce confirmed f.friendid f.game_played_app_id c h in
      if_intro (λ (r : Client T × Result FriendsError (Unit {0})). IsAskedOnce r.0)
        (valid_state f.persona_state)
        (λ _.
          persona-IsAskedOnce confirmed fs (user_info_handler f asked)
            (user_info_handler-IsAskedOnce f asked once))
        (λ _. once)

  handle-IsAskedOnce :
      (confirmed : Option ℕ) (m : Message T) (c : Client T)
      → IsAskedOnce c
      → IsAskedOnce (handle confirmed m c)
  unfolding handle
  handle-IsAskedOnce confirmed (persona fs) c h = persona-IsAskedOnce confirmed fs c h
  handle-IsAskedOnce confirmed (translated appid tokens) c h =
      translations_handler-IsAskedOnce appid tokens c h

  -- Let a game's translations have been asked for once at most, and not at all if the cache has no
  -- entry for the game. This stays so whatever messages about friends and translations come, in whatever
  -- order.
  pub handle_all-IsAskedOnce :
      (confirmed : Option ℕ) (ms : List (Message T)) (c : Client T)
      → IsAskedOnce c
      → IsAskedOnce (handle_all confirmed ms c)
  unfolding handle_all
  handle_all-IsAskedOnce confirmed [] c h = h
  handle_all-IsAskedOnce confirmed (m ∷ ms) c h =
      handle_all-IsAskedOnce confirmed ms (handle confirmed m c)
        (handle-IsAskedOnce confirmed m c h)
