-- ===== src/Local/Changes.antt =====
-- The changes between two lists of games are enough to come from the one to the other.
use mathlib.Core.Option.{or_else}
use galaxy_integration_steam.Prelude.{
  ◌≡◌, ◌∙◌, sym, ap, refl, ◌↔◌, not, ◌&&◌, List, [], ◌∷◌, ◌++◌, arith, Option, none, some,
  if◌then◌else◌,
}
use galaxy_integration_steam.Prelude.Keys.{Eq, ◌=?◌, contains, nat_eq}
use galaxy_integration_steam.Prelude.Text.{Text, list_eq, list_beq_iff}
use galaxy_integration_steam.Prelude.Dict.{Dict, get, has, put, keys, get-put}
use galaxy_integration_steam.UserInfo.Defs.{is_some}
use galaxy_integration_steam.Local.Defs.{
  LocalGameStates, LocalGame, put_all, state_dict, removed_games, added_games, change,
  changed_games, get_state_changes,
}

module _ {S : Type 0} where
  -- The last state that a list gives a game.
  last : Text → List (LocalGame S) → Option S
  unfolding or_else
  last i [] = none
  last i (g ∷ l) = or_else (last i l) (if g.game_id =? i then some g.local_game_state else none)

  or_else-none : (o : Option S) → or_else o none ≡ o
  unfolding or_else
  or_else-none none = refl
  or_else-none (some v) = refl

  last-append :
      (i : Text) (l m : List (LocalGame S)) → last i (l ++ m) ≡ or_else (last i m) (last i l)
  unfolding last or_else
  last-append i [] m = ground arith
  last-append i (g ∷ l) m = ground (arith, last-append i l m)

  get-put_all :
      (i : Text) (l : List (LocalGame S)) (d : Dict Text S)
      → get i (put_all l d) ≡ or_else (last i l) (get i d)
  unfolding last or_else
  get-put_all i [] d = refl
  get-put_all i (g ∷ l) d = ground (
    arith,
    get-put_all i l (put g.game_id g.local_game_state d),
    get-put g.game_id i g.local_game_state d,
  )

  get-state_dict : (i : Text) (l : List (LocalGame S)) → get i (state_dict l) ≡ last i l
  unfolding or_else
  get-state_dict i l = get-put_all i l [] ∙ or_else-none (last i l)

  contains-keys : (i : Text) (d : Dict Text S) → contains i (keys d) ≡ has i d
  contains-keys i [] = refl
  contains-keys i ((j, v) ∷ d) = ground (arith, contains-keys i d)

  last-nil : (l : List (LocalGame S)) → ((i : Text) → last i l ≡ none) → l ≡ []
  unfolding last or_else
  last-nil [] h = refl
  last-nil (g ∷ l) h = ground (arith, h g.game_id, list_beq_iff g.game_id g.game_id)

  last-removed_games :
      (none_ : S) (old new : Dict Text S) (i : Text) (is : List Text)
      → last i (removed_games none_ old new is)
        ≡ (if contains i is && not (has i new) then some none_ else none)
  unfolding last or_else removed_games
  last-removed_games none_ old new i [] = refl
  last-removed_games none_ old new i (j ∷ is) =
      ground (arith, last-removed_games none_ old new i is, list_beq_iff j i)

  last-added_games :
      (old new : Dict Text S) (i : Text) (l : List (LocalGame S))
      → last i (added_games old new l) ≡ (if has i new && not (has i old) then last i l else none)
  unfolding last or_else added_games
  last-added_games old new i [] = ground arith
  last-added_games old new i (g ∷ l) =
      ground (arith, last-added_games old new i l, list_beq_iff g.game_id i)

module _ {S : Type 0} ⦃e : Eq S⦄ where
  -- The state that is reported of a game, from its states in the two lists.
  abbrev change_of : Option S → Option S → Option S
  change_of (some w) (some v) = if v =? w then none else some v
  change_of _ _ = none

  last-changed_games :
      (old new : Dict Text S) (i : Text) (is : List Text)
      → last i (changed_games old new is)
        ≡ (if contains i is then change_of (get i old) (get i new) else none)
  unfolding last or_else changed_games
  last-changed_games old new i [] = refl
  last-changed_games old new i (j ∷ is) = ground (
    arith,
    last-changed_games old new i is,
    last-append i (change old new j (get j old) (get j new)) (changed_games old new is),
    list_beq_iff j i,
  )

module _ {S : Type 0} (F : LocalGameStates S) where
  -- What Galaxy shows for a game.
  abbrev pub shown : Option S → S
  shown none = F.none_
  shown (some v) = v

module _ {S : Type 0} ⦃e : Eq S⦄ (F : LocalGameStates S)
    (old_list new_list : List (LocalGame S)) where
  abbrev reported : Option S → Option S → Option S
  reported (some _) none = some F.none_
  reported none (some v) = some v
  reported o n = change_of o n

  merged :
      (o n : Option S)
      → or_else (if is_some n then change_of o n else none) (
          or_else
            (if is_some n && not (is_some o) then n else none)
            (if is_some o && not (is_some n) then some F.none_ else none))
        ≡ reported o n
  unfolding or_else
  merged none none = refl
  merged none (some v) = refl
  merged (some w) none = refl
  merged (some w) (some v) = ground (arith, e.beq_iff v w)

  last-get_state_changes :
      (i : Text)
      → last i (get_state_changes F old_list new_list)
        ≡ reported (get i (state_dict old_list)) (get i (state_dict new_list))
  unfolding get_state_changes or_else
  last-get_state_changes i =
      let old = state_dict old_list in
      let new = state_dict new_list in
      let removed = removed_games F.none_ old new (keys old) in
      let added = added_games old new new_list in
      let changed = changed_games old new (keys new) in
      last-append i (removed ++ added) changed
      ∙ ap (or_else (last i changed)) (last-append i removed added)
      ∙ rw
          (
            last-removed_games F.none_ old new i (keys old),
            last-added_games old new i new_list,
            last-changed_games old new i (keys new),
            contains-keys i old,
            contains-keys i new,
            ← get-state_dict i new_list,
          )
          (merged (get i old) (get i new))

  shown-reported :
      (o n x : Option S) → shown F x ≡ shown F o → shown F (or_else (reported o n) x) ≡ shown F n
  unfolding or_else
  shown-reported none none x h = h
  shown-reported none (some v) x h = refl
  shown-reported (some w) none x h = refl
  shown-reported (some w) (some v) x h = ground (arith, e.beq_iff v w, h)

  -- Galaxy, that shows each game as the old list has it and is told the changes one after the other,
  -- then shows each in the state that the new list gives it, or as not installed if the new list does
  -- not have it. Both lists may repeat games.
  pub shown-get_state_changes :
      (galaxy : Dict Text S)
      → ((i : Text) → shown F (get i galaxy) ≡ shown F (get i (state_dict old_list)))
      → (i : Text)
      → shown F (get i (put_all (get_state_changes F old_list new_list) galaxy))
        ≡ shown F (get i (state_dict new_list))
  shown-get_state_changes galaxy same i =
      ap (shown F) (
        get-put_all i (get_state_changes F old_list new_list) galaxy
        ∙ ap (λ c. or_else c (get i galaxy)) (last-get_state_changes i))
      ∙ shown-reported (get i (state_dict old_list)) (get i (state_dict new_list)) (get i galaxy)
          (same i)

  reported-none : (o n : Option S) → (reported o n ≡ none) ↔ (o ≡ n)
  reported-none none none = (λ _. refl, λ _. refl)
  reported-none none (some v) = (λ h. ground (arith, h), λ h. ground (arith, h))
  reported-none (some w) none = (λ h. ground (arith, h), λ h. ground (arith, h))
  reported-none (some w) (some v) =
      let (to, from) = e.beq_iff v w in (λ h. ground (arith, h, to), λ h. ground (arith, h, from))

  last_of_nil :
      (i : Text)
      → get_state_changes F old_list new_list ≡ []
      → last i (get_state_changes F old_list new_list) ≡ none
  unfolding last
  last_of_nil i h = ap (last i) h

  -- No change is reported exactly if the two lists give every game the same state.
  pub get_state_changes-nil_iff :
      (get_state_changes F old_list new_list ≡ [])
      ↔ ((i : Text) → get i (state_dict old_list) ≡ get i (state_dict new_list))
  get_state_changes-nil_iff = (
    λ h i.
        (reported-none (get i (state_dict old_list)) (get i (state_dict new_list))).0
          (sym (last-get_state_changes i) ∙ last_of_nil i h),
    λ h. last-nil (get_state_changes F old_list new_list) (λ i.
        last-get_state_changes i
        ∙ (reported-none (get i (state_dict old_list)) (get i (state_dict new_list))).1 (h i)),
  )
