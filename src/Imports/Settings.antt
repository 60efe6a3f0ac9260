-- ===== src/Imports/Settings.antt =====
-- What the collections and the times of Steam say of a game.
use galaxy_integration_steam.Prelude.{
  ℕ, ◌≡◌, refl, ap, Bool, false, not, ◌&&◌, List, [], ◌∷◌, ◌++◌, ◌∙◌, sym, if◌then◌else◌, Option,
  none, some, arith, any,
}
use galaxy_integration_steam.Prelude.Keys.{◌=?◌, nat_eq, contains}
use galaxy_integration_steam.Prelude.Text.{Text, list_eq, list_beq_iff}
use galaxy_integration_steam.Prelude.Dict.{Dict, get, get-put, HasUniqueKeys, put-HasUniqueKeys}
use galaxy_integration_steam.Imports.Collections.{
  Loads, Collections, put_collection, put_entries, put_data, process_collections_response,
  retrieve_collections, Settings, is_hidden, settings_from, get_game_library_settings,
}

abbrev pub lists : ℕ → Option (List ℕ) → Bool
lists game none = false
lists game (some added) = contains game added

module _ (lower : Text → Text) where
  -- The collections named "hidden", in whatever case, that list the game.
  abbrev pub is_hidden_in : ℕ → Dict Text (List ℕ) → Bool
  is_hidden_in game = any (λ (c : Text × List ℕ). contains game c.1 && is_hidden lower c.0)

  settings_from-lists :
      (game : ℕ) (name : Text) (d : Dict Text (List ℕ))
      → HasUniqueKeys d
      → (contains name (settings_from lower game d).0
          ≡ (lists game (get name d) && not (is_hidden lower name)))
        × ((settings_from lower game d).1 ≡ is_hidden_in game d)
  settings_from-lists game name [] u = (refl, refl)
  settings_from-lists game name ((n, added) ∷ d) u =
      ground (arith, settings_from-lists game name d u.1, u.0, list_beq_iff n name)

put_entries-HasUniqueKeys :
    (loads : Loads) (es : List Text) (d : Dict Text (List ℕ))
    → HasUniqueKeys d
    → HasUniqueKeys (put_entries loads es d)
put_entries-HasUniqueKeys loads [] d u = u
put_entries-HasUniqueKeys loads (e ∷ es) d u =
    put_entries-HasUniqueKeys loads es (put_collection (loads e) d) (one (loads e))
  where
    one : (o : Option (Text × List ℕ)) → HasUniqueKeys (put_collection o d)
    one none = u
    one (some (name, added)) = put-HasUniqueKeys name added d u

put_data-HasUniqueKeys :
    (loads : Loads) (data_ : List (List Text)) (d : Dict Text (List ℕ))
    → HasUniqueKeys d
    → HasUniqueKeys (put_data loads data_ d)
put_data-HasUniqueKeys loads [] d u = u
put_data-HasUniqueKeys loads (es ∷ data_) d u =
    put_data-HasUniqueKeys loads data_ (put_entries loads es d)
      (put_entries-HasUniqueKeys loads es d u)

-- The games of the last entry that has the name, if any has.
abbrev with_name : Text → Option (Text × List ℕ) → Option (List ℕ)
with_name name none = none
with_name name (some (n, added)) = if n =? name then some added else none

abbrev pub or_else : Option (List ℕ) → Option (List ℕ) → Option (List ℕ)
or_else none o = o
or_else (some added) o = some added

abbrev pub last_named : Loads → Text → List Text → Option (List ℕ)
last_named loads name [] = none
last_named loads name (e ∷ es) = or_else (last_named loads name es) (with_name name (loads e))

-- All entries of a response, in their order.
abbrev pub entries_of : List (List Text) → List Text
entries_of [] = []
entries_of (es ∷ data_) = es ++ entries_of data_

or_else_assoc : (a b c : Option (List ℕ)) → or_else a (or_else b c) ≡ or_else (or_else a b) c
or_else_assoc none b c = refl
or_else_assoc (some x) b c = refl

get-put_collection :
    (name : Text) (o : Option (Text × List ℕ)) (d : Dict Text (List ℕ))
    → get name (put_collection o d) ≡ or_else (with_name name o) (get name d)
get-put_collection name none d = refl
get-put_collection name (some (n, added)) d = ground (arith, get-put n name added d)

get-put_entries :
    (loads : Loads) (name : Text) (es : List Text) (d : Dict Text (List ℕ))
    → get name (put_entries loads es d) ≡ or_else (last_named loads name es) (get name d)
get-put_entries loads name [] d = refl
get-put_entries loads name (e ∷ es) d =
    get-put_entries loads name es (put_collection (loads e) d)
    ∙ ap (or_else (last_named loads name es)) (get-put_collection name (loads e) d)
    ∙ or_else_assoc (last_named loads name es) (with_name name (loads e)) (get name d)

last_named-append :
    (loads : Loads) (name : Text) (es fs : List Text)
    → last_named loads name (es ++ fs)
      ≡ or_else (last_named loads name fs) (last_named loads name es)
last_named-append loads name [] fs = or_else-none (last_named loads name fs)
  where
    or_else-none : (o : Option (List ℕ)) → o ≡ or_else o none
    or_else-none none = refl
    or_else-none (some x) = refl
last_named-append loads name (e ∷ es) fs =
    ap (λ o. or_else o (with_name name (loads e))) (last_named-append loads name es fs)
    ∙ sym (
        or_else_assoc (last_named loads name fs) (last_named loads name es)
          (with_name name (loads e)))

get-put_data :
    (loads : Loads) (name : Text) (data_ : List (List Text)) (d : Dict Text (List ℕ))
    → get name (put_data loads data_ d)
      ≡ or_else (last_named loads name (entries_of data_)) (get name d)
get-put_data loads name [] d = refl
get-put_data loads name (es ∷ data_) d =
    let later = last_named loads name (entries_of data_) in
    get-put_data loads name data_ (put_entries loads es d)
    ∙ ap (or_else later) (get-put_entries loads name es d)
    ∙ or_else_assoc later (last_named loads name es) (get name d)
    ∙ ap (λ o. or_else o (get name d)) (sym (last_named-append loads name es (entries_of data_)))

module _ (lower : Text → Text) (game : ℕ) (name : Text) where
  -- The settings against the collections: without any there are none.
  abbrev pub Fits : Dict Text (List ℕ) → Settings → Type 0
  Fits [] s = (s.tags ≡ none) × (s.hidden ≡ none)
  Fits (c ∷ d) s =
      (tags : List Text) × (s.tags ≡ some tags)
      × (contains name tags ≡ (lists game (get name (c ∷ d)) && not (is_hidden lower name)))
      × (s.hidden ≡ some (is_hidden_in lower game (c ∷ d)))

  settings-Fits :
      (d : Dict Text (List ℕ)) → HasUniqueKeys d → Fits d (get_game_library_settings lower game d)
  unfolding get_game_library_settings
  settings-Fits [] u = (refl, refl)
  settings-Fits ((n, added) ∷ d) u =
      let (tags, hidden) = settings_from-lists lower game name ((n, added) ∷ d) u in
      ((settings_from lower game ((n, added) ∷ d)).0, refl, tags, ap some hidden)

  -- After a response of the cloud the games of a collection are those of the last entry of the response
  -- that has its name, and without one those of before. A name is among the tags of a game exactly if the
  -- collection of this name lists the game and the name is not "hidden" in some case, and the game is
  -- hidden exactly if a collection of such a name lists it; without collections there are no settings.
  -- The collections before the response have distinct names.
  pub settings-process_collections_response :
      (loads : Loads) (data_ : List (List Text)) (c : Collections)
      → HasUniqueKeys c.collections
      → let d = (retrieve_collections (process_collections_response loads data_ c)).0 in
        (get name d ≡ or_else (last_named loads name (entries_of data_)) (get name c.collections))
        × Fits d (get_game_library_settings lower game d)
  unfolding retrieve_collections process_collections_response
  settings-process_collections_response loads data_ c u = (
    get-put_data loads name data_ c.collections,
    settings-Fits (put_data loads data_ c.collections)
        (put_data-HasUniqueKeys loads data_ c.collections u),
  )
